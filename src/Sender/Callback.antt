-- ===== src/Sender/Callback.antt =====
-- app/api/_routes_sender.py: who may call the callback, and what one call stores.
use stepan.Prelude.{
  length, ◌==◌, if◌then◌else◌, str_eq, ℕ, zero, suc, String, Bool, false, not, ◌&&◌, ◌||◌, Option,
  none, some, List, [], ◌∷◌,
}
use stepan.Prelude.Texts.{codes, starts_with, same, is_empty, strip}
use stepan.Sender.{Value, Payload, SenderInbound, to_row, store, absent, text, callback}

-- The settings that the check reads.
pub record CallbackSettings : Type 0 where
  pub sender_callback_open : Bool
  pub sender_callback_secret : String
  pub sender_callback_ips : String

-- The request: its two headers, "" where missing, and the caller's address.
pub record Caller : Type 0 where
  pub signature : String
  pub authorization : String
  pub host : Option String

abbrev head_with : ℕ → List (List ℕ) → List (List ℕ)
head_with c [] = (c ∷ []) ∷ []
head_with c (part ∷ parts) = (c ∷ part) ∷ parts

-- `s.split(",")`
unfoldable pub split_comma : List ℕ → List (List ℕ)
split_comma [] = [] ∷ []
split_comma (c ∷ s) = let rest = split_comma s in if c == 44 then [] ∷ rest else head_with c rest

-- `client in {ip.strip() for ip in ... if ip.strip()}`
unfoldable pub is_allowed : List ℕ → List (List ℕ) → Bool
is_allowed host [] = false
is_allowed host (ip ∷ ips) =
    (not (is_empty (strip ip)) && same (strip ip) host) || is_allowed host ips

abbrev drop_codes : ℕ → List ℕ → List ℕ
drop_codes zero s = s
drop_codes (suc n) [] = []
drop_codes (suc n) (c ∷ s) = drop_codes n s

abbrev without_prefix : String → List ℕ → List ℕ
without_prefix prefix s =
    if starts_with (codes prefix) s then drop_codes (length (codes prefix)) s else s

abbrev host_codes : Option String → List ℕ
host_codes none = []
host_codes (some host) = codes host

-- A row of the callback: stored, or ignored without a key.
abbrev pub received : Option SenderInbound → List SenderInbound → List SenderInbound
received none table = table
received (some row) table = (store row table).0

module _ (hmac_hex : String → String → List ℕ) where
  -- The signature header, and then the bearer token.
  unfoldable pub has_proof : (secret : String) → Caller → (raw : String) → Bool
  unfolding starts_with
  has_proof secret caller raw =
      (not (str_eq caller.signature "")
        && same (hmac_hex secret raw) (without_prefix "sha256=" (codes caller.signature)))
      || (starts_with (codes "Bearer ") (codes caller.authorization)
          && same (drop_codes 7 (codes caller.authorization)) (codes secret))

  -- `_authorised`
  unfoldable pub authorised : CallbackSettings → Caller → (raw : String) → Bool
  unfolding has_proof split_comma is_allowed
  authorised cfg caller raw =
      cfg.sender_callback_open
      || (not (str_eq cfg.sender_callback_secret "")
          && has_proof cfg.sender_callback_secret caller raw)
      || is_allowed (host_codes caller.host) (split_comma (codes cfg.sender_callback_ips))

  abbrev wanted : List String
  wanted =
      "id" ∷ "external_id" ∷ "from" ∷ "message" ∷ "chanel" ∷ "project_id" ∷ "branch_id"
      ∷ "conversation_id" ∷ "chat_id" ∷ "from_name" ∷ "user_id" ∷ "attachment" ∷ "type_send" ∷ []

  abbrev any_equal : String → List String → Bool
  any_equal k [] = false
  any_equal k (w ∷ ws) = str_eq k w || any_equal k ws

  abbrev form_value : Option String → Value
  form_value none = absent
  form_value (some s) = text s

  -- `{k: str(form[k]) for k in _WANTED if k in form}`
  unfoldable pub data_of : (String → Option String) → Payload
  data_of form k = if any_equal k wanted then form_value (form k) else absent

  -- `inbound_callback`: the table and the status of the answer.
  unfoldable pub inbound_callback :
      CallbackSettings
      → Caller
      → (raw : String) → (String → Option String)
      → List SenderInbound
      → List SenderInbound × ℕ
  unfolding authorised data_of
  inbound_callback cfg caller raw form table =
      if authorised cfg caller raw
      then (received (to_row (data_of form) callback) table, 200)
      else (table, 403)
