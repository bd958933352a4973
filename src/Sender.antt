-- ===== src/Sender.antt =====
-- app/modules/sender/inbound.py: the table of messages that the CRM's sender hands over, written by
-- its callback and by the catch-up sweep. Texts are compared as code points.
pub mod Callback
pub mod Catchup
pub mod Laws
pub mod Complete
pub mod Again
use stepan.Prelude.{
  if◌then◌else◌, str_eq, ℕ, String, Bool, true, false, ◌||◌, Option, none, some, List, [], ◌∷◌,
  ◌++◌,
}
use stepan.Prelude.Texts.{codes, lower, same, is_empty, strip}

-- `payload.get(key)`: no such key, None, a text, or another value by its truth and its `str`.
pub data Value : Type 0 where
  absent null : Value
  text : String → Value
  json : Bool → String → Value

abbrev pub Payload : Type 0
Payload = String → Value

-- CALLBACK and CATCHUP
pub data Route : Type 0 where
  callback catchup : Route

pub record SenderInbound : Type 0 where
  pub external_id : List ℕ
  pub project_id : Option String
  pub branch_ref : Option String
  pub conversation_id : Option String
  pub chat_id : Option String
  pub sender_message_id : Option String
  pub sender_user_id : Option String
  pub phone : Option String
  pub from_name : Option String
  pub body : Option String
  pub attachment : Option String
  pub channel_name : Option String
  pub is_outgoing : Bool
  pub arrived_via : Route

-- `str(value or default)`
abbrev pub str_or : Value → String → String
str_or absent d = d
str_or null d = d
str_or (text s) d = if str_eq s "" then d else s
str_or (json is_true s) d = if is_true then s else d

-- `if value not in (None, ""): setattr(row, ours, str(value))`
abbrev kept : Value → Option String
kept absent = none
kept null = none
kept (text s) = if str_eq s "" then none else some s
kept (json _ s) = some s

-- `str(payload.get("external_id") or "").strip()`
unfoldable pub key_of : Payload → List ℕ
key_of payload = strip (codes (str_or (payload "external_id") ""))

abbrev pub is_outgoing_text : String → Bool
is_outgoing_text direction = same (lower (strip (codes direction))) (codes "out")

-- `to_row` where the payload has a key.
unfoldable pub row_of : Payload → Route → SenderInbound
unfolding key_of
row_of payload route = record {
  external_id = key_of payload;
  project_id = kept (payload "project_id");
  branch_ref = kept (payload "branch_id");
  conversation_id = kept (payload "conversation_id");
  chat_id = kept (payload "chat_id");
  sender_message_id = kept (payload "id");
  sender_user_id = kept (payload "user_id");
  phone = kept (payload "from");
  from_name = kept (payload "from_name");
  body = kept (payload "message");
  attachment = kept (payload "attachment");
  channel_name = kept (payload "chanel");
  is_outgoing = is_outgoing_text (str_or (payload "type_send") "in");
  arrived_via = route;
}

-- `to_row`
unfoldable pub to_row : Payload → Route → Option SenderInbound
unfolding row_of
to_row payload route = if is_empty (key_of payload) then none else some (row_of payload route)

-- Whether the unique index on external_id has the key.
unfoldable pub holds : List ℕ → List SenderInbound → Bool
holds key [] = false
holds key (r ∷ rs) = same r.external_id key || holds key rs

-- `store`: an INSERT in a savepoint; a collision on the index leaves the table and answers False.
unfoldable pub store : SenderInbound → List SenderInbound → List SenderInbound × Bool
unfolding holds
store row table =
    if holds row.external_id table then (table, false) else (table ++ (row ∷ []), true)
