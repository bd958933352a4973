-- ===== src/Tests/Sender.antt =====
-- The sender's two routes at small payloads.
use stepan.Prelude.{
  ◌+◌, if◌then◌else◌, str_eq, ℕ, String, ◌≡◌, refl, Bool, true, false, Option, some, List, [], ◌∷◌,
  arith,
}
use mathlib.Core.List.{Memᴰ}
use stepan.Domain.Lead.{Time}
use stepan.Prelude.Texts.{codes, lower_char, lower, is_space, lstrip, rstrip, strip}
use stepan.Sender.{
  store, Payload, SenderInbound, key_of, row_of, to_row, holds, absent, text, json, catchup,
}
use stepan.Sender.Again.{sweep_inbound_again}
use stepan.Sender.Callback.{CallbackSettings, Caller, inbound_callback}
use stepan.Sender.Catchup.{SenderTenant, is_configured, pull, rescue, sweep_each, sweep_inbound}
use stepan.Sender.Complete.{sweep_inbound-holds}
use stepan.Sender.Laws.{IsStep, Handovers, Handovers-IsStep, calls, begin, then_one}
use stepan.Tests.Samples.{noon}

abbrev payload : String → Payload
payload id key =
    if str_eq key "external_id"
    then text id
    else if str_eq key "from"
    then text "628111"
    else absent

from_manager :
    (row_of (λ k. if str_eq k "type_send" then text "OUT " else json true "7") catchup).is_outgoing
    ≡ true
unfolding row_of strip lstrip rstrip is_space lower lower_char mathlib.Core.List.flat_map
from_manager = refl

abbrev ask : Time → Time → List Payload × Bool
ask since until = (payload " w1 " ∷ payload "w2" ∷ [], false)

abbrev jakarta : SenderTenant
jakarta = record { project = "crm"; project_id = "6"; branch_id = "435" }

abbrev closed_callback : CallbackSettings
closed_callback = record {
  sender_callback_open = false;
  sender_callback_secret = "";
  sender_callback_ips = "";
}

abbrev stranger : Caller
stranger = record { signature = "sha256=00"; authorization = "Bearer "; host = some "10.0.0.1" }

abbrev hmac : String → String → List ℕ
hmac secret raw = codes "00"

abbrev form : String → Option String
form k = some "w1"

abbrev swept : List SenderInbound
swept = (sweep_inbound ask true jakarta noon 30 []).0

rescued_two : (sweep_inbound ask true jakarta noon 30 []).1 ≡ 2
unfolding sweep_inbound is_configured sweep_each rescue to_row row_of key_of strip lstrip rstrip
    is_space pull store holds
rescued_two = refl

abbrev after_call : List SenderInbound
after_call = (inbound_callback hmac closed_callback stranger "" form swept).0

one_call : Handovers swept after_call
one_call = then_one begin (calls hmac closed_callback stranger "" form swept)

Handovers-IsStep_example : IsStep swept after_call
Handovers-IsStep_example = Handovers-IsStep one_call

-- A later sweep that the CRM answers with the second message only.
abbrev ask_later : Time → Time → List Payload × Bool
ask_later since until = (payload "w2" ∷ [], false)

sweep_inbound_again_example :
    sweep_inbound ask_later true jakarta (noon + 1) 30 after_call ≡ (after_call, 0)
unfolding pull
sweep_inbound_again_example =
    sweep_inbound_again ask ask_later jakarta noon (noon + 1) 30 30 [] after_call
      (λ p m. Memᴰ.tail m) one_call

abbrev WasSent : Payload → Time → Type 0
WasSent p t = p ≡ payload "w2"

sweep_inbound-holds_example :
    holds (key_of (payload "w2")) (sweep_inbound ask true jakarta noon 30 []).0 ≡ true
unfolding is_configured key_of strip lstrip rstrip is_space
sweep_inbound-holds_example =
    sweep_inbound-holds ask 60000000 WasSent (λ a b p t s lo hi whole. Memᴰ.tail (Memᴰ.head s))
      (λ a b fits. refl) jakarta noon 30 [] (payload "w2") noon refl (omega arith) refl
      (omega arith) (omega arith) refl
