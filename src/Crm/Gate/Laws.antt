-- ===== src/Crm/Gate/Laws.antt =====
-- What the CRM gate of app/modules/crm/gate.py promises.
use stepan.Prelude.{
  String, ◌≡◌, refl, ◌↔◌, ◌⊎◌, Bool, true, false, ◌&&◌, ◌||◌, Option, none, some, [], arith,
  if◌then◌else◌, str_eq, is_blank,
}
use mathlib.Core.List.{flat_map}
use stepan.Prelude.Texts.{lower}
use stepan.Domain.Stage.{manager}
use stepan.Domain.Lead.{Time, Lead}
use stepan.Conversation.Outbox.Row
use stepan.Conversation.Outbox.Row.{Source}
use stepan.Crm.Gate.Verdict.{
  CrmRaw, CrmState, HoldKind, silence, unclassified, hold_kind, is_hold, refused, parse,
  compute_verdict, hold_reasons, manager_owns,
}
use stepan.Crm.Gate.{
  GateState, GateConfig, allow_send, decide, stand_down, state_for, fetch, enforce, refresh,
  is_reply_source,
}

-- A refusal in a record that exists refuses every automated send and stands the lead down,
-- whatever else the record says, an explicit verdict included.
pub decide-refused :
    (raw : CrmRaw) (g : GateState) (source : Source) (now : Time)
    → raw.exists ≡ true
    → refused raw ≡ true
    → decide g source (some (parse raw)) now
      ≡ (stand_down g "refused by manager" now, false, "refused by manager")
unfolding decide compute_verdict hold_kind parse
decide-refused raw g source now h k = rw k (rw h refl)

-- A record that is not refused has no reason to hold exactly when hold_kind leaves it
-- unclassified.
pub hold_reasons-hold_kind :
    (raw : CrmRaw) → refused raw ≡ false → (hold_reasons raw ≡ []) ↔ (hold_kind raw ≡ unclassified)
unfolding hold_kind hold_reasons
hold_reasons-hold_kind raw h = ground arith

-- A closed deal is held, unless the CRM's own verdict says otherwise.
closed-held :
    (raw : CrmRaw)
    → refused raw ≡ false
    → raw.verdict ≡ none
    → (raw.deal_won || raw.contract_signed || raw.paid) ≡ true
    → (compute_verdict raw).0 ≡ "hold"
unfolding compute_verdict hold_reasons lower flat_map
closed-held raw ok derived won = rw (ok, derived) (ground arith)

-- How far a CRM state reaches, told apart from the code's tests.
pub data Reach : Type 0 where
  free starts_nothing closed : Reach

abbrev held : HoldKind → Reach
held silence = closed
held _ = starts_nothing

abbrev pub reach : Option CrmState → Reach
reach none = free
reach (some state) =
    if state.exists && is_hold state.verdict then held (hold_kind state.raw) else free

abbrev pub permitted : Reach → Source → Bool
permitted free source = true
permitted starts_nothing source = is_reply_source source
permitted closed source = false

-- The lead is stood down where the state is closed, and else left as it is.
abbrev pub lead_after : Reach → Lead → Lead
lead_after closed lead = record lead { stage = manager; agent_enabled = false }
lead_after _ lead = lead

decide_lem :
    (g : GateState) (source : Source) (state : Option CrmState) (now : Time)
    → ((decide g source state now).1 ≡ permitted (reach state) source)
      × ((decide g source state now).0.lead ≡ lead_after (reach state) g.lead)
unfolding decide stand_down
decide_lem g source none now = (refl, refl)
decide_lem g source (some state) now = (ground arith, ground arith)

state_for_lead :
    (ttl : Time) (g : GateState) (answer : Option CrmRaw) (now : Time)
    → (state_for ttl g answer now).0.lead ≡ g.lead
unfolding state_for fetch
state_for_lead ttl g answer now = ground arith

-- A manager who owns a closed deal takes its reach down to what the bot starts.
reach-closed :
    (raw : CrmRaw)
    → raw.exists ≡ true
    → refused raw ≡ false
    → raw.verdict ≡ none
    → (raw.deal_won || raw.contract_signed || raw.paid) ≡ true
    → reach (some (parse raw)) ≡ (if manager_owns raw then starts_nothing else closed)
unfolding parse hold_kind
reach-closed raw exists ok derived won = rw (closed-held raw ok derived won) (ground arith)

-- The gate is consulted: reading is on, there is a safe source and a phone to ask it about.
pub record IsConsulted (safe : String → Bool) (g : GateState) (cfg : GateConfig) : Type 0 where
  pub enabled : cfg.crm_read_enabled ≡ true
  pub has_url : str_eq cfg.url "" ≡ false
  pub has_phone : is_blank g.lead.phone_e164 ≡ false
  pub is_safe : safe cfg.url ≡ true

module _ (safe : String → Bool) (ttl : Time) (g : GateState) (cfg : GateConfig) (source : Source)
    (answer : Option CrmRaw) (now : Time) where
  -- A consulted gate answers an automated send by the reach of the CRM's state alone, and
  -- leaves the lead as that reach says.
  pub allow_send-permitted :
      IsConsulted safe g cfg
      → Row.is_manager source ≡ false
      → ((allow_send safe ttl g cfg source answer now).1
          ≡ permitted (reach (state_for ttl g answer now).1) source)
        × ((allow_send safe ttl g cfg source answer now).0.lead
            ≡ lead_after (reach (state_for ttl g answer now).1) g.lead)
  unfolding allow_send
  allow_send-permitted c m =
      let (g', state) = state_for ttl g answer now in
      let facts = decide_lem g' source state now in
      (ground (arith, facts.0), ground (arith, facts.1, state_for_lead ttl g answer now))

  -- A closed deal, won, signed or paid, in a record that exists, with no refusal and no verdict of
  -- its own, read live: the gate refuses every automated send and stands the lead down, unless
  -- a manager owns the record; then replies still go out and the lead stays as it is.
  pub allow_send_closed :
      (raw : CrmRaw)
      → IsConsulted safe g cfg
      → Row.is_manager source ≡ false
      → g.cached ≡ none
      → answer ≡ some raw
      → raw.exists ≡ true
      → refused raw ≡ false
      → raw.verdict ≡ none
      → (raw.deal_won || raw.contract_signed || raw.paid) ≡ true
      → ((allow_send safe ttl g cfg source answer now).1
          ≡ (manager_owns raw && is_reply_source source))
        × ((allow_send safe ttl g cfg source answer now).0.lead
            ≡ (if manager_owns raw then g.lead else lead_after closed g.lead))
  unfolding state_for fetch
  allow_send_closed raw c m fresh live exists ok derived won =
      let state : Option CrmState = (state_for ttl g answer now).1 in
      let read_live : state ≡ some (parse raw) = rw (fresh, live) refl in
      let at_reach : reach state ≡ (if manager_owns raw then starts_nothing else closed) =
        rw read_live (reach-closed raw exists ok derived won) in
      let (sends, leaves) = allow_send-permitted c m in
      (ground (arith, sends, at_reach), ground (arith, leaves, at_reach))

  -- The gate fails open: where it is not consulted, for a manager's send, and where the CRM is
  -- unreachable with nothing cached, the send is allowed and nothing changes.
  pub allow_send_open :
      (cfg.crm_read_enabled ≡ false)
        ⊎ (str_eq cfg.url "" ≡ true)
        ⊎ (Row.is_manager source ≡ true)
        ⊎ (is_blank g.lead.phone_e164 ≡ true)
        ⊎ (safe cfg.url ≡ false)
        ⊎ (answer ≡ none) × (g.cached ≡ none)
      → ((allow_send safe ttl g cfg source answer now).1 ≡ true)
        × ((allow_send safe ttl g cfg source answer now).0 ≡ g)
  unfolding allow_send state_for fetch decide
  allow_send_open h = (ground arith, ground arith)

-- Where the gate is consulted, the background sweep leaves the lead as the reach of the live
-- answer says: stood down where it is closed, as it was where it is not.
pub enforce-lead_after :
    (safe : String → Bool) (g : GateState) (cfg : GateConfig) (answer : Option CrmRaw) (now : Time)
    → IsConsulted safe g cfg
    → (enforce safe g cfg answer now).0.lead ≡ lead_after (reach (fetch g answer now).1) g.lead
unfolding enforce refresh fetch stand_down
enforce-lead_after safe g cfg answer now c = ground arith
