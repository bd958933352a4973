-- ===== src/Crm/Gate/Verdict.antt =====
-- app/modules/crm/gate.py: the verdict on a CRM record, and how far a hold reaches.
use stepan.Prelude.{
  ℕ, String, Bool, true, false, ◌||◌, Option, none, List, [], ◌∷◌, ◌++◌, if◌then◌else◌, str_eq,
  concat, or_text,
}
use stepan.Prelude.Texts.{codes, lower, strip, same}

-- The CRM's answer. A text field that is absent is `none`; a flag is the truth value of its
-- field, false where it is absent, and `exists` is true where it is absent.
pub record CrmRaw : Type 0 where
  pub exists : Bool
  pub status : Option String
  pub last_result : Option String
  pub owner : Option String
  pub verdict : Option String
  pub reason : Option String
  pub deal_won : Bool
  pub contract_signed : Bool
  pub paid : Bool
  pub open_task : Bool
  pub manager_called : Bool
  pub next_contact_at : Bool

-- The fields of CrmState that the gate's decisions read.
pub record CrmState : Type 0 where
  pub exists : Bool
  pub verdict : String
  pub reason : String
  pub raw : CrmRaw

-- The raw record that `_from_row` rebuilds.
abbrev pub state_of : Option String → Bool → Option String → CrmRaw
state_of owner deal_won status = record {
  exists = true;
  status = status;
  last_result = none;
  owner = owner;
  verdict = none;
  reason = none;
  deal_won = deal_won;
  contract_signed = false;
  paid = false;
  open_task = false;
  manager_called = false;
  next_contact_at = false;
}

-- `a or b` on optional texts, as a text.
abbrev pub first_text : Option String → Option String → String
first_text a b = or_text a (or_text b "")

-- `_refused`; the text is REFUSED_STATUS.
unfoldable pub refused : CrmRaw → Bool
refused raw = same (strip (codes (first_text raw.status raw.last_result))) (codes "result_fail")

-- `str(raw.get("owner") or "").lower() == "manager"`
unfoldable pub manager_owns : CrmRaw → Bool
manager_owns raw = same (lower (codes (or_text raw.owner ""))) (codes "manager")

pub data HoldKind : Type 0 where
  silence initiative unclassified : HoldKind

abbrev pub is_silence : HoldKind → Bool
is_silence silence = true
is_silence _ = false

-- `hold_kind`
unfoldable pub hold_kind : CrmRaw → HoldKind
hold_kind raw =
    if refused raw
    then silence
    else if manager_owns raw
    then initiative
    else if raw.deal_won || raw.contract_signed || raw.paid
    then silence
    else if raw.manager_called || raw.next_contact_at || raw.open_task
    then initiative
    else unclassified

abbrev label : Bool → String → List String
label true text = text ∷ []
label false text = []

-- The reasons of compute_verdict, in the order of _HOLD_FLAGS.
unfoldable pub hold_reasons : CrmRaw → List String
hold_reasons raw =
    label (manager_owns raw) "manager owns"
    ++ (label raw.deal_won "deal won"
        ++ (label raw.contract_signed "contract signed"
            ++ (label raw.paid "paid"
                ++ (label raw.open_task "open task"
                    ++ (label raw.manager_called "manager called"
                        ++ label raw.next_contact_at "next contact scheduled")))))

-- `"; ".join(reasons)`
unfoldable pub join_reasons : List String → String
join_reasons [] = ""
join_reasons (r ∷ []) = r
join_reasons (r ∷ s ∷ rs) = concat r (concat "; " (join_reasons (s ∷ rs)))

-- `str(raw.get("verdict") or "").lower()`
abbrev explicit : CrmRaw → List ℕ
explicit raw = lower (codes (or_text raw.verdict ""))

abbrev derived : List String → String × String
derived [] = ("proceed", "")
derived (r ∷ rs) = ("hold", join_reasons (r ∷ rs))

-- `compute_verdict`
unfoldable pub compute_verdict : CrmRaw → String × String
unfolding hold_reasons
compute_verdict raw =
    if refused raw
    then ("hold", "refused by manager")
    else if same (explicit raw) (codes "proceed")
    then ("proceed", or_text raw.reason "proceed")
    else if same (explicit raw) (codes "hold")
    then ("hold", or_text raw.reason "hold")
    else derived (hold_reasons raw)

abbrev pub is_hold : String → Bool
is_hold verdict = str_eq verdict "hold"

-- `_parse`
unfoldable pub parse : CrmRaw → CrmState
parse raw = record {
  exists = raw.exists;
  verdict = (compute_verdict raw).0;
  reason = (compute_verdict raw).1;
  raw = raw;
}
