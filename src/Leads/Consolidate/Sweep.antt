-- ===== src/Leads/Consolidate/Sweep.antt =====
-- app/modules/leads/consolidate.py (sweep): merging every phone that points at several leads.
use stepan.Prelude.{
  count_if, str_eq_iff, refl, sym, Bool, length, length-append, All, ◌==◌, if◌then◌else◌, str_eq,
  Bool-cases, Option-cases, is_none, is_some, or_text, str_eq_flip, ℕ, suc, ◌+◌, String, ◌≡◌, inl,
  inr, false, ◌&&◌, Option, none, some, List, [], ◌∷◌, ◌++◌, arith,
}
use stepan.Domain.Lead.{Time, Lead}
use stepan.Domain.Thread.{ChannelThread}
use stepan.Leads.Consolidate.{Merge, merge_all}
use stepan.Leads.Consolidate.Rows.{Tables}
use stepan.Prelude.Texts.{same}

-- An entry of `by_phone`: the phone, and its leads in the order of the query.
pub record Group : Type 0 where
  pub phone : String
  pub first : Lead
  pub rest : List Lead

-- The rows of the query of `sweep`.
unfoldable pub sharable : (branch_id : ℕ) → List Lead → List Lead
sharable branch_id [] = []
sharable branch_id (l ∷ ls) =
    let rest = sharable branch_id ls in
    if l.branch_id == branch_id && is_some l.phone_e164 && is_none l.is_merged_into
    then l ∷ rest
    else rest

-- `by_phone.setdefault(phone, []).append(lead)`
unfoldable pub add_to_group : (phone : String) → Lead → List Group → List Group
add_to_group phone l [] = record { phone = phone; first = l; rest = [] } ∷ []
add_to_group phone l (g ∷ gs) =
    if str_eq g.phone phone
    then record g { rest = g.rest ++ (l ∷ []) } ∷ gs
    else g ∷ add_to_group phone l gs

unfoldable pub group_by_phone : List Lead → List Group → List Group
group_by_phone [] gs = gs
group_by_phone (l ∷ ls) gs = group_by_phone ls (add_to_group (or_text l.phone_e164 "") l gs)

-- The leads as the merges leave them, the threads, the tables and the number of merges.
pub record Swept : Type 0 where
  pub leads : List Lead
  pub threads : List ChannelThread
  pub tables : Tables
  pub merged : ℕ

swept_group : Swept → Group → Merge → Swept
swept_group s g m = record {
  leads = s.leads ++ (m.survivor ∷ m.retired_leads);
  threads = m.threads;
  tables = m.tables;
  merged = s.merged + length g.rest;
}

-- The loop over the groups; a lead alone with its phone is merged with nobody.
unfoldable pub sweep_groups : List Group → Swept → Time → Option Swept
unfolding swept_group
sweep_groups [] s now = some s
sweep_groups (g ∷ gs) s now =
    elim (merge_all
      (record { survivor = g.first; retired_leads = []; threads = s.threads; tables = s.tables })
      g.rest now) [ none ↦ none | some m ↦ sweep_groups gs (swept_group s g m) now ]

-- `sweep`; `none` is the exception of the database.
unfoldable pub sweep :
    (branch_id : ℕ) → List Lead → List ChannelThread → Tables → Time → Option Swept
unfolding sweep_groups sharable group_by_phone
sweep branch_id leads threads tables now =
    sweep_groups (group_by_phone (sharable branch_id leads) [])
      (record { leads = []; threads = threads; tables = tables; merged = 0 }) now

abbrev size : List Group → ℕ
size [] = 0
size (g ∷ gs) = suc (length g.rest) + size gs

add_to_group-size :
    (phone : String) (l : Lead) (gs : List Group) → size (add_to_group phone l gs) ≡ size gs + 1
unfolding add_to_group
add_to_group-size phone l [] = omega arith
add_to_group-size phone l (g ∷ gs) = elim (Bool-cases (str_eq g.phone phone)) [
  | inl same ↦ rw same (omega (arith, length-append g.rest (l ∷ [])))
  | inr apart ↦ rw apart (omega (arith, add_to_group-size phone l gs))
]

group_by_phone-size :
    (ls : List Lead) (gs : List Group) → size (group_by_phone ls gs) ≡ size gs + length ls
unfolding group_by_phone
group_by_phone-size [] gs = omega arith
group_by_phone-size (l ∷ ls) gs =
    let phone = or_text l.phone_e164 "" in
    omega (arith, group_by_phone-size ls (add_to_group phone l gs), add_to_group-size phone l gs)

-- No two groups have the same phone.
abbrev pub Apart : List Group → Type 0
Apart [] = Unit
Apart (g ∷ gs) = All (λ h. str_eq h.phone g.phone ≡ false) gs × Apart gs

add_to_group-All :
    (p phone : String) (l : Lead) (gs : List Group)
    → str_eq phone p ≡ false
    → All (λ h. str_eq h.phone p ≡ false) gs
    → All (λ h. str_eq h.phone p ≡ false) (add_to_group phone l gs)
unfolding add_to_group
add_to_group-All p phone l [] e a = (e, tt)
add_to_group-All p phone l (g ∷ gs) e (a, rest) = elim (Bool-cases (str_eq g.phone phone)) [
  | inl same ↦ rw same (a, rest)
  | inr apart ↦ rw apart (a, add_to_group-All p phone l gs e rest)
]

add_to_group-Apart :
    (phone : String) (l : Lead) (gs : List Group) → Apart gs → Apart (add_to_group phone l gs)
unfolding add_to_group
add_to_group-Apart phone l [] a = (tt, tt)
add_to_group-Apart phone l (g ∷ gs) (a, rest) = elim (Bool-cases (str_eq g.phone phone)) [
  | inl same ↦ rw same (a, rest)
  | inr apart ↦ rw apart (
    add_to_group-All g.phone phone l gs (str_eq_flip g.phone phone apart) a,
    add_to_group-Apart phone l gs rest,
  )
]

group_by_phone-Apart : (ls : List Lead) (gs : List Group) → Apart gs → Apart (group_by_phone ls gs)
unfolding group_by_phone
group_by_phone-Apart [] gs a = a
group_by_phone-Apart (l ∷ ls) gs a = group_by_phone-Apart ls _ (add_to_group-Apart _ l gs a)

-- The phone that a lead is grouped by.
abbrev pub phone_key : Lead → String
phone_key l = or_text l.phone_e164 ""

-- Every lead of a group has its phone.
abbrev pub IsAlike : Group → Type 0
IsAlike g = All (λ l. phone_key l ≡ g.phone) (g.first ∷ g.rest)

All-snoc :
    (p : String) (ls : List Lead) (l : Lead)
    → All (λ x. phone_key x ≡ p) ls
    → phone_key l ≡ p
    → All (λ x. phone_key x ≡ p) (ls ++ (l ∷ []))
All-snoc p [] l h e = (e, tt)
All-snoc p (x ∷ xs) l (h, hs) e = (h, All-snoc p xs l hs e)

add_to_group-IsAlike :
    (l : Lead) (gs : List Group) → All IsAlike gs → All IsAlike (add_to_group (phone_key l) l gs)
unfolding add_to_group
add_to_group-IsAlike l [] h = ((refl, tt), tt)
add_to_group-IsAlike l (g ∷ gs) ((f, r), hs) = elim (Bool-cases (str_eq g.phone (phone_key l))) [
  | inl hit ↦
      let e = (str_eq_iff g.phone (phone_key l)).0 hit in
      rw hit ((f, All-snoc g.phone g.rest l r (sym e)), hs)
  | inr miss ↦ rw miss ((f, r), add_to_group-IsAlike l gs hs)
]

group_by_phone-IsAlike :
    (ls : List Lead) (gs : List Group) → All IsAlike gs → All IsAlike (group_by_phone ls gs)
unfolding group_by_phone
group_by_phone-IsAlike [] gs h = h
group_by_phone-IsAlike (l ∷ ls) gs h =
    group_by_phone-IsAlike ls (add_to_group (phone_key l) l gs) (add_to_group-IsAlike l gs h)

-- How many leads of the groups pass a test.
abbrev pub grouped : (Lead → Bool) → List Group → ℕ
grouped f [] = 0
grouped f (g ∷ gs) = count_if f (g.first ∷ g.rest) + grouped f gs

count-snoc :
    (f : Lead → Bool) (ls : List Lead) (l : Lead)
    → count_if f (ls ++ (l ∷ [])) ≡ count_if f ls + count_if f (l ∷ [])
count-snoc f [] l = omega arith
count-snoc f (x ∷ xs) l = let rest = count-snoc f xs l in ground (arith, rest)

add_to_group-grouped :
    (f : Lead → Bool) (phone : String) (l : Lead) (gs : List Group)
    → grouped f (add_to_group phone l gs) ≡ grouped f gs + count_if f (l ∷ [])
unfolding add_to_group
add_to_group-grouped f phone l [] = ground arith
add_to_group-grouped f phone l (g ∷ gs) = elim (Bool-cases (str_eq g.phone phone)) [
  | inl hit ↦ let more = count-snoc f g.rest l in rw hit (ground (arith, more))
  | inr miss ↦ let rest = add_to_group-grouped f phone l gs in rw miss (ground (arith, rest))
]

group_by_phone-grouped :
    (f : Lead → Bool) (ls : List Lead) (gs : List Group)
    → grouped f (group_by_phone ls gs) ≡ grouped f gs + count_if f ls
unfolding group_by_phone
group_by_phone-grouped f [] gs = omega arith
group_by_phone-grouped f (l ∷ ls) gs =
    let one = add_to_group-grouped f (phone_key l) l gs in
    let rest = group_by_phone-grouped f ls (add_to_group (phone_key l) l gs) in
    ground (arith, one, rest)

sweep_groups-merged :
    (gs : List Group) (s : Swept) (now : Time) (n : Swept)
    → sweep_groups gs s now ≡ some n
    → n.merged + length gs ≡ s.merged + size gs
unfolding sweep_groups
sweep_groups-merged [] s now n e = ground (arith, e)
sweep_groups-merged (g ∷ gs) s now n e =
    elim (Option-cases (
      merge_all
        (record { survivor = g.first; retired_leads = []; threads = s.threads; tables = s.tables })
        g.rest now)) [
          | inl broken ↦ absurd (cc (e, broken))
          | inr (m, done) ↦ omega (
            arith,
            sweep_groups-merged gs (swept_group s g m) now n (rw (sweep_groups, done) at e),
          )
        ]

-- The groups that a sweep merges: no two have the same phone, every lead of a group has its phone,
-- and together they are the leads found, each as often.
abbrev pub IsPartition : List Lead → List Group → Type 0
IsPartition found groups =
    Apart groups × All IsAlike groups × ((f : Lead → Bool) → grouped f groups ≡ count_if f found)

-- A sweep that succeeds merges, group by group, the branch's unmerged leads with a phone: each is
-- in one group with just those of its own phone, and there are as many merges as such leads beyond
-- one for each phone.
pub sweep-merged :
    (branch_id : ℕ) (leads : List Lead) (threads : List ChannelThread) (tables : Tables)
    (now : Time) (n : Swept)
    → sweep branch_id leads threads tables now ≡ some n
    → let found = sharable branch_id leads in
      let groups = group_by_phone found [] in
      (sweep_groups groups
          (record { leads = []; threads = threads; tables = tables; merged = 0 })
          now
        ≡ some n)
      × (n.merged + length groups ≡ length found)
      × IsPartition found groups
unfolding sweep
sweep-merged branch_id leads threads tables now n e =
    let found = sharable branch_id leads in
    let groups = group_by_phone found [] in
    (
      e,
      omega (arith, sweep_groups-merged groups _ now n e, group_by_phone-size found []),
      (
        group_by_phone-Apart found [] tt,
        group_by_phone-IsAlike found [] tt,
        λ f. let all = group_by_phone-grouped f found [] in omega (arith, all),
      ),
    )
