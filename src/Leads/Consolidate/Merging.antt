-- ===== src/Leads/Consolidate/Merging.antt =====
-- Which lead survives the merge of app/modules/leads/consolidate.py, when it fails, and where a
-- second merge goes wrong.
use stepan.Prelude.{
  count_if, refl, sym, ℕ, ◌+◌, ◌≡◌, ◌≢◌, ◌⊎◌, inl, inr, Bool, true, false, not, ◌&&◌, none, some,
  List, [], ◌∷◌, arith, ◌==◌, Bool-cases, Option-cases, is_blank, or_text, All,
}
use stepan.Domain.Stage.{is_manager, human_led}
use stepan.Domain.Lead.{Time, Lead}
use stepan.Domain.Thread.{ChannelThread}
use stepan.Leads.Consolidate.Rows.{
  OwnedRow, Tables, has_owner, distinct_owners, repoint, repoint_unique, drop_owned,
  distinct_owners-repoint_both, distinct_owners-repoint-drop_owned,
}
use stepan.Leads.Consolidate.Threads.{mem, ids}
use stepan.Leads.Consolidate.{
  Merge, move_tables, pick_survivor, silence_bot, absorb, merge_one, merge_all, merge_by_phone,
  sharing, retired,
}

repoint_unique_conflict :
    (from to : ℕ) (rows : List OwnedRow)
    → (from == to) ≡ false
    → has_owner from rows ≡ true
    → has_owner to rows ≡ true
    → repoint_unique from to rows ≡ none
unfolding repoint_unique
repoint_unique_conflict from to rows ne f t = rw (distinct_owners-repoint_both from to rows ne f t)

-- Where two distinct leads both have a row in need_lead_state, whose key is the lead, absorbing
-- one in the other raises: the DELETE that protects crm_lead_state has no counterpart there.
pub absorb_conflict :
    (survivor absorbed : Lead) (threads : List ChannelThread) (tables : Tables) (now : Time)
    → survivor.id ≢ absorbed.id
    → has_owner survivor.id tables.need_lead_state ≡ true
    → has_owner absorbed.id tables.need_lead_state ≡ true
    → absorb survivor absorbed threads tables now ≡ none
unfolding absorb move_tables
absorb_conflict survivor absorbed threads tables now ne s a =
    let other : (absorbed.id == survivor.id) ≡ false = ground (arith, ne) in
    let conflict =
      repoint_unique_conflict absorbed.id survivor.id tables.need_lead_state other a s in
    ground (arith, conflict, ne)

-- Where no lead owns two rows of a table, the UPDATE of its owner from one lead to another, with
-- the DELETE of _absorb in front, never meets the unique key.
pub crm_lead_state_moves :
    (from to : ℕ) (rows : List OwnedRow)
    → distinct_owners rows ≡ true
    → repoint_unique from to (drop_owned from to rows)
      ≡ some (repoint from to (drop_owned from to rows))
unfolding repoint_unique
crm_lead_state_moves from to rows d = rw (distinct_owners-repoint-drop_owned from to rows d)

-- A row that a merge has retired: its bot is off, and it names one of the rows in `heirs`.
abbrev pub IsRetired : (heirs : List ℕ) → Lead → Type 0
IsRetired heirs l =
    (heir : ℕ) × (l.is_merged_into ≡ some heir)
    × (mem heir heirs ≡ true)
    × (l.agent_enabled ≡ false)

-- Every retired row, the last first, names the survivor or a row that was retired after it: so its
-- chain ends at the survivor.
abbrev pub AllRetired : (heirs : List ℕ) → List Lead → Type 0
AllRetired heirs [] = Unit
AllRetired heirs (l ∷ ls) = IsRetired heirs l × AllRetired (l.id ∷ heirs) ls

-- The survivor stands: it is merged into nobody, and a human leads it.
abbrev pub IsStanding : Lead → Type 0
IsStanding l = (l.is_merged_into ≡ none) × (human_led l.stage ≡ true)

Covers : List ℕ → List ℕ → Type 0
Covers ms ns = (x : ℕ) → mem x ms ≡ true → mem x ns ≡ true

Covers-cons : (n : ℕ) (ms ns : List ℕ) → Covers ms ns → Covers (n ∷ ms) (n ∷ ns)
unfolding Covers mem
Covers-cons n ms ns h x m = elim (Bool-cases (x == n)) [
  | inl hit ↦ rw hit refl
  | inr miss ↦ let on = h x (rw miss at m) in rw (miss, on) refl
]

AllRetired-Covers :
    (ms ns : List ℕ) (ls : List Lead) → Covers ms ns → AllRetired ms ls → AllRetired ns ls
AllRetired-Covers ms ns [] h r = tt
AllRetired-Covers ms ns (l ∷ ls) h ((heir, names, known, off), rs) = (
  (heir, names, unfold Covers in h heir known, off),
  AllRetired-Covers (l.id ∷ ms) (l.id ∷ ns) ls (Covers-cons l.id ms ns h) rs,
)

abbrev pub distinct_ids : List ℕ → Bool
distinct_ids [] = true
distinct_ids (n ∷ ns) = not (mem n ns) && distinct_ids ns

-- What one round leaves: one of the two leads stands, the other is retired and names it.
record Round (m : Merge) (o : Lead) (n : Merge) : Type 0 where
  pub gone : Lead
  pub stands : IsStanding n.survivor
  pub grown : n.retired_leads ≡ gone ∷ m.retired_leads
  pub names : gone.is_merged_into ≡ some n.survivor.id
  pub off : gone.agent_enabled ≡ false
  pub roles :
      ((n.survivor.id ≡ m.survivor.id) × (gone.id ≡ o.id))
      ⊎ ((n.survivor.id ≡ o.id) × (gone.id ≡ m.survivor.id))

merge_one-Round :
    (m : Merge) (o : Lead) (now : Time) (n : Merge)
    → (m.survivor.id == o.id) ≡ false
    → m.survivor.is_merged_into ≡ none
    → o.is_merged_into ≡ none
    → merge_one m o now ≡ some n
    → Round m o n
unfolding merge_one pick_survivor absorb silence_bot
merge_one-Round m o now n ne u v e = elim (Bool-cases (is_manager m.survivor.stage)) [
  | inl folded ↦ record {
    gone = retired o m.survivor;
    stands = (ground arith, ground arith);
    grown = ground arith;
    names = ground arith;
    off = refl;
    roles = inr (ground arith, refl);
  }
  | inr kept ↦ record {
    gone = retired m.survivor o;
    stands = (ground arith, ground arith);
    grown = ground arith;
    names = ground arith;
    off = refl;
    roles = inl (ground arith, refl);
  }
]

distinct_ids_step :
    (s a b : ℕ) (ns : List ℕ)
    → (s ≡ a) ⊎ (s ≡ b)
    → distinct_ids (a ∷ b ∷ ns) ≡ true
    → distinct_ids (s ∷ ns) ≡ true
unfolding mem
distinct_ids_step s a b ns h d = ground arith

-- How often an id occurs.
abbrev pub tally : ℕ → List ℕ → ℕ
tally x ns = count_if (λ n. n == x) ns

-- The survivor and the retired rows are those before and the leads of the loop, each as often.
abbrev pub SamePeople : Merge → List Lead → Merge → Type 0
SamePeople m os n =
    (x : ℕ)
    → tally x (n.survivor.id ∷ ids n.retired_leads)
      ≡ tally x (m.survivor.id ∷ ids os) + tally x (ids m.retired_leads)

-- What holds of the loop once a round has been made.
abbrev Done : Merge → List Lead → Merge → Type 0
Done m os n =
    IsStanding n.survivor × AllRetired (n.survivor.id ∷ []) n.retired_leads × SamePeople m os n

Round-AllRetired :
    (m : Merge) (o : Lead) (k : Merge)
    → Round m o k
    → AllRetired (m.survivor.id ∷ []) m.retired_leads
    → AllRetired (k.survivor.id ∷ []) k.retired_leads
unfolding mem Covers
Round-AllRetired m o k round r =
    let roles = round.roles in
    let heirs : Covers (m.survivor.id ∷ []) (round.gone.id ∷ k.survivor.id ∷ []) =
      λ x h. ground (arith, h, roles) in
    rw round.grown (
      (k.survivor.id, round.names, ground arith, round.off),
      AllRetired-Covers (m.survivor.id ∷ []) (round.gone.id ∷ k.survivor.id ∷ []) m.retired_leads
          heirs r,
    )

Round-SamePeople :
    (m : Merge) (o : Lead) (os : List Lead) (k n : Merge)
    → Round m o k
    → SamePeople k os n
    → SamePeople m (o ∷ os) n
Round-SamePeople m o os k n round h x =
    let roles = round.roles in
    let rest : tally x (n.survivor.id ∷ ids n.retired_leads)
        ≡ tally x (k.survivor.id ∷ ids os) + tally x (round.gone.id ∷ ids m.retired_leads) =
      rw round.grown at h x in
    ground (arith, rest, roles)

merge_all-Done :
    (m : Merge) (os : List Lead) (now : Time) (n : Merge)
    → distinct_ids (m.survivor.id ∷ ids os) ≡ true
    → IsStanding m.survivor
    → All (λ l. l.is_merged_into ≡ none) os
    → AllRetired (m.survivor.id ∷ []) m.retired_leads
    → merge_all m os now ≡ some n
    → Done m os n
unfolding merge_all
merge_all-Done m [] now n d st u r e =
    let same : m ≡ n = ground (arith, e) in rw (sym same) (st, r, λ x. ground arith)
merge_all-Done m (o ∷ os) now n d st u r e = elim (Option-cases (merge_one m o now)) [
  | inl failed ↦ absurd (cc failed)
  | inr (k, done) ↦
      let round = merge_one-Round m o now k (unfold mem in ground arith) st.0 u.0 done in
      let ends : (k.survivor.id ≡ m.survivor.id) ⊎ (k.survivor.id ≡ o.id) = elim round.roles [
        | inl (e, g) ↦ inl e
        | inr (e, g) ↦ inr e
      ] in
      let next =
        merge_all-Done k os now n
          (distinct_ids_step k.survivor.id m.survivor.id o.id (ids os) ends d) round.stands u.1
          (Round-AllRetired m o k round r) (rw done at e) in
      (next.0, next.1, Round-SamePeople m o os k n round next.2)
]

-- A merge that succeeds, of two or more distinct leads of which none was merged before, ends
-- with one survivor that is merged into nobody and that a human leads; it retires the others and
-- only them, each once, with its bot off and naming the survivor or a row retired after it, so
-- that every chain of merges ends at the survivor, as those retired before must.
pub merge_all-IsStanding :
    (m : Merge) (o : Lead) (os : List Lead) (now : Time) (n : Merge)
    → distinct_ids (m.survivor.id ∷ ids (o ∷ os)) ≡ true
    → All (λ l. l.is_merged_into ≡ none) (m.survivor ∷ o ∷ os)
    → AllRetired (m.survivor.id ∷ []) m.retired_leads
    → merge_all m (o ∷ os) now ≡ some n
    → IsStanding n.survivor
      × AllRetired (n.survivor.id ∷ []) n.retired_leads
      × SamePeople m (o ∷ os) n
unfolding merge_all
merge_all-IsStanding m o os now n d u r e = elim (Option-cases (merge_one m o now)) [
  | inl failed ↦ absurd (cc failed)
  | inr (k, done) ↦
      let round = merge_one-Round m o now k (unfold mem in ground arith) u.0 u.1.0 done in
      let ends : (k.survivor.id ≡ m.survivor.id) ⊎ (k.survivor.id ≡ o.id) = elim round.roles [
        | inl (e, g) ↦ inl e
        | inr (e, g) ↦ inr e
      ] in
      let next =
        merge_all-Done k os now n
          (distinct_ids_step k.survivor.id m.survivor.id o.id (ids os) ends d) round.stands u.1.1
          (Round-AllRetired m o k round r) (rw done at e) in
      (next.0, next.1, Round-SamePeople m o os k n round next.2)
]

-- The query of merge_by_phone does not leave merged leads out. Where a lead in the manager
-- stage meets a lead that was merged into it before and has the same phone, the retired one is
-- taken for the survivor: the two end merged into one another, and neither stands.
pub merge_by_phone_cycle :
    (lead other : Lead) (leads : List Lead) (threads : List ChannelThread) (tables : Tables)
    (now : Time) (m : Merge)
    → is_blank lead.phone_e164 ≡ false
    → is_manager lead.stage ≡ true
    → is_manager other.stage ≡ false
    → lead.id ≢ other.id
    → other.is_merged_into ≡ some lead.id
    → sharing lead (or_text lead.phone_e164 "") leads ≡ other ∷ []
    → merge_by_phone lead leads threads tables now ≡ some (some m)
    → (m.survivor.id ≡ other.id)
      × (m.survivor.is_merged_into ≡ some lead.id)
      × (m.retired_leads ≡ retired other lead ∷ [])
unfolding merge_by_phone merge_all merge_one pick_survivor absorb silence_bot
merge_by_phone_cycle lead other leads threads tables now m p a b ne r q e =
    (ground (arith, ne), ground (arith, ne), ground (arith, ne))
