-- ===== src/Leads/Consolidate/Rows.antt =====
-- The tables whose rows describe a person, and the two statements that consolidate.py runs on
-- each of them. Unique keys are those of app/adapters/db/models.py.
use stepan.Prelude.{
  ℕ, String, ◌≡◌, refl, Bool, true, false, not, ◌&&◌, ◌||◌, Option, none, some, List, [], ◌∷◌,
  arith, ◌==◌, if◌then◌else◌, str_eq,
}

-- A row with its owner; `content` stands for its other columns.
pub record OwnedRow : Type 0 where
  pub lead_id : ℕ
  pub content : ℕ

-- LeadNeedTag: its primary key is (lead_id, kind, entity_id).
pub record NeedTag : Type 0 where
  pub lead_id : ℕ
  pub kind : String
  pub entity_id : ℕ

-- `_FOLLOWS_THE_PERSON`
pub record Tables : Type 0 where
  pub crm_lead_state : List OwnedRow
  pub stage_event : List OwnedRow
  pub manager_alert : List OwnedRow
  pub lead_need_tag : List NeedTag
  pub need_lead_state : List OwnedRow

-- UPDATE ... SET lead_id = :to WHERE lead_id = :from
unfoldable pub repoint : (from to : ℕ) → List OwnedRow → List OwnedRow
repoint from to [] = []
repoint from to (r ∷ rs) =
    (if r.lead_id == from then record r { lead_id = to } else r) ∷ repoint from to rs

unfoldable pub repoint_tags : (from to : ℕ) → List NeedTag → List NeedTag
repoint_tags from to [] = []
repoint_tags from to (r ∷ rs) =
    (if r.lead_id == from then record r { lead_id = to } else r) ∷ repoint_tags from to rs

-- EXISTS (SELECT 1 FROM t WHERE lead_id = :id)
unfoldable pub has_owner : ℕ → List OwnedRow → Bool
has_owner id [] = false
has_owner id (r ∷ rs) = r.lead_id == id || has_owner id rs

-- A table whose rows are unique by lead_id.
unfoldable pub distinct_owners : List OwnedRow → Bool
unfolding has_owner
distinct_owners [] = true
distinct_owners (r ∷ rs) = not (has_owner r.lead_id rs) && distinct_owners rs

unfoldable pub has_tag : NeedTag → List NeedTag → Bool
has_tag t [] = false
has_tag t (r ∷ rs) =
    (r.lead_id == t.lead_id && str_eq r.kind t.kind && r.entity_id == t.entity_id) || has_tag t rs

unfoldable pub distinct_tags : List NeedTag → Bool
unfolding has_tag
distinct_tags [] = true
distinct_tags (r ∷ rs) = not (has_tag r rs) && distinct_tags rs

-- The UPDATE under the unique key: `none` is IntegrityError.
unfoldable pub repoint_unique : (from to : ℕ) → List OwnedRow → Option (List OwnedRow)
unfolding repoint distinct_owners
repoint_unique from to rows =
    let moved = repoint from to rows in if distinct_owners moved then some moved else none

unfoldable pub repoint_tags_unique : (from to : ℕ) → List NeedTag → Option (List NeedTag)
unfolding repoint_tags distinct_tags
repoint_tags_unique from to rows =
    let moved = repoint_tags from to rows in if distinct_tags moved then some moved else none

unfoldable pub without_owner : ℕ → List OwnedRow → List OwnedRow
without_owner id [] = []
without_owner id (r ∷ rs) =
    let rest = without_owner id rs in if r.lead_id == id then rest else r ∷ rest

-- DELETE ... WHERE lead_id = :from AND EXISTS (... WHERE lead_id = :to)
unfoldable pub drop_owned : (from to : ℕ) → List OwnedRow → List OwnedRow
unfolding has_owner without_owner
drop_owned from to rows = if has_owner to rows then without_owner from rows else rows

pub has_owner-repoint :
    (from to : ℕ) (rows : List OwnedRow)
    → has_owner to (repoint from to rows) ≡ (has_owner to rows || has_owner from rows)
unfolding has_owner repoint
has_owner-repoint from to [] = refl
has_owner-repoint from to (r ∷ rs) = ground (arith, has_owner-repoint from to rs)

-- Two owned rows that meet under one key break it.
pub distinct_owners-repoint_both :
    (from to : ℕ) (rows : List OwnedRow)
    → (from == to) ≡ false
    → has_owner from rows ≡ true
    → has_owner to rows ≡ true
    → distinct_owners (repoint from to rows) ≡ false
unfolding has_owner repoint distinct_owners
distinct_owners-repoint_both from to [] ne f t = cc
distinct_owners-repoint_both from to (r ∷ rs) ne f t =
    ground (arith, has_owner-repoint from to rs, distinct_owners-repoint_both from to rs)

has_owner-repoint_other :
    (from to other : ℕ) (rows : List OwnedRow)
    → (other == from) ≡ false
    → (other == to) ≡ false
    → has_owner other (repoint from to rows) ≡ has_owner other rows
unfolding has_owner repoint
has_owner-repoint_other from to other [] f t = refl
has_owner-repoint_other from to other (r ∷ rs) f t =
    ground (arith, has_owner-repoint_other from to other rs f t)

pub distinct_owners-repoint :
    (from to : ℕ) (rows : List OwnedRow)
    → has_owner to rows ≡ false
    → distinct_owners rows ≡ true
    → distinct_owners (repoint from to rows) ≡ true
unfolding has_owner repoint distinct_owners
distinct_owners-repoint from to [] t d = refl
distinct_owners-repoint from to (r ∷ rs) t d = ground (
  arith,
  has_owner-repoint from to rs,
  has_owner-repoint_other from to r.lead_id rs,
  distinct_owners-repoint from to rs,
)

has_owner-without_owner :
    (id other : ℕ) (rows : List OwnedRow)
    → has_owner other rows ≡ false
    → has_owner other (without_owner id rows) ≡ false
unfolding has_owner without_owner
has_owner-without_owner id other [] h = refl
has_owner-without_owner id other (r ∷ rs) h = ground (arith, has_owner-without_owner id other rs)

distinct_owners-without_owner :
    (id : ℕ) (rows : List OwnedRow)
    → distinct_owners rows ≡ true
    → distinct_owners (without_owner id rows) ≡ true
unfolding without_owner distinct_owners
distinct_owners-without_owner id [] d = refl
distinct_owners-without_owner id (r ∷ rs) d =
    ground (arith, has_owner-without_owner id r.lead_id rs, distinct_owners-without_owner id rs)

repoint-without_owner :
    (from to : ℕ) (rows : List OwnedRow)
    → repoint from to (without_owner from rows) ≡ without_owner from rows
unfolding without_owner repoint
repoint-without_owner from to [] = refl
repoint-without_owner from to (r ∷ rs) = ground (arith, repoint-without_owner from to rs)

-- With the DELETE in front, the UPDATE never meets the unique key.
pub distinct_owners-repoint-drop_owned :
    (from to : ℕ) (rows : List OwnedRow)
    → distinct_owners rows ≡ true
    → distinct_owners (repoint from to (drop_owned from to rows)) ≡ true
unfolding drop_owned
distinct_owners-repoint-drop_owned from to rows d = ground (
  arith,
  repoint-without_owner from to rows,
  distinct_owners-without_owner from rows,
  distinct_owners-repoint from to rows,
)
