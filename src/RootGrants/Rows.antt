-- ===== src/RootGrants/Rows.antt =====
-- The row of a root after a statement.
use nimo_os.Base.{
  ◌≡◌, refl, Bool, false, List, [], ◌∷◌, Option, none, some, arith, any, select, Bool-cases, inl,
  inr, if◌then◌else◌,
}
use nimo_os.Text.{Text, eqb}
use nimo_os.Text.Laws.{eqb_iff, eqb→eq}
use nimo_os.RootGrants.{RootGrant, find_row, put_row}

-- The primary key: no two rows have one root_id.
abbrev pub IsKeyed : List RootGrant → Type 0
IsKeyed [] = Unit
IsKeyed (r ∷ rs) = (any (λ q. eqb q.root_id r.root_id) rs ≡ false) × IsKeyed rs

abbrev pub has_row : Text → List RootGrant → Bool
has_row id rows = any (λ q. eqb q.root_id id) rows

has_row-select :
    (id : Text) (p : RootGrant → Bool) (rows : List RootGrant)
    → has_row id rows ≡ false
    → has_row id (select p rows) ≡ false
has_row-select id p [] h = refl
has_row-select id p (r ∷ rs) h = ground (arith, has_row-select id p rs)

pub find_row-put_row :
    (id : Text) (row : RootGrant) (rows : List RootGrant)
    → find_row id (put_row row rows) ≡ (if eqb row.root_id id then some row else find_row id rows)
unfolding put_row
find_row-put_row id row [] = refl
find_row-put_row id row (r ∷ rs) = ground (
  arith,
  find_row-put_row id row rs,
  eqb_iff r.root_id row.root_id,
  eqb_iff row.root_id id,
  eqb_iff r.root_id id,
)

-- What a deletion of the rows that fail p leaves of the row of a root.
abbrev pub keep_row : (RootGrant → Bool) → Option RootGrant → Option RootGrant
keep_row p none = none
keep_row p (some r) = if p r then some r else none

find_row-absent :
    (id : Text) (rows : List RootGrant) → has_row id rows ≡ false → find_row id rows ≡ none
find_row-absent id [] h = refl
find_row-absent id (r ∷ rs) h = ground (arith, find_row-absent id rs)

pub find_row-select :
    (id : Text) (p : RootGrant → Bool) (rows : List RootGrant)
    → IsKeyed rows
    → find_row id (select p rows) ≡ keep_row p (find_row id rows)
find_row-select id p [] h = refl
find_row-select id p (r ∷ rs) h = elim (Bool-cases (eqb r.root_id id)) [
  | inl e ↦ elim (Bool-cases (p r)) [
    | inl q ↦ rw (e, q, e) refl
    | inr q ↦
        rw (e, q)
          (find_row-absent id (select p rs)
            (has_row-select id p rs (rw (eqb→eq r.root_id id e) at h.0)))
  ]
  | inr e ↦ elim (Bool-cases (p r)) [
    | inl q ↦ rw (e, q, e) (find_row-select id p rs h.1)
    | inr q ↦ rw (e, q) (find_row-select id p rs h.1)
  ]
]
