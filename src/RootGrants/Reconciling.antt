-- ===== src/RootGrants/Reconciling.antt =====
-- What ReconcileWiki leaves of each row, and that every operation keeps the primary key.
use nimo_os.Base.{
  ℕ, ◌≡◌, refl, Bool, true, false, not, ◌||◌, List, [], ◌∷◌, map, Option, none, some, arith,
  if◌then◌else◌,
}
use nimo_os.Text.{Text, eqb, elem}
use nimo_os.Text.Laws.{eqb_iff}
use nimo_os.RootGrants.{
  RootGrant, Store, find_row, put_row, wiki, is_stale, delete_stale, wiki_row, upsert, upsert_each,
  reconcile_wiki, commit_or_roll_back, and_then, statement,
}
use nimo_os.RootGrants.Rows.{IsKeyed, find_row-put_row, keep_row, find_row-select}

abbrev pub or_this : Text → RootGrant → Option RootGrant → Option RootGrant
or_this id g none = if eqb g.root_id id then some g else none
or_this id g (some h) = some h

-- The last grant of a list with an id.
abbrev pub last_of : Text → List RootGrant → Option RootGrant
last_of id [] = none
last_of id (g ∷ gs) = or_this id g (last_of id gs)

-- The row of a root after the reconciliation, from the row before it: that of the last grant of the
-- list with this id; without one, a wiki row goes and any other stays.
abbrev pub reconciled : ℕ → Option RootGrant → Option RootGrant → Option RootGrant
reconciled now (some g) before = some (wiki_row now g)
reconciled now none none = none
reconciled now none (some r) = if eqb r.source wiki then none else some r

abbrev ids : List RootGrant → List Text
ids grants = map (λ g. g.root_id) grants

abbrev put_each : ℕ → List RootGrant → List RootGrant → List RootGrant
put_each now [] rows = rows
put_each now (g ∷ gs) rows = put_each now gs (put_row (wiki_row now g) rows)

upsert_each-eq :
    (now : ℕ) (gs rows : List RootGrant)
    → upsert_each now gs (record { rows = rows; faults = [] })
      ≡ (true, record { rows = put_each now gs rows; faults = [] })
unfolding upsert_each upsert
upsert_each-eq now [] rows = refl
upsert_each-eq now (g ∷ gs) rows = upsert_each-eq now gs (put_row (wiki_row now g) rows)

abbrev is_some : Option RootGrant → Bool
is_some none = false
is_some (some g) = true

abbrev overwritten : ℕ → Option RootGrant → Option RootGrant → Option RootGrant
overwritten now none before = before
overwritten now (some g) before = some (wiki_row now g)

elem-ids : (id : Text) (gs : List RootGrant) → elem id (ids gs) ≡ is_some (last_of id gs)
unfolding elem
elem-ids id [] = refl
elem-ids id (g ∷ gs) = joined (last_of id gs) (elem-ids id gs)
  where
    joined :
        (o : Option RootGrant)
        → elem id (ids gs) ≡ is_some o
        → (eqb g.root_id id || elem id (ids gs)) ≡ is_some (or_this id g o)
    joined none e = ground arith
    joined (some h) e = ground arith

find_row-put_each :
    (now : ℕ) (id : Text) (gs rows : List RootGrant)
    → find_row id (put_each now gs rows) ≡ overwritten now (last_of id gs) (find_row id rows)
find_row-put_each now id [] rows = refl
find_row-put_each now id (g ∷ gs) rows =
    rw
      (
        find_row-put_each now id gs (put_row (wiki_row now g) rows),
        find_row-put_row id (wiki_row now g) rows,
      )
      (joined (last_of id gs))
  where
    joined :
        (o : Option RootGrant)
        → overwritten now o (if eqb g.root_id id then some (wiki_row now g) else find_row id rows)
          ≡ overwritten now (or_this id g o) (find_row id rows)
    joined none = ground arith
    joined (some h) = refl

find_row-id :
    (id : Text) (rows : List RootGrant) (r : RootGrant)
    → find_row id rows ≡ some r
    → eqb r.root_id id ≡ true
find_row-id id [] r e = cc e
find_row-id id (x ∷ xs) r e = ground (arith, find_row-id id xs r)

find_row-delete_stale :
    (id : Text) (ids : List Text) (rows : List RootGrant)
    → IsKeyed rows
    → find_row id (delete_stale ids rows) ≡ keep_row (λ r. not (is_stale ids r)) (find_row id rows)
unfolding delete_stale elem
find_row-delete_stale id [] rows h =
    rw (find_row-select id (λ r. not (eqb r.source wiki)) rows h) (same (find_row id rows))
  where
    same :
        (o : Option RootGrant)
        → keep_row (λ r. not (eqb r.source wiki)) o ≡ keep_row (λ r. not (is_stale [] r)) o
    same none = refl
    same (some r) = ground arith
find_row-delete_stale id (i ∷ is) rows h =
    find_row-select id (λ r. not (is_stale (i ∷ is) r)) rows h

settle :
    (now : ℕ) (id : Text) (gs rows : List RootGrant) (o before : Option RootGrant)
    → last_of id gs ≡ o
    → find_row id rows ≡ before
    → overwritten now o (keep_row (λ r. not (is_stale (ids gs) r)) before) ≡ reconciled now o before
settle now id gs rows (some g) none e f = refl
settle now id gs rows (some g) (some r) e f = refl
settle now id gs rows none none e f = refl
settle now id gs rows none (some r) e f =
    ground (arith, find_row-id id rows r f, eqb_iff r.root_id id, elem-ids id gs, e)

-- From rows with distinct ids, ReconcileWiki of any list succeeds when no statement fails, and then
-- the row of each id is the wiki row of the last grant of the list with this id; an id that is not
-- in the list has no wiki row any more and keeps a row of another source.
pub reconcile_wiki-find_row :
    (now : ℕ) (grants rows : List RootGrant) (id : Text)
    → IsKeyed rows
    → ((reconcile_wiki now grants (record { rows = rows; faults = [] })).0 ≡ true)
      × (find_row id (reconcile_wiki now grants (record { rows = rows; faults = [] })).1.rows
          ≡ reconciled now (last_of id grants) (find_row id rows))
unfolding reconcile_wiki
reconcile_wiki-find_row now grants rows id h =
    rw (upsert_each-eq now grants (delete_stale (ids grants) rows)) (
      refl,
      rw
          (
            find_row-put_each now id grants (delete_stale (ids grants) rows),
            find_row-delete_stale id (ids grants) rows h,
          )
          (settle now id grants rows (last_of id grants) (find_row id rows) refl refl),
    )

-- A ReconcileWiki that comes back with an error, whichever of its statements failed, leaves every
-- row as it was.
pub reconcile_wiki-rows :
    (now : ℕ) (grants : List RootGrant) (s : Store)
    → (reconcile_wiki now grants s).0 ≡ false
    → (reconcile_wiki now grants s).1.rows ≡ s.rows
unfolding reconcile_wiki
reconcile_wiki-rows now grants s h =
    rolled_back (and_then (statement (delete_stale (ids grants))) (upsert_each now grants) s).0
      (and_then (statement (delete_stale (ids grants))) (upsert_each now grants) s).1 h
  where
    rolled_back :
        (r : Bool) (s' : Store)
        → (commit_or_roll_back s.rows r s').0 ≡ false
        → (commit_or_roll_back s.rows r s').1.rows ≡ s.rows
    rolled_back true s' h = ground arith
    rolled_back false s' h = refl
