-- ===== src/RootGrants.antt =====
-- service/rootgrants.go: the table of the roots that a search may use.
--
-- The table is the list of its rows. A statement may fail, whatever it asks for: `faults` says of
-- each statement to come whether it does; a failed statement changes nothing. The Boolean of a
-- result is true where no error comes back.
pub mod Rows
pub mod Reconciling
pub mod Examples
use nimo_os.Base.{
  ℕ, Bool, true, false, not, ◌&&◌, List, [], ◌∷◌, ◌++◌, map, Option, none, some, first, select,
  if◌then◌else◌,
}
use nimo_os.Text.{Text, eqb, elem, text}

pub record RootGrant : Type 0 where
  pub root_id : Text
  pub path : Text
  pub enabled : Bool
  pub source : Text
  pub updated_at : ℕ

pub record Store : Type 0 where
  pub rows : List RootGrant
  pub faults : List Bool

abbrev pub Update : Type 0
Update = Store → Bool × Store

abbrev run_statement :
    Bool → List Bool → (List RootGrant → List RootGrant) → List RootGrant → Bool × Store
run_statement true fs f rows = (false, record { rows = rows; faults = fs })
run_statement false fs f rows = (true, record { rows = f rows; faults = fs })

abbrev pub statement_on :
    List Bool → (List RootGrant → List RootGrant) → List RootGrant → Bool × Store
statement_on [] f rows = run_statement false [] f rows
statement_on (fault ∷ fs) f rows = run_statement fault fs f rows

abbrev pub statement : (List RootGrant → List RootGrant) → Update
statement f s = statement_on s.faults f s.rows

abbrev pub continue : Bool → Update → Update
continue true next s = next s
continue false next s = (false, s)

-- if err := first(); err != nil { return err }; return next()
abbrev pub and_then : Update → Update → Update
and_then m next s = let (r, s') = m s in continue r next s'

abbrev pub commit_or_roll_back : List RootGrant → Bool → Store → Bool × Store
commit_or_roll_back before true s = (true, s)
commit_or_roll_back before false s = (false, record s { rows = before })

abbrev pub transaction : Update → Update
transaction body s = let (r, s') = body s in commit_or_roll_back s.rows r s'

abbrev pub find_row : Text → List RootGrant → Option RootGrant
find_row id = first (λ r. eqb r.root_id id)

-- INSERT … ON CONFLICT (root_id) DO UPDATE of every other column.
unfoldable pub put_row : RootGrant → List RootGrant → List RootGrant
put_row row [] = row ∷ []
put_row row (r ∷ rs) = if eqb r.root_id row.root_id then row ∷ rs else r ∷ put_row row rs

unfoldable pub upsert : RootGrant → Update
upsert row = statement (put_row row)

unfoldable pub upsert_grant : Text → Text → Bool → Text → ℕ → Update
upsert_grant root_id path enabled source now = upsert (record {
  root_id = root_id;
  path = path;
  enabled = enabled;
  source = source;
  updated_at = now;
})

unfoldable pub delete_grant : Text → Update
delete_grant root_id = statement (select λ r. not (eqb r.root_id root_id))

abbrev pub wiki : Text
wiki = text "wiki"

-- source = "wiki" AND root_id NOT IN ?
abbrev pub is_stale : List Text → RootGrant → Bool
is_stale ids r = eqb r.source wiki && not (elem r.root_id ids)

unfoldable pub delete_stale : List Text → List RootGrant → List RootGrant
delete_stale [] rows = select (λ r. not (eqb r.source wiki)) rows
delete_stale (id ∷ ids) rows = select (λ r. not (is_stale (id ∷ ids) r)) rows

abbrev pub wiki_row : ℕ → RootGrant → RootGrant
wiki_row now g = record g { source = wiki; updated_at = now }

unfoldable pub upsert_each : ℕ → List RootGrant → Update
upsert_each now [] s = (true, s)
upsert_each now (g ∷ gs) s = and_then (upsert (wiki_row now g)) (upsert_each now gs) s

unfoldable pub reconcile_wiki : ℕ → List RootGrant → Update
reconcile_wiki now grants =
    transaction
      (and_then (statement (delete_stale (map (λ g. g.root_id) grants))) (upsert_each now grants))

unfoldable pub seed_virtual : Text → ℕ → Update
seed_virtual root_id now = upsert (record {
  root_id = root_id;
  path = [];
  enabled = true;
  source = text "virtual";
  updated_at = now;
})

abbrev ids_on : List Bool → List RootGrant → Option (List Text) × Store
ids_on [] rows = (
  some (map (λ r. r.root_id) (select (λ r. r.enabled) rows)),
  record { rows = rows; faults = [] },
)
ids_on (true ∷ fs) rows = (none, record { rows = rows; faults = fs })
ids_on (false ∷ fs) rows = (
  some (map (λ r. r.root_id) (select (λ r. r.enabled) rows)),
  record { rows = rows; faults = fs },
)

-- `none` for an error.
pub enabled_root_ids : Store → Option (List Text) × Store
enabled_root_ids s = ids_on s.faults s.rows
