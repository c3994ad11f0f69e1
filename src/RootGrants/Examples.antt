-- ===== src/RootGrants/Examples.antt =====
-- The theorems on the root grants at a table with a row of the wiki and a virtual one.
use nimo_os.Base.{◌≡◌, refl, true, false, List, [], ◌∷◌}
use nimo_os.Text.{text, eqb}
use nimo_os.RootGrants.{RootGrant, find_row, reconcile_wiki}
use nimo_os.RootGrants.Rows.{IsKeyed}
use nimo_os.RootGrants.Reconciling.{last_of, reconciled, reconcile_wiki-find_row}

abbrev old_root : RootGrant
old_root = record {
  root_id = text "r1";
  path = text "/DATA/a";
  enabled = true;
  source = text "wiki";
  updated_at = 5;
}

abbrev photos_root : RootGrant
photos_root = record {
  root_id = text "photos";
  path = [];
  enabled = true;
  source = text "virtual";
  updated_at = 5;
}

abbrev new_root : RootGrant
new_root = record {
  root_id = text "r2";
  path = text "/DATA/b";
  enabled = false;
  source = [];
  updated_at = 0;
}

abbrev sample_rows : List RootGrant
sample_rows = old_root ∷ photos_root ∷ []

sample_rows-IsKeyed : IsKeyed sample_rows
unfolding eqb
sample_rows-IsKeyed = (refl, (refl, tt))

reconcile_wiki-find_row_example :
    ((reconcile_wiki 9 (new_root ∷ []) (record { rows = sample_rows; faults = [] })).0 ≡ true)
    × (find_row
          (text "r1")
          (reconcile_wiki 9 (new_root ∷ []) (record { rows = sample_rows; faults = [] })).1.rows
        ≡ reconciled 9 (last_of (text "r1") (new_root ∷ [])) (find_row (text "r1") sample_rows))
reconcile_wiki-find_row_example =
    reconcile_wiki-find_row 9 (new_root ∷ []) sample_rows (text "r1") sample_rows-IsKeyed
