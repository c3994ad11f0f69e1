-- ===== src/Shares/Examples.antt =====
-- The theorems on shares at concrete paths.
use nimo_os.Base.{◌≡◌, refl, false, not, ◌||◌, List, [], ◌∷◌, select}
use nimo_os.Text.{Text, text, eqb, trim_right}
use nimo_os.FilePath.{slash}
use nimo_os.Shares.{Share, or_root, delete_share_by_path}
use nimo_os.Shares.Scope.{has_prefix_fold, boundary, delete_share_by_path-select}

abbrev share_at : Text → Share
share_at path = record { id = 1; anonymous = false; path = path; name = text "a"; username = [] }

abbrev shares : List Share
shares = share_at (text "/DATA/a/x") ∷ share_at (text "/DATA/ab") ∷ share_at (text "/data/A/y") ∷ []

delete_share_by_path-select_example :
    delete_share_by_path (text "/DATA/a/") shares
    ≡ select
        (λ r. not (
          eqb r.path (or_root (trim_right slash (text "/DATA/a/")))
          || has_prefix_fold r.path (boundary (or_root (trim_right slash (text "/DATA/a/"))))))
        shares
delete_share_by_path-select_example = delete_share_by_path-select (text "/DATA/a/") shares

-- Only the sibling stays: the third path differs from the deleted one in its letters' case.
case_test :
    select
      (λ r. not (
        eqb r.path (or_root (trim_right slash (text "/DATA/a/")))
        || has_prefix_fold r.path (boundary (or_root (trim_right slash (text "/DATA/a/"))))))
      shares
    ≡ share_at (text "/DATA/ab") ∷ []
unfolding eqb has_prefix_fold boundary trim_right
case_test = refl
