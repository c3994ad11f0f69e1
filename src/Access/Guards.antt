-- ===== src/Access/Guards.antt =====
-- The checks of route/v1/file.go before a path is renamed, moved, copied or deleted. The access of
-- the user to a path is an argument, a Boolean of the path.
use nimo_os.Base.{
  Bool, true, false, not, ◌&&◌, ◌||◌, List, [], ◌∷◌, ◌++◌, Option, first, if◌then◌else◌,
}
use nimo_os.Text.{Text, eqb, is_empty, has_prefix, split, text, elem}
use nimo_os.FilePath.{slash, base, clean, join_path}

abbrev pub protected : List Text
protected =
    text "AppData" ∷ text "Documents" ∷ text "Downloads" ∷ text "Gallery" ∷ text "Media" ∷ []

unfoldable pub is_protected_name : Text → Bool
unfolding elem
is_protected_name name = elem name protected

unfoldable pub contains_protected_name : Text → Option Text
unfolding is_protected_name split
contains_protected_name path = first is_protected_name (split slash path)

-- service.PathConfig, as ResolveActivePaths returns it.
pub record PathConfig : Type 0 where
  pub app_data : Text
  pub images : Text
  pub user_data : Text

unfoldable pub system_paths : PathConfig → List Text
system_paths cfg =
    cfg.app_data
    ∷ cfg.images
    ∷ join_path cfg.user_data (text "Documents")
    ∷ join_path cfg.user_data (text "Downloads")
    ∷ join_path cfg.user_data (text "Gallery")
    ∷ join_path cfg.user_data (text "Media")
    ∷ []

-- The test on one system path, where the loop does not skip it.
abbrev pub is_strictly_above : Text → Text → Bool
is_strictly_above above sp =
    has_prefix (clean sp ++ slash ∷ []) (above ++ slash ∷ []) && not (eqb above (clean sp))

abbrev pub is_skipped : Text → Bool
is_skipped sp = is_empty sp || eqb sp (text "/")

unfoldable pub is_above_any : Text → List Text → Bool
is_above_any above [] = false
is_above_any above (sp ∷ sps) =
    if is_skipped sp
    then is_above_any above sps
    else if is_strictly_above above sp
    then true
    else is_above_any above sps

unfoldable pub is_ancestor_of_system_path : PathConfig → Text → Bool
unfolding is_above_any system_paths
is_ancestor_of_system_path cfg target_path = is_above_any (clean target_path) (system_paths cfg)

-- The answer of the checks.
pub data Verdict : Type 0 where
  passes forbidden invalid_params source_des_same : Verdict
  protected_name : Text → Verdict
  contains_system_path : Text → Verdict

module _ (access : Text → Bool) (cfg : PathConfig) where
  unfoldable pub check_sources : List Text → Verdict
  check_sources [] = passes
  check_sources (p ∷ ps) =
      if not (access p)
      then forbidden
      else if is_protected_name (base p)
      then protected_name (base p)
      else if is_ancestor_of_system_path cfg p
      then contains_system_path (base p)
      else check_sources ps

  -- The first loop of DeleteFile.
  unfoldable pub check_delete : List Text → Verdict
  unfolding check_sources
  check_delete [] = invalid_params
  check_delete (p ∷ ps) = check_sources (p ∷ ps)

  -- The checks of RenamePath before the test for a mount point.
  unfoldable pub check_rename : Text → Text → Verdict
  check_rename old new =
      if is_empty old || is_empty new
      then invalid_params
      else if is_protected_name (base old)
      then protected_name (base old)
      else if is_protected_name (base new)
      then protected_name (base new)
      else if not (access old)
      then forbidden
      else if not (access new)
      then forbidden
      else passes

  -- The checks of PostOperateFileOrDir up to the loop over the items.
  unfoldable pub check_operate : Text → List Text → Verdict
  unfolding check_sources
  check_operate to [] = invalid_params
  check_operate to (p ∷ ps) = if not (access to) then forbidden else check_sources (p ∷ ps)
