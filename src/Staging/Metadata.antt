-- ===== src/Staging/Metadata.antt =====
-- route/v2/tus_file.go: the checks of the metadata of an upload before it starts, and the check of
-- route/v2/precheck_file.go whether a file is there already.
--
-- Arguments: whether checkFileUploadQuota finds enough space, which it computes with floating-point
-- numbers from the free bytes of the filesystem; what os.Stat says of a path.
use nimo_os.Base.{
  ℕ, Bool, true, false, not, ◌&&◌, ◌||◌, [], ◌∷◌, ◌++◌, Option, none, some, any, leb, ◌==◌,
  if◌then◌else◌,
}
use nimo_os.Text.{Text, eqb, is_empty, has_prefix, contains, text}
use nimo_os.FilePath.{slash, clean, join_path}
use nimo_os.Access.Guards.{contains_protected_name}

-- strings.TrimSpace at the ASCII spaces.
abbrev is_space : ℕ → Bool
is_space c = c == 32 || (leb 9 c && leb c 13)

abbrev trim_left : Text → Text
trim_left [] = []
trim_left (c ∷ s) = if is_space c then trim_left s else c ∷ s

abbrev trim_end : Text → Text
trim_end [] = []
trim_end (c ∷ s) = let rest = trim_end s in if is_empty rest && is_space c then [] else c ∷ rest

unfoldable pub trim_space : Text → Text
trim_space s = trim_end (trim_left s)

-- The codes of the errors.
pub data Rejection : Type 0 where
  filename_required filename_illegal target_path_required protected_folder : Rejection
  path_traversal path_escape empty_file insufficient_storage : Rejection

-- The HTTP status of a rejection.
pub status_code : Rejection → ℕ
status_code filename_required = 400
status_code filename_illegal = 400
status_code target_path_required = 400
status_code protected_folder = 403
status_code path_traversal = 400
status_code path_escape = 400
status_code empty_file = 400
status_code insufficient_storage = 413

pub record Metadata : Type 0 where
  pub filename : Text
  pub target_path : Text
  pub relative_path : Text

abbrev is_found : Option Text → Bool
is_found none = false
is_found (some name) = true

-- relativePath contains ".." or is absolute.
abbrev pub is_traversal : Text → Bool
is_traversal rel = contains rel (text "..") || has_prefix rel (slash ∷ [])

-- The resolved path is neither the cleaned target nor below it.
unfoldable pub escapes : Text → Text → Bool
escapes clean_target final =
    not (has_prefix final (clean_target ++ slash ∷ [])) && not (eqb final clean_target)

-- `none` where the upload may start. A size that is not positive is 0.
unfoldable pub validate_file_upload_metadata : Metadata → ℕ → Bool → Option Rejection
validate_file_upload_metadata meta size enough =
    if is_empty (trim_space meta.filename)
    then some filename_required
    else if any (λ c. c == slash || c == b'\\') (trim_space meta.filename)
        || contains (trim_space meta.filename) (text "..")
    then some filename_illegal
    else if is_empty meta.target_path
    then some target_path_required
    else if is_found (contains_protected_name meta.relative_path)
    then some protected_folder
    else if is_traversal meta.relative_path
    then some path_traversal
    else if escapes (clean meta.target_path) (clean (join_path meta.target_path meta.relative_path))
    then some path_escape
    else if size == 0
    then some empty_file
    else if not enough
    then some insufficient_storage
    else none

-- What os.Stat says of a path that exists.
pub data FileKind : Type 0 where
  directory other : FileKind
  regular : ℕ → FileKind

pub record Precheck : Type 0 where
  pub exists : Bool
  pub size_match : Bool
  pub is_dir : Bool

stat_result : Option FileKind → ℕ → Precheck
stat_result none size = record { exists = false; size_match = false; is_dir = false }
stat_result (some directory) size = record { exists = true; size_match = false; is_dir = true }
stat_result (some other) size = record { exists = true; size_match = false; is_dir = false }
stat_result (some (regular n)) size = record {
  exists = true;
  size_match = n == size;
  is_dir = false;
}

pub stat_precheck : (Text → Option FileKind) → Text → Text → ℕ → Precheck
stat_precheck stat target_path relative_path size =
    if is_traversal relative_path
      || is_found (contains_protected_name relative_path)
      || escapes (clean target_path) (clean (join_path (clean target_path) relative_path))
    then record { exists = false; size_match = false; is_dir = false }
    else stat_result (stat (clean (join_path (clean target_path) relative_path))) size
