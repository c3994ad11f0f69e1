-- ===== src/Files/Naming.antt =====
-- Names that are still free: GetNoDuplicateFileName of pkg/utils/file/file.go and uniqueDestPath
-- of route/v2/tus_file.go.
--
-- The loops of the code have no bound. They take fuel here, and `none` means that it ran out;
-- Files.Naming.Free has that one more than the number of the existing paths is enough.
pub mod Free
pub mod Candidates
use nimo_os.Base.{
  ℕ, zero, suc, ◌+◌, ◌/◌, ◌%◌, Bool, true, false, ◌&&◌, List, [], ◌∷◌, ◌++◌, Option, none, some,
  not, ltb, ◌==◌, if◌then◌else◌,
}
use nimo_os.Text.{Text, is_empty, split}
use nimo_os.FilePath.{slash, base, dir, join_path, last_field, up_to_slash}
use nimo_os.Files.{FileSystem}

abbrev pub full_stop : ℕ
full_stop = b'.'

-- path.Ext and filepath.Ext of a name without a slash: from its last dot on.
unfoldable pub ext : Text → Text
ext [] = []
ext (c ∷ s) = let rest = ext s in if is_empty rest && (c == full_stop) then c ∷ s else rest

-- strings.TrimSuffix(name, ext)
unfoldable pub stem : Text → Text
unfolding ext
stem [] = []
stem (c ∷ s) = if is_empty (ext s) && (c == full_stop) then [] else c ∷ stem s

-- strconv.Itoa: the digits in front of those that are there already.
unfoldable pub digits : ℕ → ℕ → Text → Text
digits zero n out = out
digits (suc fuel) n out =
    let more = digits fuel (n / 10) ((48 + n % 10) ∷ out) in
    if ltb n 10 then (48 + n) ∷ out else more

unfoldable pub itoa : ℕ → Text
unfolding digits
itoa n = digits (suc n) n []

-- stem + "(" + i + ")" + ext
unfoldable pub numbered : Text → ℕ → Text
unfolding stem ext itoa
numbered name i = stem name ++ (b'(' ∷ (itoa i ++ (b')' ∷ ext name)))

-- for i := start; taken(i); i++ {}
unfoldable pub first_free : ℕ → (ℕ → Bool) → ℕ → Option ℕ
first_free zero taken i = none
first_free (suc fuel) taken i =
    let next = first_free fuel taken (suc i) in if taken i then next else some i

unfoldable pub name_at : (ℕ → Text) → Option ℕ → Option Text
name_at candidate none = none
name_at candidate (some i) = some (candidate i)

-- The candidates in the directory of a path: filepath.Split leaves the slash at its end.
unfoldable pub duplicate_name : Text → ℕ → Text
unfolding numbered split
duplicate_name full i = join_path (up_to_slash full) (numbered (last_field (split slash full)) i)

unfoldable pub unique_name : Text → ℕ → Text
unfolding numbered
unique_name dest i = join_path (dir dest) (numbered (base dest) i)

module _ (s : FileSystem) where
  open s use {World, exists, not_exist}

  unfoldable pub get_no_duplicate_file_name : ℕ → Text → World → Option Text
  unfolding first_free name_at duplicate_name
  get_no_duplicate_file_name fuel full w =
      if exists full w
      then name_at (duplicate_name full) (first_free fuel (λ i. exists (duplicate_name full i) w) 1)
      else some full

  unfoldable pub unique_dest_path : ℕ → Text → World → Option Text
  unfolding first_free name_at unique_name
  unique_dest_path fuel dest w =
      if not_exist dest w
      then some dest
      else name_at (unique_name dest)
          (first_free fuel (λ i. not (not_exist (unique_name dest i) w)) 1)
