-- ===== src/Files/Examples.antt =====
-- The theorems on copies and on free names at concrete inputs, and tests.
use nimo_os.Base.{ℕ, ◌≡◌, refl, ◌⊎◌, true, false, [], ◌∷◌, ◌++◌, some, arith}
use nimo_os.Text.{Text, eqb, elem, text, split}
use nimo_os.FilePath.{clean, segments, push_segments, push_segment, render, join_path}
use nimo_os.Files.Memory.{Disk, memory}
use nimo_os.Files.Naming.{numbered, get_no_duplicate_file_name, itoa}
use nimo_os.Files.Naming.Candidates.{get_no_duplicate_file_name-total}

abbrev disk : Disk
disk = record {
  entry = λ p. some 1;
  paths = text "/d/a.tar" ∷ text "/d/a(1).tar" ∷ [];
  renames = [];
  no_cp = true;
  cancelled = false;
}

counts : itoa 2048 ≡ text "2048"
unfolding itoa
counts = refl

skips_taken :
    get_no_duplicate_file_name memory 10 (text "/d/a.tar") disk ≡ some (text "/d/a(2).tar")
unfolding get_no_duplicate_file_name elem join_path clean render segments
skips_taken = refl

get_no_duplicate_file_name-total_example :
    (p : Text) × (get_no_duplicate_file_name memory 3 (text "/d/a.tar") disk ≡ some p)
    × (memory.exists p disk ≡ false)
    × ((p ≡ text "/d/a.tar") ⊎ ((i : ℕ) × (p ≡ text "/d/" ++ numbered (text "a.tar") i)))
unfolding clean segments push_segments push_segment render split eqb
get_no_duplicate_file_name-total_example =
    get_no_duplicate_file_name-total (text "/d") (text "a.tar") (refl, refl, text "d", [], refl)
      ((refl, (refl, (refl, (refl, (refl, tt))))), refl, refl, refl) memory 3 disk.paths disk
      (λ p h. ground arith) (omega arith)
