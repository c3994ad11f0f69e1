-- ===== src/Access/Disks.antt =====
-- parseSystemDiskPaths and aclDiskBase of pkg/utils/path_acl.go. A set is a list.
use nimo_os.Base.{
  ℕ, Bool, true, false, not, ◌&&◌, ◌||◌, List, [], ◌∷◌, ◌++◌, map, Option, none, some, ◌==◌, leb,
  if◌then◌else◌,
}
use nimo_os.Text.{Text, eqb, is_empty, has_prefix, drop_prefix, split, text}
use nimo_os.FilePath.{base, dir, join_path}

abbrev is_space : ℕ → Bool
is_space c = c == 32 || (leb 9 c && leb c 13)

abbrev fields_cons : ℕ → Bool → List Text → List Text
fields_cons c glue [] = (c ∷ []) ∷ []
fields_cons c true (f ∷ fs) = (c ∷ f) ∷ fs
fields_cons c false (f ∷ fs) = (c ∷ []) ∷ f ∷ fs

-- Whether a field goes on at the head of a text.
abbrev goes_on : Text → Bool
goes_on [] = false
goes_on (c ∷ s) = not (is_space c)

-- strings.Fields at the ASCII spaces.
unfoldable pub fields : Text → List Text
fields [] = []
fields (c ∷ s) = let rest = fields s in if is_space c then rest else fields_cons c (goes_on s) rest

abbrev is_digit : ℕ → Bool
is_digit c = leb 48 c && leb c 57

abbrev is_letter : ℕ → Bool
is_letter c = (leb 65 c && leb c 90) || (leb 97 c && leb c 122)

-- The longest prefix of bytes that pass a test, and what follows.
abbrev span : (ℕ → Bool) → Text → Text × Text
span p [] = ([], [])
span p (c ∷ s) = let (a, b) = span p s in if p c then (c ∷ a, b) else ([], c ∷ s)

-- The parts of the two regular expressions. A matcher has what the group took so far and the rest
-- of the name, and gives the group.
abbrev digits_then : (Text → Text → Option Text) → Text → Text → Option Text
digits_then k acc s = let (a, b) = span is_digit s in if is_empty a then none else k (acc ++ a) b

abbrev literal_then : Text → (Text → Text → Option Text) → Text → Text → Option Text
literal_then lit k acc s = if has_prefix s lit then k (acc ++ lit) (drop_prefix s lit) else none

-- \d+$
abbrev digits_end : Text → Text → Option Text
digits_end acc s =
    let (a, b) = span is_digit s in if is_empty a || not (is_empty b) then none else some acc

-- p\d+$
abbrev partition_end : Text → Text → Option Text
partition_end acc s =
    if has_prefix s (text "p") then digits_end acc (drop_prefix s (text "p")) else none

abbrev or_else : Option Text → Option Text → Option Text
or_else none o = o
or_else (some a) o = some a

-- ^(nvme\d+n\d+|mmcblk\d+)p\d+$
abbrev nvme_or_mmc : Text → Option Text
nvme_or_mmc s =
    or_else
      (literal_then (text "nvme")
        (digits_then (literal_then (text "n") (digits_then partition_end))) [] s)
      (literal_then (text "mmcblk") (digits_then partition_end) [] s)

-- ^([a-zA-Z]+)\d+$
abbrev letters_and_number : Text → Option Text
letters_and_number s = let (a, b) = span is_letter s in if is_empty a then none else digits_end a b

abbrev in_dir : Text → Option Text → Text
in_dir device none = device
in_dir device (some group) = join_path (dir device) group

unfoldable pub acl_disk_base : Text → Text
unfolding base dir has_prefix drop_prefix join_path
acl_disk_base device =
    in_dir device (or_else (nvme_or_mmc (base device)) (letters_and_number (base device)))

abbrev is_device : Text → Bool
is_device f = has_prefix f (text "/dev/")

-- The device at "/" of the first line that has one.
abbrev root_of_line : List Text → Option Text
root_of_line (dev ∷ (mount ∷ rest)) =
    if eqb mount (text "/") && is_device dev then some dev else none
root_of_line _ = none

abbrev root_device : List (List Text) → Option Text
root_device [] = none
root_device (f ∷ fs) = or_else (root_of_line f) (root_device fs)

abbrev mount_of_line : Text → List Text → List Text
mount_of_line disk (dev ∷ (mount ∷ rest)) =
    if not (is_device dev) then [] else if eqb (acl_disk_base dev) disk then mount ∷ [] else []
mount_of_line disk _ = []

abbrev mounts_of_disk : Text → List (List Text) → List Text
mounts_of_disk disk [] = []
mounts_of_disk disk (f ∷ fs) = mount_of_line disk f ++ mounts_of_disk disk fs

abbrev with_root : List (List Text) → Option Text → List Text
with_root lines none = text "/" ∷ []
with_root lines (some dev) = text "/" ∷ mounts_of_disk (acl_disk_base dev) lines

-- A blank line has no fields, so that strings.TrimSpace before the split makes no difference.
abbrev fields_of_lines : Text → List (List Text)
fields_of_lines raw = map fields (split 10 raw)

unfoldable pub parse_system_disk_paths : Option Text → List Text
parse_system_disk_paths none = text "/" ∷ []
parse_system_disk_paths (some raw) =
    with_root (fields_of_lines raw) (root_device (fields_of_lines raw))
