-- ===== src/Files/Memory.antt =====
-- A file system in memory, with the laws of Files.IsLawful: an instance for the examples.
pub mod Lawful
use nimo_os.Base.{
  ℕ, ◌≡◌, refl, ap, ◌∙◌, sym, subst, Bool, true, false, not, ◌&&◌, ◌||◌, List, [], ◌∷◌, ◌++◌, map,
  Option, none, some, arith, any, select, All, Bool-cases, inl, inr, ◌==◌, if◌then◌else◌,
}
use nimo_os.Text.{Text, eqb, elem, is_empty, has_prefix, drop_prefix, text}
use nimo_os.Text.Laws.{eqb_refl, eqb→eq, drop_prefix-append}
use nimo_os.Maps.Laws.{elem-append}
use nimo_os.FilePath.{slash, dot, dotdot, covers}
use nimo_os.FilePath.Laws.{NoSlash, IsPlain, covers_self}
use nimo_os.FilePath.Joining.{covers-extend}
use nimo_os.Files.{FileSystem, IsLawful, IsBelow, RenameError, cross_device, other}

-- A node is a number, 0 for a directory; only what stands in `paths` is there. `renames` are the
-- outcomes of the renames to come, which succeed behind the end of the list, and `no_cp` lets the
-- subprocess cp fail.
pub record Disk : Type 0 where
  pub entry : Text → Option ℕ
  pub paths : List Text
  pub renames : List (Option RenameError)
  pub no_cp : Bool
  pub cancelled : Bool

abbrev pub disk_node : Text → Disk → Option ℕ
disk_node p w = if elem p w.paths then w.entry p else none

abbrev pub is_some {ℓ} : {A : Type ℓ} → Option A → Bool
is_some none = false
is_some (some a) = true

-- The world with new entries and with more paths.
abbrev pub with_entries : (Text → Option ℕ) → List Text → Disk → Disk
with_entries f extra w = record w { entry = f; paths = w.paths ++ extra }

abbrev pub rekey : Text → Text → List Text → List Text
rekey a b ps = map (λ k. b ++ drop_prefix k a) (select (covers a) ps)

abbrev pub copied_entry : Text → Text → Disk → Text → Option ℕ
copied_entry a b w q = if covers b q then disk_node (a ++ drop_prefix q b) w else disk_node q w

abbrev pub moved_entry : Text → Text → Disk → Text → Option ℕ
moved_entry a b w q =
    if covers b q
    then disk_node (a ++ drop_prefix q b) w
    else if covers a q
    then none
    else disk_node q w

unfoldable pub copy_tree : Text → Text → Disk → Disk
copy_tree a b w = with_entries (copied_entry a b w) (rekey a b w.paths) w

unfoldable pub move_tree : Text → Text → Disk → Disk
move_tree a b w = with_entries (moved_entry a b w) (rekey a b w.paths) w

abbrev pub removed_entry : Text → Disk → Text → Option ℕ
removed_entry p w q = if covers p q then none else disk_node q w

unfoldable pub remove_tree : Text → Disk → Disk
remove_tree p w = with_entries (removed_entry p w) [] w

abbrev pub or_dir : Option ℕ → Option ℕ
or_dir none = some 0
or_dir (some n) = some n

abbrev pub made_entry : Text → Disk → Text → Option ℕ
made_entry p w q = if eqb q p then or_dir (disk_node q w) else disk_node q w

unfoldable pub make_dir : Text → Disk → Disk
make_dir p w = with_entries (made_entry p w) (p ∷ []) w

unfoldable pub rename_by : Option RenameError → Text → Text → Disk → Disk × Option RenameError
unfolding move_tree
rename_by none a b w = (move_tree a b w, none)
rename_by (some e) a b w = (w, some e)

unfoldable pub rename_disk :
    List (Option RenameError) → Text → Text → Disk → Disk × Option RenameError
unfolding rename_by
rename_disk [] a b w = (move_tree a b w, none)
rename_disk (o ∷ os) a b w = rename_by o a b (record w { renames = os })

abbrev pub is_plain : Text → Bool
is_plain n =
    not (any (λ c. c == slash) n) && not (is_empty n) && not (eqb n dot) && not (eqb n dotdot)

abbrev pub is_dir_node : Option ℕ → Bool
is_dir_node none = false
is_dir_node (some n) = n == 0

abbrev pub is_dir? : Option ℕ → Option Bool
is_dir? none = none
is_dir? (some n) = some (n == 0)

unfoldable pub names_below : Text → Disk → List Text → List (Text × Bool)
names_below p w [] = []
names_below p w (k ∷ ks) =
    if has_prefix k (p ++ slash ∷ []) && is_plain (drop_prefix k (p ++ slash ∷ []))
    then (drop_prefix k (p ++ slash ∷ []), is_dir_node (disk_node k w)) ∷ names_below p w ks
    else names_below p w ks

abbrev pub absent_below : Text → Disk → Bool
absent_below p w = not (any (λ k. covers p k && is_some (disk_node k w)) w.paths)

unfoldable pub cp_disk : Text → Text → Disk → Disk × Bool
unfolding copy_tree
cp_disk a b w = if w.no_cp then (w, true) else (copy_tree a b w, false)

abbrev pub memory : FileSystem
memory = record {
  World = Disk;
  Node = ℕ;
  node = disk_node;
  ctx_err = λ w. w.cancelled;
  exists = λ p w. is_some (disk_node p w);
  not_exist = absent_below;
  stat_dir = λ p w. is_dir? (disk_node p w);
  size_of = disk_node;
  read_dir = λ p w. some (names_below p w w.paths);
  rename = λ a b w. rename_disk w.renames a b w;
  remove_all = λ p w. (remove_tree p w, false);
  mkdir_all = λ p w. (make_dir p w, false);
  cp_file = cp_disk;
  cp_dir = cp_disk;
  copy_bytes = λ a b w. (copy_tree a b w, false);
  purge_thumb = λ p w. w;
  interfere = λ p w. w;
  fresh = λ w. text "a1b2c3d4";
}
