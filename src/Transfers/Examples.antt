-- ===== src/Transfers/Examples.antt =====
-- The theorems on the run of FileOperate at concrete inputs, and tests.
use nimo_os.Base.{ℕ, ◌≡◌, refl, Bool, false, List, [], ◌∷◌, Option, none, some, if◌then◌else◌}
use nimo_os.Text.{Text, eqb, elem, text, has_prefix, drop_prefix, split, trim_right}
use nimo_os.FilePath.{clean, segments, push_segments, push_segment, render, covers, base, join_path}
use nimo_os.Files.{RenameError, cross_device, other}
use nimo_os.Files.Naming.{get_no_duplicate_file_name}
use nimo_os.Files.Memory.{rename_disk, remove_tree, cp_disk, Disk, disk_node, memory}
use nimo_os.Files.Memory.Lawful.{memory-IsLawful}
use nimo_os.OpQueue.{FileItem, FileOperate, OpQueue, empty_queue, enqueue_op}
use nimo_os.Transfers.{op_dest_path, move_item, replace_conflict}
use nimo_os.Transfers.Items.{Run, ItemOutcome, operate_items, operate_item}
use nimo_os.Transfers.Moving.{IsSafe, move_item-IsSafe}
use nimo_os.Transfers.Kept.{operate_item-Holds}
use nimo_os.Transfers.Replacing.{Holds, or_else}
use nimo_os.Transfers.Keeping.{operate_items-Stays}
use nimo_os.Transfers.Targets.{IsItem}

abbrev node_at : Text → Option ℕ
node_at p = if eqb p (text "/d/a") then some 7 else if eqb p (text "/s/a") then some 5 else some 0

-- A file /s/a, another one /d/a, and their directories.
abbrev disk : List (Option RenameError) → Disk
disk os = record {
  entry = node_at;
  paths = text "/d" ∷ text "/s" ∷ text "/d/a" ∷ text "/s/a" ∷ [];
  renames = os;
  no_cp = false;
  cancelled = false;
}

abbrev item : FileItem
item = record {
  from = text "/s/a";
  finished = false;
  size = 5;
  processed_size = 0;
  parked_path = [];
}

abbrev task : Text → Text → FileOperate
task op style = record {
  op_type = op;
  item = item ∷ [];
  total_size = 5;
  processed_size = 0;
  to = text "/d";
  style = style;
  finished = false;
  cancelled = false;
}

own-IsItem : IsItem (text "/d") (text "/s/a")
unfolding clean segments push_segments push_segment render split eqb base trim_right
own-IsItem = record {
  place = (refl, refl, text "d", [], refl);
  named = ((refl, tt), refl, refl, refl);
}

operate_items-Stays_example :
    disk_node
      (text "/d/a")
      (operate_items memory 1000 10 (task (text "copy") (text "rename")) (item ∷ []) (disk [])).0
    ≡ some 7
unfolding eqb elem
operate_items-Stays_example =
    operate_items-Stays memory memory-IsLawful 1000 10 (task (text "copy") (text "rename")) refl
      (item ∷ []) (disk []) (own-IsItem, tt) (text "/d/a") 7 (λ m. cc m) refl

-- The move fails behind the rename aside, and the destination is put back.
abbrev overwritten : Disk × ItemOutcome
overwritten =
    operate_item memory 1000 10 (task (text "move") (text "overwrite")) item
      (disk (none ∷ some other ∷ []))

operate_item-Holds_example :
    Holds memory
      (op_dest_path (text "/s/a") (text "/d"))
      (disk (none ∷ some other ∷ []))
      (or_else overwritten.1.item.parked_path (op_dest_path (text "/s/a") (text "/d")))
      overwritten.0
unfolding operate_item nimo_os.Files.Memory.rename_disk nimo_os.Files.Memory.remove_tree eqb
    has_prefix covers op_dest_path base join_path clean segments render push_segments split
    trim_right elem
operate_item-Holds_example =
    operate_item-Holds memory memory-IsLawful 1000 10 (task (text "move") (text "overwrite")) refl
      item own-IsItem refl (disk (none ∷ some other ∷ [])) refl (λ m r b. refl) refl

move_item-IsSafe_example :
    IsSafe memory (text "/s/a") (text "/d/b") (disk (some cross_device ∷ [])) (
      move_item memory 10 (text "/s/a") (text "/d/b") (text "skip") (disk (some cross_device ∷ [])))
unfolding clean segments push_segments push_segment render split eqb
move_item-IsSafe_example =
    move_item-IsSafe memory memory-IsLawful 10 (text "/s/a") (text "/d/b") (text "skip")
      (disk (some cross_device ∷ [])) (refl, refl, text "d", text "b" ∷ [], refl)

-- A move with "overwrite" that succeeds.
overwrites :
    disk_node
      (text "/d/a")
      (operate_items memory 1000 10 (task (text "move") (text "overwrite")) (item ∷ []) (disk [])).0
    ≡ some 5
unfolding operate_items replace_conflict move_item op_dest_path elem covers join_path base clean
    render segments rename_disk remove_tree drop_prefix
overwrites = refl

-- A copy with "rename" to the first free name.
keeps_both :
    disk_node
      (text "/d/a(1)")
      (operate_items memory 1000 10 (task (text "copy") (text "rename")) (item ∷ []) (disk [])).0
    ≡ some 5
unfolding operate_items elem covers join_path base clean render segments get_no_duplicate_file_name
    cp_disk drop_prefix
keeps_both = refl

abbrev run : Bool → Run
run c = record { items = item ∷ []; created = []; moved = []; cancelled = c }

abbrev queue : OpQueue
queue =
    (enqueue_op (text "y") (task (text "copy") (text "rename"))
      (enqueue_op (text "x") (task (text "move") (text "skip")) empty_queue).0).0
