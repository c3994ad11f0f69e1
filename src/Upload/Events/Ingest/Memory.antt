-- ===== src/Upload/Events/Ingest/Memory.antt =====
-- The file system of Files.Memory with the further calls of an ingest: an instance for the examples.
use nimo_os.Base.{ℕ, ◌≡◌, refl, ◌∙◌, false, [], ◌∷◌, Option, none, some, arith, if◌then◌else◌}
use nimo_os.Text.{Text, eqb, elem, text}
use nimo_os.Text.Laws.{eqb_refl}
use nimo_os.Maps.Laws.{elem-append}
use nimo_os.Files.Memory.{Disk, disk_node, with_entries, made_entry, make_dir, memory}
use nimo_os.Files.Memory.Lawful.{with_entries-old, memory-IsLawful}
use nimo_os.Upload.Events.Ingest.{UploadDisk, IsUploadLawful}

-- One entry takes another value.
abbrev with_node : Text → Option ℕ → Disk → Disk
with_node p o w = with_entries (λ q. if eqb q p then o else disk_node q w) (p ∷ []) w

with_node-other :
    (p : Text) (o : Option ℕ) (w : Disk) (q : Text)
    → eqb q p ≡ false
    → disk_node q (with_node p o w) ≡ disk_node q w
with_node-other p o w q h =
    with_entries-old (λ q. if eqb q p then o else disk_node q w) (p ∷ []) w q (rw h refl)

with_node-same : (p : Text) (o : Option ℕ) (w : Disk) → disk_node p (with_node p o w) ≡ o
unfolding elem
with_node-same p o w = ground (arith, elem-append p w.paths (p ∷ []), eqb_refl p)

make_dir-keeps :
    (p : Text) (w : Disk) (q : Text) (n : ℕ)
    → disk_node q w ≡ some n
    → disk_node q (make_dir p w) ≡ some n
unfolding make_dir
make_dir-keeps p w q n k =
    with_entries-old (made_entry p w) (p ∷ []) w q (made (disk_node q w) k) ∙ k
  where
    made : (o : Option ℕ) → o ≡ some n → (if eqb q p then nimo_os.Files.Memory.or_dir o else o) ≡ o
    made none e = cc e
    made (some m) e = ground arith

-- An empty file is the node 1.
abbrev pub upload_memory : UploadDisk
upload_memory = record {
  fs = memory;
  remove = λ p w. (with_node p none w, false);
  open_file = λ p w. (w, false);
  create_file = λ p w. (with_node p (some 1) w, false);
  io_copy = λ a b w. (with_node b (disk_node a w) w, false);
  close_file = λ p w. (w, false);
  describe = λ e. text "failed";
}

pub upload_memory-IsUploadLawful : IsUploadLawful upload_memory
upload_memory-IsUploadLawful = record {
  files = memory-IsLawful;
  mkdir_all_keeps = λ p w q n k. make_dir-keeps p w q n k;
  remove_outside = λ p w q h. with_node-other p none w q h;
  open_same = λ p w q. refl;
  create_outside = λ p w q h. with_node-other p (some 1) w q h;
  io_copy_outside = λ a b w q h. with_node-other b (disk_node a w) w q h;
  io_copy_copies = λ a b w h. with_node-same b (disk_node a w) w;
  close_same = λ p w q. refl;
}
