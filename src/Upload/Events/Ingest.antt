-- ===== src/Upload/Events/Ingest.antt =====
-- uniqueDestPath, ingestToTargetWithPolicy and copyFileV2 of route/v2/tus_file.go: a completed file
-- moves from the staging directory to its target.
--
-- The calls of os that Files.FileSystem lacks are added to it. A flag `true` behind a world is an
-- error. The loop of uniqueDestPath takes fuel; `none` is that it ran out.
pub mod Landing
pub mod Delivering
pub mod Keeping
pub mod Memory
pub mod Examples
use nimo_os.Base.{ℕ, ◌≡◌, Bool, true, false, ◌++◌, Option, none, some, if◌then◌else◌}
use nimo_os.Text.{Text, eqb, text}
use nimo_os.FilePath.{join_path, dir}
use nimo_os.Files.{FileSystem, IsLawful, RenameError}
use nimo_os.Files.Naming.{unique_dest_path}
use nimo_os.Upload.Events.{Ingested, ingest_failed, ingested}

pub data IngestError : Type 0 where
  mkdir_failed : IngestError
  move_failed : RenameError → IngestError

pub record UploadDisk : Type 1 where
  pub fs : FileSystem
  -- os.Remove, os.Open and os.Create, and io.Copy and Close of the files that these opened.
  pub remove : Text → fs.World → fs.World × Bool
  pub open_file : Text → fs.World → fs.World × Bool
  pub create_file : Text → fs.World → fs.World × Bool
  pub io_copy : Text → Text → fs.World → fs.World × Bool
  pub close_file : Text → fs.World → fs.World × Bool
  -- The text of an error.
  pub describe : IngestError → Text

-- The file beside a staged one that describes it.
abbrev pub info_of : Text → Text
info_of staged = staged ++ text ".info"

module _ (s : UploadDisk) where
  open s use {fs, remove, open_file, create_file, io_copy, close_file, describe}
  open fs use {World, node, exists, mkdir_all, rename, purge_thumb}

  unfoldable pub copy_file_v2 : Text → Text → World → World × Bool
  copy_file_v2 src dst w =
      let opened = open_file src w in
      let made = create_file dst opened.0 in
      let copied = io_copy src dst made.0 in
      let closed = close_file dst copied.0 in
      if opened.1
      then (opened.0, true)
      else if made.1
      then (made.0, true)
      else if copied.1
      then ((remove dst closed.0).0, true)
      else if closed.1
      then ((remove dst closed.0).0, true)
      else (closed.0, false)

  abbrev pub remove_info : Text → World → World
  remove_info staged w = (remove (info_of staged) w).0

  abbrev pub copied_or_failed : Text → Text → RenameError → World × Bool → World × Ingested
  copied_or_failed staged dest e (w, true) = (w, ingest_failed (describe (move_failed e)))
  copied_or_failed staged dest e (w, false) =
      (remove_info staged (remove staged w).0, ingested dest false)

  abbrev pub renamed_or_copied : Text → Text → World × Option RenameError → World × Ingested
  renamed_or_copied staged dest (w, none) = (remove_info staged w, ingested dest false)
  renamed_or_copied staged dest (w, some e) =
      copied_or_failed staged dest e (copy_file_v2 staged dest w)

  -- The move behind the switch.
  unfoldable pub place_file : Text → Text → World → World × Ingested
  unfolding copy_file_v2
  place_file staged dest w = renamed_or_copied staged dest (rename staged dest (purge_thumb dest w))

  abbrev pub place_at : Text → World → Option Text → Option (World × Ingested)
  place_at staged w none = none
  place_at staged w (some dest) = some (place_file staged dest w)

  -- The switch on the policy, with whether the target exists.
  unfoldable pub switch_policy : ℕ → Text → Text → Text → Bool → World → Option (World × Ingested)
  unfolding place_file unique_dest_path
  switch_policy fuel staged dest policy exists w =
      if eqb policy (text "skip")
      then (if exists
          then some (remove_info staged (remove staged w).0, ingested dest true)
          else some (place_file staged dest w))
      else if eqb policy (text "overwrite")
      then some (place_file staged dest w)
      else place_at staged w (if exists then unique_dest_path fs fuel dest w else some dest)

  unfoldable pub ingest_to_target_with_policy :
      ℕ → Text → Text → Text → Text → World → Option (World × Ingested)
  unfolding switch_policy
  ingest_to_target_with_policy fuel staged target_path relative_path policy w =
      let dest = join_path target_path relative_path in
      let made = mkdir_all (dir dest) w in
      if made.1
      then some (made.0, ingest_failed (describe mkdir_failed))
      else switch_policy fuel staged dest policy (exists dest made.0) made.0

  -- The documented behaviour of the calls. While an upload moves, no other program changes its
  -- source, its target and what is beside them.
  pub record IsUploadLawful : Type 0 where
    pub files : IsLawful fs
    pub mkdir_all_keeps :
        (p : Text) (w : World) (q : Text) (n : fs.Node)
        → node q w ≡ some n
        → node q (mkdir_all p w).0 ≡ some n
    pub remove_outside :
        (p : Text) (w : World) (q : Text) → eqb q p ≡ false → node q (remove p w).0 ≡ node q w
    pub open_same : (p : Text) (w : World) (q : Text) → node q (open_file p w).0 ≡ node q w
    pub create_outside :
        (p : Text) (w : World) (q : Text) → eqb q p ≡ false → node q (create_file p w).0 ≡ node q w
    pub io_copy_outside :
        (a b : Text) (w : World) (q : Text) → eqb q b ≡ false → node q (io_copy a b w).0 ≡ node q w
    pub io_copy_copies :
        (a b : Text) (w : World) → (io_copy a b w).1 ≡ false → node b (io_copy a b w).0 ≡ node a w
    pub close_same : (p : Text) (w : World) (q : Text) → node q (close_file p w).0 ≡ node q w
