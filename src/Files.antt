-- ===== src/Files.antt =====
-- What the program asks of the operating system when it moves and copies files, as an interface,
-- and the copying of pkg/utils/file/file.go on top of it.
--
-- `World` is the state of the disks with all that is still to happen to them: an operation that
-- may fail takes its outcome from the world, and a context that is cancelled meanwhile is a
-- change of the world. `node` is the file or the directory that stands at a path on the user's
-- volumes, without what lies below a directory; the thumbnail cache is no such volume. A flag
-- `true` behind a world is an error.
pub mod Copying
pub mod Outside
pub mod Naming
pub mod Height
pub mod Memory
pub mod Examples
use nimo_os.Base.{
  ℕ, zero, suc, ◌≡◌, Bool, true, false, ◌&&◌, List, [], ◌∷◌, ◌++◌, Option, none, some,
  if◌then◌else◌, All,
}
use nimo_os.Text.{Text, eqb, text}
use nimo_os.FilePath.{covers}
use nimo_os.FilePath.Laws.{IsPlain}

-- A failed rename: between two filesystems (EXDEV), or for another reason.
pub data RenameError : Type 0 where
  cross_device : RenameError
  other : RenameError

pub record FileSystem : Type 1 where
  pub World : Type 0
  pub Node : Type 0
  pub node : Text → World → Option Node
  -- ctx.Err() != nil
  pub ctx_err : World → Bool
  -- file.Exists and file.CheckNotExist: os.Stat may also fail for another reason.
  pub exists : Text → World → Bool
  pub not_exist : Text → World → Bool
  -- os.Stat, and whether the file is a directory.
  pub stat_dir : Text → World → Option Bool
  -- file.GetFileOrDirSize
  pub size_of : Text → World → Option ℕ
  -- ioutil.ReadDir: the names, and which of them are directories.
  pub read_dir : Text → World → Option (List (Text × Bool))
  -- os.Rename
  pub rename : Text → Text → World → World × Option RenameError
  -- os.RemoveAll
  pub remove_all : Text → World → World × Bool
  -- os.MkdirAll
  pub mkdir_all : Text → World → World × Bool
  -- The subprocess cp, for a file and for a directory.
  pub cp_file : Text → Text → World → World × Bool
  pub cp_dir : Text → Text → World → World × Bool
  -- os.Open, os.Create, io.Copy, os.Stat and os.Chmod in a row.
  pub copy_bytes : Text → Text → World → World × Bool
  -- file.PurgeThumbCacheEntry
  pub purge_thumb : Text → World → World
  -- What other processes do between the choice of a free name and its check.
  pub interfere : Text → World → World
  -- The eight hexadecimal digits of a fresh uuid.
  pub fresh : World → Text

-- What stands behind a path that lies at or below another one: nothing, or a slash and more.
abbrev pub IsBelow : Text → Type 0
IsBelow r = covers [] r ≡ true

module _ (s : FileSystem) where
  open s use {World, node, rename, remove_all, mkdir_all, cp_file, cp_dir, copy_bytes, not_exist}

  -- Everything outside a path is as it was.
  abbrev pub Outside : Text → World → World → Type 0
  Outside p w w' = (q : Text) → covers p q ≡ false → node q w' ≡ node q w

  -- The documented behaviour of the system calls. `absent` leaves out symbolic links to nothing,
  -- which os.Stat does not see; while an operation runs, its source, its destination and what is
  -- beside them change by the operation alone, apart from `interfere`, which creates files only.
  pub record IsLawful : Type 0 where
    pub rename_fails :
        (a b : Text) (w : World) (e : RenameError)
        → (rename a b w).1 ≡ some e
        → (q : Text) → node q (rename a b w).0 ≡ node q w
    pub rename_moves :
        (a b : Text) (w : World)
        → (rename a b w).1 ≡ none
        → (r : Text) → IsBelow r
        → node (b ++ r) (rename a b w).0 ≡ node (a ++ r) w
    pub rename_outside :
        (a b : Text) (w : World) (q : Text)
        → covers a q ≡ false
        → covers b q ≡ false
        → node q (rename a b w).0 ≡ node q w
    pub remove_all_outside : (p : Text) (w : World) → Outside p w (remove_all p w).0
    pub cancel_stays :
        (p : Text) (w : World) → s.ctx_err w ≡ true → s.ctx_err (remove_all p w).0 ≡ true
    pub mkdir_all_outside :
        (p : Text) (w : World)
        → (q : Text) (n : s.Node) → covers p q ≡ false
        → node q w ≡ some n
        → node q (mkdir_all p w).0 ≡ some n
    pub cp_file_outside : (a b : Text) (w : World) → Outside b w (cp_file a b w).0
    pub cp_dir_outside : (a b : Text) (w : World) → Outside b w (cp_dir a b w).0
    pub copy_bytes_outside : (a b : Text) (w : World) → Outside b w (copy_bytes a b w).0
    pub purge_thumb_same : (p : Text) (w : World) (q : Text) → node q (s.purge_thumb p w) ≡ node q w
    pub interfere_keeps :
        (p : Text) (w : World) (q : Text) (n : s.Node)
        → node q w ≡ some n
        → node q (s.interfere p w) ≡ some n
    pub read_dir_plain :
        (p : Text) (w : World) (fds : List (Text × Bool))
        → s.read_dir p w ≡ some fds
        → All (λ fd. IsPlain fd.0) fds
    pub absent :
        (p : Text) (w : World)
        → not_exist p w ≡ true
        → (q : Text) → covers p q ≡ true
        → node q w ≡ none
