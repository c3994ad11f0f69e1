-- ===== src/Files/Copying.antt =====
-- CopyFile, CopyDirContents and CopyDir of pkg/utils/file/file.go. A result `true` is an error.
--
-- The recursion into the directories takes fuel, one for each level. Where a directory lies deeper
-- the model comes back with an error.
use nimo_os.Base.{
  ℕ, zero, suc, Bool, true, false, ◌&&◌, List, [], ◌∷◌, Option, none, some, if◌then◌else◌,
}
use nimo_os.Text.{Text, eqb, text}
use nimo_os.FilePath.{base, join_path}
use nimo_os.Files.{FileSystem}

-- if err != nil { return err }
unfoldable pub unless_error {ℓ} : {W : Type ℓ} → W × Bool → (W → W × Bool) → W × Bool
unless_error (w, true) k = (w, true)
unless_error (w, false) k = k w

module _ (s : FileSystem) where
  open s use {World, ctx_err, exists, stat_dir, read_dir, mkdir_all, cp_file, cp_dir, copy_bytes}

  -- Behind the subprocess: only a failure that is no cancellation is followed by a copy by hand.
  unfoldable pub after_cp : (World → World × Bool) → World × Bool → World × Bool
  after_cp by_hand (w, false) = (w, false)
  after_cp by_hand (w, true) = if ctx_err w then (w, true) else by_hand w

  unfoldable pub copy_file : Text → Text → Text → World → World × Bool
  unfolding after_cp
  copy_file src dst style w =
      if exists dst w && eqb style (text "skip")
      then (w, false)
      else if ctx_err w
      then (w, true)
      else after_cp (copy_bytes src dst) (cp_file src dst w)

  -- The loop over the entries of a directory; `copy` copies one of them.
  unfoldable pub copy_entries :
      (Text → Text → Bool → World → World × Bool)
      → Text
      → Text
      → List (Text × Bool)
      → World
      → World × Bool
  unfolding unless_error
  copy_entries copy src dst [] w = (w, false)
  copy_entries copy src dst ((name, is_dir) ∷ fds) w =
      if ctx_err w
      then (w, true)
      else unless_error (copy (join_path src name) (join_path dst name) is_dir w)
          (copy_entries copy src dst fds)

  unfoldable pub copy_listed :
      (Text → Text → Bool → World → World × Bool)
      → Text
      → Text
      → Option (List (Text × Bool))
      → World
      → World × Bool
  unfolding copy_entries
  copy_listed copy src dst none w = (w, true)
  copy_listed copy src dst (some fds) w = copy_entries copy src dst fds w

  -- The copy of a directory by hand.
  unfoldable pub copy_by_hand :
      (Text → Text → Bool → World → World × Bool) → Text → Text → World → World × Bool
  unfolding unless_error copy_listed
  copy_by_hand copy src dst w =
      unless_error (mkdir_all dst w) (λ w'. copy_listed copy src dst (read_dir src w') w')

  unfoldable pub copy_stat :
      (Text → Text → Bool → World → World × Bool)
      → Text
      → Text
      → Text
      → Option Bool
      → World
      → World × Bool
  unfolding copy_file copy_by_hand after_cp
  copy_stat copy src dst style none w = (w, true)
  copy_stat copy src dst style (some false) w = copy_file src dst style w
  copy_stat copy src dst style (some true) w =
      if exists dst w && eqb style (text "skip")
      then (w, false)
      else if ctx_err w
      then (w, true)
      else after_cp (copy_by_hand copy src dst) (cp_dir src dst w)

  unfoldable pub copy_entry :
      (Text → Text → Text → World → World × Bool) → Text → Text → Text → Bool → World → World × Bool
  unfolding copy_file
  copy_entry copy_dir style src dst true w = copy_dir src dst style w
  copy_entry copy_dir style src dst false w = copy_file src dst style w

  unfoldable pub copy_dir_contents : ℕ → Text → Text → Text → World → World × Bool
  unfolding copy_stat copy_entry
  copy_dir_contents zero src dst style w = (w, true)
  copy_dir_contents (suc n) src dst style w =
      copy_stat (copy_entry (copy_dir_contents n) style) src dst style (stat_dir src w) w

  unfoldable pub copy_dir : ℕ → Text → Text → Text → World → World × Bool
  unfolding copy_dir_contents
  copy_dir n src dst style w = copy_dir_contents n src (join_path dst (base src)) style w
