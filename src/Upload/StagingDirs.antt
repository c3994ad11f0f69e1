-- ===== src/Upload/StagingDirs.antt =====
-- service/upload/staging_dirs.go: the directories in which a cancelled upload is looked for, against
-- the directory in which route/v2/tus_routing_store.go (Staging) has put it.
pub mod Missed
pub mod Examples
use nimo_os.Base.{
  ◌≡◌, refl, ap, ◌∙◌, sym, subst, Bool, true, false, not, ◌&&◌, ◌||◌, List, [], ◌∷◌, ◌++◌, Option,
  none, some, arith, All, Bool-cases, inl, inr, if◌then◌else◌, ℕ, ◌≢◌, ◌⊎◌,
}
use nimo_os.Text.{Text, eqb, elem, text}
use nimo_os.Text.Laws.{eqb_refl, eqb→eq, eqb_iff}
use nimo_os.FilePath.{slash, join_path, clean, segments, render, push_segments, push_segment}
use nimo_os.FilePath.Laws.{IsPlain}
use nimo_os.FilePath.Joining.{IsPlace, join_path-place, join_path-IsPlace}
use nimo_os.Files.{FileSystem, IsLawful}
use nimo_os.Staging.{legacy_staging_root, staging_dir_for_root, dir_for_root}
use nimo_os.Upload.Db.{Db, Outcome, ok, err, Query}
use nimo_os.Upload.Sweeper.{staging_files}
use nimo_os.Upload.TaskHandlers.{TaskReply, canceled, cancel_upload, cancel_upload-files}

-- common.FileUploadStagingDir, and where volumes are mounted.
abbrev pub file_upload_staging_dir : Text
file_upload_staging_dir = text "/DATA/.system_data/file-tus-staging"

abbrev pub media_root : Text
media_root = text "/media"

-- The names of the entries that are directories.
abbrev pub volume_names : List (Text × Bool) → List Text
volume_names [] = []
volume_names (e ∷ es) = if e.1 then e.0 ∷ volume_names es else volume_names es

module _ (s : FileSystem) where
  open s use {World, read_dir, stat_dir}

  abbrev is_a_dir : Option Bool → Bool
  is_a_dir none = false
  is_a_dir (some b) = b

  -- The loop over the entries.
  unfoldable pub volume_dirs : Text → World → List (Text × Bool) → List Text
  unfolding staging_dir_for_root
  volume_dirs root w [] = []
  volume_dirs root w (e ∷ es) =
      let cand = staging_dir_for_root (join_path root e.0) in
      if e.1 && is_a_dir (stat_dir cand w)
      then cand ∷ volume_dirs root w es
      else volume_dirs root w es

  abbrev listed_dirs : Text → World → Option (List (Text × Bool)) → List Text
  listed_dirs root w none = []
  listed_dirs root w (some es) = volume_dirs root w es

  unfoldable pub staging_dirs : Text → Text → World → List Text
  unfolding volume_dirs
  staging_dirs legacy_dir root w = legacy_dir ∷ listed_dirs root w (read_dir root w)

  elem-volume_dirs :
      (root name : Text) (w : World) (es : List (Text × Bool))
      → elem name (volume_names es) ≡ true
      → stat_dir (staging_dir_for_root (join_path root name)) w ≡ some true
      → elem (staging_dir_for_root (join_path root name)) (volume_dirs root w es) ≡ true
  unfolding volume_dirs elem
  elem-volume_dirs root name w [] h k = cc h
  elem-volume_dirs root name w ((n, false) ∷ es) h k = elem-volume_dirs root name w es h k
  elem-volume_dirs root name w ((n, true) ∷ es) h k = elim (Bool-cases (eqb n name)) [
    | inl e ↦
        subst
          (λ m.
            elem (staging_dir_for_root (join_path root name)) (volume_dirs root w ((m, true) ∷ es))
            ≡ true)
          (sym (eqb→eq n name e))
          (rw k (ground (arith, eqb_refl (staging_dir_for_root (join_path root name)))))
    | inr e ↦
        later (is_a_dir (stat_dir (staging_dir_for_root (join_path root n)) w))
          (elem-volume_dirs root name w es (ground arith) k)
  ]
    where
      later :
          (b : Bool)
          → elem (staging_dir_for_root (join_path root name)) (volume_dirs root w es) ≡ true
          → elem (staging_dir_for_root (join_path root name)) (
              if b
              then staging_dir_for_root (join_path root n) ∷ volume_dirs root w es
              else volume_dirs root w es)
            ≡ true
      later true h = ground arith
      later false h = h

elem-staging_files :
    (d id : Text) (dirs : List Text)
    → elem d dirs ≡ true
    → elem (join_path d id) (staging_files dirs id) ≡ true
unfolding elem
elem-staging_files d id [] h = cc h
elem-staging_files d id (e ∷ dirs) h =
    ground (arith, elem-staging_files d id dirs, eqb_iff e d, eqb_refl (join_path d id))

elem_here : (p : Text) (ps : List Text) → elem p (p ∷ ps) ≡ true
unfolding elem
elem_here p ps = ground (arith, eqb_refl p)

elem_later : (p q : Text) (ps : List Text) → elem p ps ≡ true → elem p (q ∷ ps) ≡ true
unfolding elem
elem_later p q ps h = ground arith

module _ (s : FileSystem) where
  -- The root is the legacy one, or an entry of the media directory whose staging directory exists.
  abbrev pub IsSearched : Text → s.World → Type 0
  IsSearched root w =
      (root ≡ legacy_staging_root)
      ⊎ ((name : Text) × (es : List (Text × Bool)) × (root ≡ join_path media_root name)
          × (s.read_dir media_root w ≡ some es)
          × (elem name (volume_names es) ≡ true)
          × (s.stat_dir (staging_dir_for_root root) w ≡ some true))

  staging_dirs-searched :
      (root : Text) (w : s.World)
      → IsSearched root w
      → elem
          (dir_for_root file_upload_staging_dir root)
          (staging_dirs s file_upload_staging_dir media_root w)
        ≡ true
  unfolding staging_dirs dir_for_root
  staging_dirs-searched root w (inl e) =
      rw (e, eqb_refl legacy_staging_root) (elem_here file_upload_staging_dir _)
  staging_dirs-searched root w (inr (name, es, e, f, g, h)) =
      elim (Bool-cases (eqb root legacy_staging_root)) [
        | inl l ↦ rw l (elem_here file_upload_staging_dir _)
        | inr l ↦
            let k = elem-volume_dirs s media_root name w es g (rw e at h) in
            rw (l, f)
              (elem_later (staging_dir_for_root root) file_upload_staging_dir _ (
                subst (λ r. elem (staging_dir_for_root r) (volume_dirs s media_root w es) ≡ true)
                  (sym e) k))
      ]

  module _ (cancel : Text → ℕ → Query Bool) (owner id root : Text) (now : ℕ) (w : s.World) where
    -- Where the volume of an upload is /DATA, or an entry of /media whose staging directory exists,
    -- a cancel that is answered with success removes the file that the store of this volume keeps
    -- for the upload.
    pub cancel_upload-removes :
        (db : Db) (r : TaskReply)
        → IsSearched root w
        → (cancel_upload cancel
            (staging_dirs s file_upload_staging_dir media_root w)
            owner
            id
            now
            db).0
          ≡ ok r
        → r.response ≡ canceled true
        → elem (join_path (dir_for_root file_upload_staging_dir root) id) r.removed_files ≡ true
    cancel_upload-removes db r h e k =
        let dirs = staging_dirs s file_upload_staging_dir media_root w in
        ap (elem (join_path (dir_for_root file_upload_staging_dir root) id))
          (cancel_upload-files cancel dirs owner id r now db e k)
        ∙ elem-staging_files (dir_for_root file_upload_staging_dir root) id dirs
            (staging_dirs-searched root w h)
