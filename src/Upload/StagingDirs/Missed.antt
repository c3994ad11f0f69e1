-- ===== src/Upload/StagingDirs/Missed.antt =====
-- An upload whose staging directory is not searched, service/upload/staging_dirs.go.
use nimo_os.Base.{
  ℕ, ◌≡◌, refl, ap, ◌∙◌, subst, Bool, true, false, ◌&&◌, List, [], ◌∷◌, ◌++◌, Option, none, some,
  arith, All, Bool-cases, inl, inr, ◌==◌, if◌then◌else◌,
}
use nimo_os.Text.{Text, eqb, elem, text, split}
use nimo_os.Text.Laws.{eqb→eq}
use nimo_os.FilePath.{slash, join_path, clean, segments, render, push_segments, push_segment}
use nimo_os.FilePath.Laws.{IsPlain}
use nimo_os.FilePath.Joining.{IsPlace, join_path-place, join_path-IsPlace}
use nimo_os.Files.{FileSystem, IsLawful}
use nimo_os.Staging.{staging_dir_for_root, dir_for_root}
use nimo_os.Upload.Db.{Db, ok, Query}
use nimo_os.Upload.Sweeper.{staging_files}
use nimo_os.Upload.TaskHandlers.{TaskReply, canceled, cancel_upload, cancel_upload-files}
use nimo_os.Upload.StagingDirs.{
  file_upload_staging_dir, media_root, is_a_dir, volume_dirs, listed_dirs, staging_dirs,
}

-- The byte behind the first slash.
abbrev second : Text → ℕ
second [] = slash
second (c ∷ []) = slash
second (c ∷ (d ∷ p)) = d

-- A cleaned path that is not hidden below the root directory.
abbrev IsOpen : Text → Type 0
IsOpen d = IsPlace d × ((second d == b'.') ≡ false)

second-join : (d n : Text) → IsPlace d → second (d ++ (slash ∷ n)) ≡ second d
second-join [] n p = cc p.0
second-join (c ∷ []) n p = refl
second-join (c ∷ (e ∷ d)) n p = refl

join_path-second : (d n : Text) → IsPlace d → IsPlain n → second (join_path d n) ≡ second d
join_path-second d n p h = ap second (join_path-place d n p h) ∙ second-join d n p

join_path-IsOpen : (d n : Text) → IsOpen d → IsPlain n → IsOpen (join_path d n)
join_path-IsOpen d n p h =
    (join_path-IsPlace d n p.0 h, ap (λ c. c == b'.') (join_path-second d n p.0 h) ∙ p.1)

-- The two fixed directories and the names of every staging directory.
fixed-IsOpen : IsOpen file_upload_staging_dir × IsOpen media_root
unfolding clean segments push_segments push_segment render split eqb
fixed-IsOpen =
    (((refl, refl, text "DATA", _, refl), refl), ((refl, refl, text "media", _, refl), refl))

names-IsPlain : IsPlain (text ".system_data") × IsPlain (text "file-tus-staging")
unfolding eqb
names-IsPlain = (ground arith, ground arith)

module _ (s : FileSystem) (w : s.World) where
  volume_dirs-IsOpen :
      (es : List (Text × Bool))
      → All (λ fd. IsPlain fd.0) es
      → All IsOpen (volume_dirs s media_root w es)
  unfolding volume_dirs staging_dir_for_root
  volume_dirs-IsOpen [] h = tt
  volume_dirs-IsOpen (e ∷ es) h =
      by_case (e.1 && is_a_dir s (s.stat_dir (staging_dir_for_root (join_path media_root e.0)) w))
        (join_path-IsOpen _ _
          (join_path-IsOpen _ _ (join_path-IsOpen media_root e.0 fixed-IsOpen.1 h.0)
            names-IsPlain.0)
          names-IsPlain.1)
        (volume_dirs-IsOpen es h.1)
    where
      by_case :
          (b : Bool)
          → IsOpen (staging_dir_for_root (join_path media_root e.0))
          → All IsOpen (volume_dirs s media_root w es)
          → All IsOpen (
              if b
              then staging_dir_for_root (join_path media_root e.0) ∷ volume_dirs s media_root w es
              else volume_dirs s media_root w es)
      by_case true o k = (o, k)
      by_case false o k = k

  staging_dirs-IsOpen :
      IsLawful s → All IsOpen (staging_dirs s file_upload_staging_dir media_root w)
  unfolding staging_dirs
  staging_dirs-IsOpen laws = (fixed-IsOpen.0, listed (s.read_dir media_root w) refl)
    where
      listed :
          (o : Option (List (Text × Bool)))
          → s.read_dir media_root w ≡ o
          → All IsOpen (listed_dirs s media_root w o)
      listed none e = tt
      listed (some es) e = volume_dirs-IsOpen es (laws.read_dir_plain media_root w es e)

not_found :
    (id p : Text) (dirs : List Text)
    → IsPlain id
    → IsPlain (id ++ text ".info")
    → (second p == b'.') ≡ true
    → All IsOpen dirs
    → elem p (staging_files dirs id) ≡ false
unfolding elem
not_found id p [] i j h k = refl
not_found id p (d ∷ dirs) i j h k = ground (
  arith,
  differs (join_path d id) (join_path-IsOpen d id k.0 i).1,
  differs (join_path d (id ++ text ".info")) (join_path-IsOpen d (id ++ text ".info") k.0 j).1,
  not_found id p dirs i j h k.1,
)
  where
    differs : (q : Text) → (second q == b'.') ≡ false → eqb q p ≡ false
    differs q e = elim (Bool-cases (eqb q p)) [
      | inl f ↦ let g = subst (λ x. (second x == b'.') ≡ false) (eqb→eq q p f) e in cc (h, g)
      | inr f ↦ f
    ]

root_dir : dir_for_root file_upload_staging_dir (text "/") ≡ text "/.system_data/file-tus-staging"
unfolding dir_for_root staging_dir_for_root join_path clean segments push_segments push_segment
    render split eqb
root_dir = refl

root_dir-IsPlace : IsPlace (text "/.system_data/file-tus-staging")
unfolding clean segments push_segments push_segment render split eqb
root_dir-IsPlace = (refl, refl, text ".system_data", _, refl)

root_dir-hidden :
    (id : Text)
    → IsPlain id
    → (second (join_path (dir_for_root file_upload_staging_dir (text "/")) id) == b'.') ≡ true
root_dir-hidden id i = rw root_dir (
    ap (λ c. c == b'.')
      (join_path-second (text "/.system_data/file-tus-staging") id root_dir-IsPlace i))

-- Where the volume of an upload is the one that is mounted at the root directory, a cancel that is
-- answered with success does not remove the file that the store of this volume keeps for the
-- upload. The id is a plain file name, with .info behind it too.
pub cancel_upload-leaves :
    (s : FileSystem) (laws : IsLawful s) (cancel : Text → ℕ → Query Bool) (owner id : Text)
    (now : ℕ) (w : s.World) (db : Db) (r : TaskReply)
    → IsPlain id
    → IsPlain (id ++ text ".info")
    → (cancel_upload cancel (staging_dirs s file_upload_staging_dir media_root w) owner id now db).0
      ≡ ok r
    → r.response ≡ canceled true
    → elem (join_path (dir_for_root file_upload_staging_dir (text "/")) id) r.removed_files ≡ false
cancel_upload-leaves s laws cancel owner id now w db r i j e h =
    let dirs = staging_dirs s file_upload_staging_dir media_root w in
    let p = join_path (dir_for_root file_upload_staging_dir (text "/")) id in
    ap (elem p) (cancel_upload-files cancel dirs owner id r now db e h)
    ∙ not_found id p dirs i j (root_dir-hidden id i) (staging_dirs-IsOpen s w laws)
