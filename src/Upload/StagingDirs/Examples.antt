-- ===== src/Upload/StagingDirs/Examples.antt =====
-- The theorems on the staging directories that a cancel searches at concrete volumes.
use nimo_os.Base.{ℕ, ◌≡◌, refl, Bool, true, false, List, [], ◌∷◌, some, arith, inr}
use nimo_os.Text.{Text, text, eqb, elem}
use nimo_os.FilePath.{join_path, clean, segments, render}
use nimo_os.Files.{FileSystem}
use nimo_os.Files.Memory.{Disk, memory}
use nimo_os.Files.Memory.Lawful.{memory-IsLawful}
use nimo_os.Staging.{dir_for_root}
use nimo_os.Upload.Db.{Query, pure}
use nimo_os.Upload.Tasks.{get}
use nimo_os.Upload.Sweeper.{staging_files}
use nimo_os.Upload.TaskHandlers.{TaskReply, canceled, cancel_upload}
use nimo_os.Upload.Examples.{sample_db}
use nimo_os.Upload.StagingDirs.{
  file_upload_staging_dir, media_root, staging_dirs, cancel_upload-removes,
}
use nimo_os.Upload.StagingDirs.Missed.{cancel_upload-leaves}

abbrev cancel_all : Text → ℕ → Query Bool
cancel_all id expires = pure true

abbrev disk : Disk
disk = record {
  entry = λ p. some 1;
  paths = text "/.system_data/file-tus-staging/t2" ∷ [];
  renames = [];
  no_cp = false;
  cancelled = false;
}

-- A RAID below /media.
abbrev volumes : FileSystem
volumes = record memory {
  read_dir = λ p w. some ((text "RAID_0", true) ∷ []);
  stat_dir = λ p w. some true;
}

abbrev answered : List Text → TaskReply
answered dirs = record { response = canceled true; removed_files = staging_files dirs (text "t2") }

cancel_upload-removes_example :
    elem
      (join_path (dir_for_root file_upload_staging_dir (text "/media/RAID_0")) (text "t2"))
      (staging_files (staging_dirs volumes file_upload_staging_dir media_root disk) (text "t2"))
    ≡ true
unfolding cancel_upload get eqb elem join_path clean segments render
cancel_upload-removes_example =
    cancel_upload-removes volumes cancel_all (text "1") (text "t2") (text "/media/RAID_0") 300 disk
      sample_db (answered (staging_dirs volumes file_upload_staging_dir media_root disk))
      (inr (text "RAID_0", (text "RAID_0", true) ∷ [], refl, refl, refl, refl)) refl refl

cancel_upload-leaves_example :
    elem
      (join_path (dir_for_root file_upload_staging_dir (text "/")) (text "t2"))
      (staging_files (staging_dirs memory file_upload_staging_dir media_root disk) (text "t2"))
    ≡ false
unfolding cancel_upload get eqb
cancel_upload-leaves_example =
    cancel_upload-leaves memory memory-IsLawful cancel_all (text "1") (text "t2") 300 disk sample_db
      (answered (staging_dirs memory file_upload_staging_dir media_root disk)) (ground arith)
      (ground arith) refl refl
