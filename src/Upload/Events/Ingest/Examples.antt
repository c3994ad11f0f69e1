-- ===== src/Upload/Events/Ingest/Examples.antt =====
-- The theorems on the ingest of a file at a disk in memory.
use nimo_os.Base.{◌≡◌, refl, true, false, [], ◌∷◌, ◌++◌, some, arith, All, ◌==◌, if◌then◌else◌}
use nimo_os.Text.{Text, text, eqb, elem, has_prefix}
use nimo_os.FilePath.{slash, clean, join_path, render, segments, dir, base, covers}
use nimo_os.Files.Memory.{Disk, memory, make_dir, rename_disk}
use nimo_os.Upload.Events.{Ingested, ingested, HookEvent, TusState, new_tus_state}
use nimo_os.Upload.Events.Ingest.{place_file, ingest_to_target_with_policy}
use nimo_os.Upload.Events.Ingest.Keeping.{IsKeeping, ingest_to_target_with_policy-IsKeeping}
use nimo_os.Upload.Batches.Pending.{view}
use nimo_os.Upload.Events.Settling.{complete_upload, complete_upload-settles, IsShrinking}
use nimo_os.Upload.Events.Examples.{second_event}
use nimo_os.Upload.Examples.{sample, sample_db}
use nimo_os.Upload.Events.Ingest.Memory.{upload_memory, upload_memory-IsUploadLawful}

-- A staged file with its description, and a file at its target.
abbrev disk : Disk
disk = record {
  entry = λ p. if eqb p (text "/s/u") then some 7 else some 2;
  paths = text "/s/u" ∷ text "/s/u.info" ∷ text "/p/b.jpg" ∷ [];
  renames = [];
  no_cp = false;
  cancelled = false;
}

abbrev landed : Disk
landed = (place_file upload_memory (text "/s/u") (text "/p/b(1).jpg") (make_dir (text "/p") disk)).0

renames_beside :
    ingest_to_target_with_policy upload_memory 5
      (text "/s/u")
      (text "/p")
      (text "b.jpg")
      (text "rename")
      disk
    ≡ some (landed, ingested (text "/p/b(1).jpg") false)
unfolding ingest_to_target_with_policy eqb join_path elem make_dir clean render segments dir covers
    base rename_disk
renames_beside = refl

not_prefix :
    (t x : Text) → All (λ c. (c == slash) ≡ false) t → has_prefix t (x ++ (slash ∷ [])) ≡ false
unfolding has_prefix
not_prefix [] [] h = refl
not_prefix [] (d ∷ x) h = refl
not_prefix (c ∷ t) [] h = ground (arith, h.0)
not_prefix (c ∷ t) (d ∷ x) h = ground (arith, not_prefix t x h.1)

in_directory :
    (x : Text)
    → memory.not_exist (text "/p/" ++ x) (make_dir (text "/p") disk) ≡ false
    → elem (text "/p/" ++ x) (make_dir (text "/p") disk).paths ≡ true
unfolding make_dir elem covers eqb has_prefix
in_directory x h =
    ground (arith, not_prefix (text "b.jpg") x (refl, (refl, (refl, (refl, (refl, tt))))))

ingest_to_target_with_policy-IsKeeping_example :
    (r : Disk × Ingested) × (ingest_to_target_with_policy upload_memory 9
        (text "/s/u")
        (text "/p")
        (text "b.jpg")
        (text "rename")
        disk
      ≡ some r)
    × IsKeeping upload_memory upload_memory-IsUploadLawful (text "/s/u") disk r.0
unfolding make_dir elem covers dir clean render segments eqb join_path
ingest_to_target_with_policy-IsKeeping_example =
    ingest_to_target_with_policy-IsKeeping upload_memory upload_memory-IsUploadLawful (text "/s/u")
      (text "/p") (text "b.jpg") (refl, refl, text "p", [], refl)
      ((refl, (refl, (refl, (refl, (refl, tt))))), refl, refl, refl) 9
      (make_dir (text "/p") disk).paths (text "/p") (text "b.jpg") (text "rename") disk refl
      (λ h. cc h) in_directory (omega arith) refl

abbrev event : HookEvent
event = record second_event { storage_path = text "/s/u" }

abbrev state : TusState
state = new_tus_state sample_db

complete_upload-settles_example :
    (st' : TusState) × (complete_upload upload_memory 5 (text "/s") event 300 disk state
      ≡ some (landed, st'))
    × (memory.node (text "/p/b(1).jpg") landed ≡ some 7)
    × (view st'.db.tables (text "b1") (text "b.jpg") ≡ false)
    × IsShrinking sample st'.db.tables
unfolding eqb elem covers
complete_upload-settles_example =
    complete_upload-settles upload_memory upload_memory-IsUploadLawful 5 (text "/s")
      (text "/p/b(1).jpg") event 300 disk landed state sample 7 refl refl refl renames_beside
      (refl, refl)
