-- ===== src/Upload/Examples.antt =====
-- The theorems of the upload modules at concrete tables.
use nimo_os.Base.{ℕ, ◌≡◌, refl, Bool, true, false, List, [], ◌∷◌, some, arith}
use nimo_os.Text.{Text, text, eqb}
use nimo_os.Upload.Db.{
  active, interrupted, unset, signal, timeout, uploading, canceled, UploadBatch, UploadBatchItem,
  UploadTask, Tables, Db, Query, is_status,
}
use nimo_os.Upload.Tasks
use nimo_os.Upload.Batches.Rows.{IsCounted}
use nimo_os.Upload.Batches.Holds.{IsConsistent}
use nimo_os.Upload.Batches.Creating.{IsManifest}
use nimo_os.Upload.Batches.History.{Call, run, run-IsConsistent}
use nimo_os.Upload.Sweeper.{sweep_batches}
use nimo_os.Upload.Sweeper.Round.{OnlyTasks, sweep_batches-IsConsistent}
use nimo_os.Upload.Handlers.{
  CreateBatchReq, create_upload_batch, get_upload_batch, interrupt_upload_batch,
  abandon_upload_batch, abandon_upload_batches_under, remove_upload_batch_items,
}
use nimo_os.Upload.Handlers.Keeping.{handlers-IsConsistent}
use nimo_os.Upload.Handlers.Ownership.{IsRefused, foreign-IsRefused}

abbrev pub photos : UploadBatch
photos = record {
  id = text "b1";
  owner_user_id = text "1";
  target_path = text "/media/disk/photos";
  status = interrupted;
  total = 2;
  done = 1;
  last_progress_at = 100;
  interrupted_at = 200;
  interrupt_source = timeout;
  staging_cleaned = false;
  created_at = 90;
}

abbrev pub first_photo : UploadBatchItem
first_photo = record { batch_id = text "b1"; relative_path = text "a.jpg"; size = 5; done = true }

abbrev pub second_photo : UploadBatchItem
second_photo = record { batch_id = text "b1"; relative_path = text "b.jpg"; size = 7; done = false }

abbrev pub second_task : UploadTask
second_task = record {
  id = text "t2";
  owner_user_id = text "1";
  filename = text "b.jpg";
  target_path = text "/DATA";
  relative_path = text "b.jpg";
  size = 7;
  mime = [];
  fingerprint = [];
  batch_id = text "b1";
  client_id = [];
  client_meta = [];
  status = uploading;
  uploaded_offset = 3;
  error = [];
  last_error_at = 0;
  expires_at = 1000;
}

abbrev pub sample : Tables
sample = record {
  batches = photos ∷ [];
  items = first_photo ∷ second_photo ∷ [];
  tasks = second_task ∷ [];
}

abbrev pub sample_db : Db
sample_db = record { tables = sample; faults = [] }

-- The third and the fourth statement fail.
abbrev pub failing_db : Db
failing_db = record { tables = sample; faults = false ∷ false ∷ true ∷ true ∷ [] }

photos-IsCounted : IsCounted sample.items photos
unfolding eqb is_status
photos-IsCounted = record {
  total = refl;
  done = refl;
  fits = omega arith;
  waits = λ h. omega arith;
  finished = λ h. ground arith;
}

pub sample-IsConsistent : IsConsistent sample
unfolding eqb
sample-IsConsistent = record {
  batches = (photos-IsCounted, tt);
  keys = (refl, (refl, tt));
  owned = (refl, (refl, tt));
}

abbrev music : UploadBatch
music = record photos {
  id = text "b2";
  status = active;
  total = 1;
  done = 0;
  interrupt_source = unset;
  interrupted_at = 0;
}

abbrev song : UploadBatchItem
song = record { batch_id = text "b2"; relative_path = text "c.ogg"; size = 4; done = false }

music-IsManifest : IsManifest music (song ∷ [])
music-IsManifest = record {
  fresh = refl;
  none_done = refl;
  total = refl;
  some_item = omega arith;
  own = ((refl, refl), tt);
}

abbrev calls : List Call
calls =
    Call.creates music (song ∷ []) music-IsManifest
    ∷ Call.marks (text "b1") (text "b.jpg") 300
    ∷ Call.interrupts (text "b2") 310 signal
    ∷ Call.abandons_under (text "/media/disk") (text "1")
    ∷ Call.deletes_finished
    ∷ []

run-IsConsistent_example : IsConsistent (run calls failing_db).tables
run-IsConsistent_example = run-IsConsistent calls failing_db sample-IsConsistent

-- Cancel with the status that NimoOS-Common writes.
abbrev cancel : Text → ℕ → Query Unit
cancel id expires = nimo_os.Upload.Tasks.set_status id canceled expires

cancel-faults :
    (id : Text) (expires : ℕ) (t : Tables) (fs : List Bool)
    → ((cancel id expires (record { tables = t; faults = fs })).1.tables.batches ≡ t.batches)
      × ((cancel id expires (record { tables = t; faults = fs })).1.tables.items ≡ t.items)
unfolding nimo_os.Upload.Tasks.set_status
cancel-faults id expires t [] = (refl, refl)
cancel-faults id expires t (true ∷ fs) = (refl, refl)
cancel-faults id expires t (false ∷ fs) = (refl, refl)

cancel-OnlyTasks : OnlyTasks cancel
cancel-OnlyTasks = record {
  batches = λ id expires db. (cancel-faults id expires db.tables db.faults).0;
  items = λ id expires db. (cancel-faults id expires db.tables db.faults).1;
}

abbrev request : CreateBatchReq
request = record {
  id = text "b2";
  target_path = text "/media/disk/music";
  items = record { relative_path = text "c.ogg"; size = 4 } ∷ [];
}

handlers-IsConsistent_example :
    IsConsistent (create_upload_batch (text "1") 300 (some request) failing_db).1.tables
    × IsConsistent (get_upload_batch (text "1") (text "b1") failing_db).1.tables
    × IsConsistent
        (interrupt_upload_batch cancel
          (text "/media/disk/.upload" ∷ [])
          (text "1")
          (text "b1")
          300
          failing_db).1.tables
    × IsConsistent
        (abandon_upload_batch cancel
          (text "/media/disk/.upload" ∷ [])
          (text "1")
          (text "b1")
          300
          failing_db).1.tables
    × IsConsistent
        (abandon_upload_batches_under cancel
          (text "/media/disk/.upload" ∷ [])
          (text "1")
          (some (text "/media"))
          300
          failing_db).1.tables
    × IsConsistent
        (remove_upload_batch_items
          (text "1")
          (text "b1")
          (some (text "b.jpg" ∷ []))
          failing_db).1.tables
handlers-IsConsistent_example =
    handlers-IsConsistent cancel cancel-OnlyTasks (text "/media/disk/.upload" ∷ []) 300 (text "1")
      (text "b1") (some request) (some (text "/media")) (some (text "b.jpg" ∷ [])) failing_db
      sample-IsConsistent

sweep_batches-IsConsistent_example :
    IsConsistent
      (sweep_batches cancel
        (text "/media/disk/.upload" ∷ [])
        2000
        (λ p. true)
        (text "/media/disk" ∷ [])
        failing_db).1.tables
sweep_batches-IsConsistent_example =
    sweep_batches-IsConsistent cancel cancel-OnlyTasks (text "/media/disk/.upload" ∷ []) 2000
      (λ p. true) (text "/media/disk" ∷ []) failing_db sample-IsConsistent

foreign-IsRefused_example :
    IsRefused (get_upload_batch (text "2") (text "b1")) sample_db
    × IsRefused
        (interrupt_upload_batch cancel (text "/media/disk/.upload" ∷ []) (text "2") (text "b1") 300)
        sample_db
    × IsRefused
        (abandon_upload_batch cancel (text "/media/disk/.upload" ∷ []) (text "2") (text "b1") 300)
        sample_db
    × IsRefused
        (remove_upload_batch_items (text "2") (text "b1") (some (text "b.jpg" ∷ [])))
        sample_db
unfolding eqb
foreign-IsRefused_example =
    foreign-IsRefused cancel (text "/media/disk/.upload" ∷ []) 300 (text "2") (text "b1")
      (some (text "b.jpg" ∷ [])) sample_db ((λ e. refl), tt)
