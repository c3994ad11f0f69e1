-- ===== src/Upload/Batches/History.antt =====
-- The batch store through any sequence of calls.
use nimo_os.Base.{ℕ, List, [], ◌∷◌}
use nimo_os.Text.{Text}
use nimo_os.Upload.Db.{abandoned, InterruptSource, UploadBatch, UploadBatchItem, Db}
use nimo_os.Upload.Batches.{
  create, mark_item_done, mark_item_done_across_batches, touch_progress, set_status,
  set_interrupted, mark_staging_cleaned, abandon_interrupted_under, remove_items, delete_terminal,
}
use nimo_os.Upload.Batches.Holds.{
  IsConsistent, touch_progress-IsConsistent, set_interrupted-IsConsistent, abandon-IsConsistent,
  mark_staging_cleaned-IsConsistent,
}
use nimo_os.Upload.Batches.Marking.{
  mark_item_done-IsConsistent, mark_item_done_across_batches-IsConsistent,
}
use nimo_os.Upload.Batches.Removing.{
  remove_items-IsConsistent, abandon_interrupted_under-IsConsistent,
}
use nimo_os.Upload.Batches.Creating.{IsManifest, create-IsConsistent}
use nimo_os.Upload.Batches.Deleting.{delete_terminal-IsConsistent}

-- The calls that change the batch tables, as the handlers and the sweeper make them: `create` with
-- a manifest, SetStatus with `abandoned` only.
pub data Call : Type 0 where
  creates : (b : UploadBatch) (items : List UploadBatchItem) → IsManifest b items → Call
  marks : Text → Text → ℕ → Call
  marks_across : Text → Text → ℕ → Call
  touches : Text → ℕ → Call
  interrupts : Text → ℕ → InterruptSource → Call
  abandons : Text → Call
  cleans_staging : Text → Call
  abandons_under : Text → Text → Call
  removes : Text → List Text → Call
  deletes_finished : Call

-- The state after a call, successful or not.
pub after : Call → Db → Db
after (Call.creates b items m) db = (create b items db).1
after (Call.marks id path now) db = (mark_item_done id path now db).1
after (Call.marks_across target path now) db = (mark_item_done_across_batches target path now db).1
after (Call.touches id now) db = (touch_progress id now db).1
after (Call.interrupts id now source) db = (set_interrupted id now source db).1
after (Call.abandons id) db = (set_status id abandoned db).1
after (Call.cleans_staging id) db = (mark_staging_cleaned id db).1
after (Call.abandons_under path owner) db = (abandon_interrupted_under path owner db).1
after (Call.removes id paths) db = (remove_items id paths db).1
after Call.deletes_finished db = (delete_terminal db).1

pub run : List Call → Db → Db
unfolding after
run [] db = db
run (c ∷ cs) db = run cs (after c db)

pub after-IsConsistent :
    (c : Call) (db : Db) → IsConsistent db.tables → IsConsistent (after c db).tables
unfolding after
after-IsConsistent (Call.creates b items m) db h = (create-IsConsistent b items m).at db h
after-IsConsistent (Call.marks id path now) db h = (mark_item_done-IsConsistent id path now).at db h
after-IsConsistent (Call.marks_across target path now) db h =
    (mark_item_done_across_batches-IsConsistent target path now).at db h
after-IsConsistent (Call.touches id now) db h = (touch_progress-IsConsistent id now).at db h
after-IsConsistent (Call.interrupts id now source) db h =
    (set_interrupted-IsConsistent id now source).at db h
after-IsConsistent (Call.abandons id) db h = (abandon-IsConsistent id).at db h
after-IsConsistent (Call.cleans_staging id) db h = (mark_staging_cleaned-IsConsistent id).at db h
after-IsConsistent (Call.abandons_under path owner) db h =
    (abandon_interrupted_under-IsConsistent path owner).at db h
after-IsConsistent (Call.removes id paths) db h = (remove_items-IsConsistent id paths).at db h
after-IsConsistent Call.deletes_finished db h = delete_terminal-IsConsistent.at db h

-- From tables whose counters agree, any calls, with any statement of any call failing, lead to
-- tables whose counters agree: each total and each done counts the items of its batch, a live batch
-- waits for an item, a completed one has all, the keys of the items are distinct and each item has
-- a batch. A batch is created with its manifest, and SetStatus only abandons, as the program calls
-- them.
pub run-IsConsistent :
    (cs : List Call) (db : Db) → IsConsistent db.tables → IsConsistent (run cs db).tables
unfolding run
run-IsConsistent [] db h = h
run-IsConsistent (c ∷ cs) db h = run-IsConsistent cs (after c db) (after-IsConsistent c db h)
