-- ===== src/Upload/Events/Examples.antt =====
-- The theorems on the events of tusd, and on what the batch store promises, at concrete inputs.
use nimo_os.Base.{ℕ, ◌≡◌, refl, Bool, true, false, not, ◌&&◌, List, [], ◌∷◌, map, any, arith}
use nimo_os.Text.{Text, text, eqb}
use nimo_os.FilePath.{clean, join_path}
use nimo_os.Upload.Db.{signal, is_live, is_status, Db, Query, Outcome, pure, ok}
use nimo_os.Upload.Batches.{mark_item_done_across_batches}
use nimo_os.Upload.Batches.Pending.{
  view, healthy, Report, settles, drops, touches, interrupts, abandons, cleans, exec_run, spec_run,
  exec_run-view,
}
use nimo_os.Upload.Batches.Across.{is_file_of, mark_item_done_across_batches-view}
use nimo_os.Upload.Batches.History.{Call}
use nimo_os.Upload.Throttle.{new_touch_throttle}
use nimo_os.Upload.Events.{HookEvent, new_tus_state, ingested, ingest_failed}
use nimo_os.Upload.Events.Unsettled.{TusEvent, handle_all, standing, handle_all-settles}
use nimo_os.Upload.Events.Throttled.{IsBounded, handle_all-IsBounded}
use nimo_os.Upload.Examples.{sample, sample_db}
use nimo_os.Upload.TaskHandlers.{IsTaskRefused, get_upload, cancel_upload, foreign_task-IsRefused}

abbrev pub second_event : HookEvent
second_event = record {
  id = text "t2";
  size = 7;
  offset = 5;
  storage_path = text "/s/t2";
  metadata = record {
    filename = text "b.jpg";
    target_path = text "/p";
    relative_path = text "b.jpg";
    filetype = text "image/jpeg";
    fingerprint = [];
    batch_id = text "b1";
    client_id = [];
    conflict_policy = text "rename";
    resumed = [];
  };
  user_id = text "1";
  client_meta = [];
}

abbrev events : List TusEvent
events =
    TusEvent.created second_event 300
    ∷ TusEvent.progressed second_event 301
    ∷ TusEvent.called (Call.interrupts (text "b1") 310 signal)
    ∷ TusEvent.finished second_event 320 (ingested (text "/p/b.jpg") false)
    ∷ TusEvent.terminated second_event 330
    ∷ []

-- The ingest of the upload fails.
abbrev failing_events : List TusEvent
failing_events =
    TusEvent.created second_event 300
    ∷ TusEvent.progressed second_event 301
    ∷ TusEvent.finished second_event 320 (ingest_failed (text "disk full"))
    ∷ TusEvent.terminated second_event 330
    ∷ []

handle_all-settles_example :
    ((handle_all failing_events (new_tus_state sample_db)).db.tables.items ≡ sample_db.tables.items)
    × (map standing (handle_all failing_events (new_tus_state sample_db)).db.tables.batches
        ≡ map standing sample_db.tables.batches)
handle_all-settles_example = handle_all-settles failing_events (new_tus_state sample_db) refl

handle_all-IsBounded_example : IsBounded (handle_all events (new_tus_state sample_db))
unfolding new_touch_throttle
handle_all-IsBounded_example =
    handle_all-IsBounded events (new_tus_state sample_db) (omega arith, omega arith)

abbrev reports : List Report
reports =
    touches (text "b1") 300
    ∷ settles (text "b1") (text "b.jpg") 301
    ∷ interrupts (text "b1") 310 signal
    ∷ drops (text "b1") (text "c.jpg" ∷ [])
    ∷ abandons (text "b1")
    ∷ cleans (text "b1")
    ∷ []

exec_run-view_example : view (exec_run reports sample) ≡ spec_run reports (view sample)
exec_run-view_example = exec_run-view reports sample

mark_item_done_across_batches-view_example :
    (u : nimo_os.Upload.Db.Tables) × (mark_item_done_across_batches
        (text "/media/disk/photos")
        (text "b.jpg")
        300
        (healthy sample)
      ≡ (ok tt, healthy u))
    × ((i p : Text)
        → view u i p ≡ (
            view sample i p
            && not (
                any
                  (λ b.
                    is_live b.status
                    && (eqb b.id i
                        && is_file_of
                            (clean (join_path (text "/media/disk/photos") (text "b.jpg")))
                            p
                            b))
                  sample.batches)))
mark_item_done_across_batches-view_example =
    mark_item_done_across_batches-view (text "/media/disk/photos") (text "b.jpg") 300 sample

abbrev cancel_all : Text → ℕ → Query Bool
cancel_all id expires = pure true

foreign_task-IsRefused_example :
    IsTaskRefused (get_upload (text "2") (text "t2")) sample_db
    × IsTaskRefused (cancel_upload cancel_all (text "/s" ∷ []) (text "2") (text "t2") 300) sample_db
unfolding eqb
foreign_task-IsRefused_example =
    foreign_task-IsRefused cancel_all (text "/s" ∷ []) 300 (text "2") (text "t2") sample_db
      ((λ e. refl), tt)
