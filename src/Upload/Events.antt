-- ===== src/Upload/Events.antt =====
-- service/upload/hook.go, and the goroutines of NewFileTUSHandler in route/v2/tus_file.go that take
-- up the events of tusd: an upload is created, progresses, is terminated or is complete.
--
-- A goroutine handles its events one by one; the events of all four are one sequence here. The keys
-- of the metadata that are not there are empty. `client_meta` is the JSON text of the header
-- User-Agent and of the remote address.
pub mod Unsettled
pub mod Throttled
pub mod Ingest
pub mod Settling
pub mod Examples
use nimo_os.Base.{ℕ, ◌+◌, Bool, true, false, not, ◌&&◌, List, [], ◌∷◌, if◌then◌else◌}
use nimo_os.Text.{Text, eqb, is_empty, text}
use nimo_os.FilePath.{join_path}
use nimo_os.Upload.Db.{TaskStatus, uploading, canceled, completed, UploadTask, Db, Outcome, Query}
use nimo_os.Upload.Tasks.{create, update_offset, set_status, set_failed}
use nimo_os.Upload.Throttle.{TouchThrottle, new_touch_throttle, allow}
use nimo_os.Upload.Batches.{mark_item_done, mark_item_done_across_batches, touch_progress}
use nimo_os.Upload.Sweeper.{upload_canceled_ttl_seconds}

pub record MetaData : Type 0 where
  pub filename : Text
  pub target_path : Text
  pub relative_path : Text
  pub filetype : Text
  pub fingerprint : Text
  pub batch_id : Text
  pub client_id : Text
  pub conflict_policy : Text
  pub resumed : Text

pub record HookEvent : Type 0 where
  pub id : Text
  pub size : ℕ
  pub offset : ℕ
  pub storage_path : Text
  pub metadata : MetaData
  pub user_id : Text
  pub client_meta : Text

abbrev pub upload_idle_timeout_seconds : ℕ
upload_idle_timeout_seconds = 21600

-- The relative path, or the name of the file where there is none.
abbrev pub path_of_event : HookEvent → Text
path_of_event ev =
    if is_empty ev.metadata.relative_path then ev.metadata.filename else ev.metadata.relative_path

abbrev pub new_task_from_hook : HookEvent → ℕ → UploadTask
new_task_from_hook ev now = record {
  id = ev.id;
  owner_user_id = ev.user_id;
  filename = ev.metadata.filename;
  target_path = ev.metadata.target_path;
  relative_path = path_of_event ev;
  size = ev.size;
  mime = ev.metadata.filetype;
  fingerprint = ev.metadata.fingerprint;
  batch_id = ev.metadata.batch_id;
  client_id = ev.metadata.client_id;
  client_meta = ev.client_meta;
  status = uploading;
  uploaded_offset = 0;
  error = [];
  last_error_at = 0;
  expires_at = now + upload_idle_timeout_seconds;
}

-- The throttles of the second goroutine, and the database.
pub record TusState : Type 0 where
  pub offset_throttle : TouchThrottle
  pub progress_throttle : TouchThrottle
  pub db : Db

abbrev pub new_tus_state : Db → TusState
new_tus_state db = record {
  offset_throttle = new_touch_throttle 5;
  progress_throttle = new_touch_throttle 5;
  db = db;
}

-- `_ = f()`: the database behind a call whose error is dropped or only logged.
abbrev pub after_call : {A : Type 0} → Query A → TusState → TusState
after_call m s = record s { db = (m s.db).1 }

unfoldable pub on_created : HookEvent → ℕ → TusState → TusState
unfolding create
on_created ev now s = after_call (create (new_task_from_hook ev now)) s

-- The offset of the task.
unfoldable pub write_offset : HookEvent → ℕ → TusState → TusState
unfolding allow update_offset
write_offset ev now s =
    let r = allow s.offset_throttle ev.id now in
    let s' = record s { offset_throttle = r.1 } in
    if r.0
    then after_call (update_offset ev.id ev.offset (now + upload_idle_timeout_seconds)) s'
    else s'

-- The progress of the batch.
unfoldable pub write_progress : HookEvent → ℕ → TusState → TusState
unfolding allow
write_progress ev now s =
    let r = allow s.progress_throttle ev.metadata.batch_id now in
    let s' = record s { progress_throttle = r.1 } in
    if is_empty ev.metadata.batch_id
    then s
    else if r.0
    then after_call (touch_progress ev.metadata.batch_id now) s'
    else s'

unfoldable pub on_progress : HookEvent → ℕ → TusState → TusState
unfolding write_offset write_progress
on_progress ev now s = write_progress ev now (write_offset ev now s)

unfoldable pub on_terminated : HookEvent → ℕ → TusState → TusState
unfolding set_status
on_terminated ev now s =
    after_call (set_status ev.id canceled (now + upload_canceled_ttl_seconds)) s

-- What ingestToTargetWithPolicy comes back with.
pub data Ingested : Type 0 where
  ingest_failed : Text → Ingested
  ingested : Text → Bool → Ingested

unfoldable pub reconcile : HookEvent → ℕ → TusState → TusState
reconcile ev now s =
    let s' =
      if is_empty ev.metadata.batch_id
      then s
      else after_call (mark_item_done ev.metadata.batch_id (path_of_event ev) now) s in
    after_call (mark_item_done_across_batches ev.metadata.target_path (path_of_event ev) now) s'

-- The fourth goroutine behind the ingest.
unfoldable pub on_complete : HookEvent → ℕ → Ingested → TusState → TusState
unfolding set_failed set_status reconcile
on_complete ev now (ingest_failed message) s =
    after_call (set_failed ev.id message now (now + upload_canceled_ttl_seconds)) s
on_complete ev now (ingested dest skipped) s =
    reconcile ev now (after_call (set_status ev.id completed 0) s)

-- The policy that the file is ingested with.
abbrev pub policy_of_event : HookEvent → Text
policy_of_event ev =
    if is_empty ev.metadata.conflict_policy && eqb ev.metadata.resumed (text "1")
    then text "overwrite"
    else ev.metadata.conflict_policy

-- The staged file.
abbrev pub staged_path : Text → HookEvent → Text
staged_path staging_dir ev =
    if is_empty ev.storage_path then join_path staging_dir ev.id else ev.storage_path
