-- ===== src/Upload/Tasks.antt =====
-- service/upload/store.go: the rows of the resumable upload tasks.
use nimo_os.Base.{ℕ, Bool, true, false, ◌&&◌, List, [], ◌∷◌, ◌++◌, select, leb, ltb}
use nimo_os.Text.{Text, eqb}
use nimo_os.Upload.Db.{
  TaskStatus, uploading, paused, failed, UploadTask, Tables, Outcome, ok, not_found, Query,
  statement, pure, fail, ◌>>=◌, update_where, delete_where,
}

abbrev has_task_id : Text → UploadTask → Bool
has_task_id id t = eqb t.id id

-- uploading, paused or failed
abbrev pub is_unfinished : TaskStatus → Bool
is_unfinished uploading = true
is_unfinished paused = true
is_unfinished failed = true
is_unfinished _ = false

abbrev find_tasks : (UploadTask → Bool) → Tables → Outcome (List UploadTask) × Tables
find_tasks p t = (ok (select p t.tasks), t)

abbrev update_tasks :
    (UploadTask → Bool) → (UploadTask → UploadTask) → Tables → Outcome Unit × Tables
update_tasks p f t = (ok tt, record t { tasks = update_where p f t.tasks })

unfoldable pub create : UploadTask → Query Unit
create task = statement λ t. (ok tt, record t { tasks = t.tasks ++ task ∷ [] })

abbrev pub or_not_found : List UploadTask → Query UploadTask
or_not_found [] = fail not_found
or_not_found (t ∷ ts) = pure t

unfoldable pub get : Text → Query UploadTask
get id = do ts ← statement (find_tasks (has_task_id id)); or_not_found ts

-- The order `created_at desc` of ListActiveByOwner is not kept: a task has no creation time here.
unfoldable pub list_active_by_owner : Text → Query (List UploadTask)
list_active_by_owner owner =
    statement (find_tasks λ t. eqb t.owner_user_id owner && is_unfinished t.status)

unfoldable pub list_due_for_gc : ℕ → Query (List UploadTask)
list_due_for_gc now = statement (find_tasks λ t. ltb 0 t.expires_at && leb t.expires_at now)

unfoldable pub update_offset : Text → ℕ → ℕ → Query Unit
update_offset id offset expires_at = statement (
    update_tasks (has_task_id id)
      λ t. record t { uploaded_offset = offset; expires_at = expires_at })

unfoldable pub set_status : Text → TaskStatus → ℕ → Query Unit
set_status id status expires_at =
    statement
      (update_tasks (has_task_id id) λ t. record t { status = status; expires_at = expires_at })

unfoldable pub set_failed : Text → Text → ℕ → ℕ → Query Unit
set_failed id message last_error_at expires_at = statement (
    update_tasks (has_task_id id) λ t. record t {
      status = failed;
      error = message;
      last_error_at = last_error_at;
      expires_at = expires_at;
    })

unfoldable pub delete : Text → Query Unit
delete id = statement λ t. (ok tt, record t { tasks = delete_where (has_task_id id) t.tasks })

unfoldable pub list_unfinished_by_batch : Text → Query (List UploadTask)
list_unfinished_by_batch batch_id =
    statement (find_tasks λ t. eqb t.batch_id batch_id && is_unfinished t.status)
