-- ===== src/Upload/Handlers.antt =====
-- route/v2/upload_batches.go: the HTTP handlers of the batches.
--
-- Echo is a parameter in its results: the body that Bind reads is `none` where Bind fails, the
-- header user_id and the path parameter id are arguments. `cancel` is Cancel of
-- NimoOS-Common/upload. A handler answers with the response and with what os.Remove is called on.
pub mod Keeping
pub mod Ownership
use nimo_os.Base.{
  ℕ, ◌+◌, Bool, true, false, not, ◌&&◌, ◌||◌, List, [], ◌∷◌, ◌++◌, Option, none, some, any, length,
  if◌then◌else◌,
}
use nimo_os.Text.{Text, eqb, is_empty, contains, has_prefix, text}
use nimo_os.FilePath.{slash, dotdot, clean}
use nimo_os.Upload.Db.{
  BatchStatus, active, abandoned, completed, unset, signal, UploadBatch, UploadBatchItem, Db,
  Outcome, ok, err, StoreError, not_found, statement_failed, duplicate_key, Query, pure, ◌>>=◌,
  ◌>>◌, is_status,
}
use nimo_os.Upload.Tasks.{list_unfinished_by_batch}
use nimo_os.Upload.Batches.{
  create, get, missing_items, set_interrupted, set_status, mark_staging_cleaned,
  abandon_interrupted_under, remove_items,
}
use nimo_os.Upload.Sweeper.{ignore, cancel_loop, upload_canceled_ttl_seconds}

pub data Response : Type 0 where
  created : Text → Response
  batch_with_missing : UploadBatch → List UploadBatchItem → Response
  interrupted : Bool → Response
  abandoned_one : Bool → Response
  abandoned_many : ℕ → Response
  removed : Response
  http_error : ℕ → Response

pub record Reply : Type 0 where
  pub response : Response
  pub removed_files : List Text

abbrev pub reply : Response → Query Reply
reply r = pure (record { response = r; removed_files = [] })

-- What a handler does with the error of a store call.
abbrev pub catch : {A : Type 0} → Query A → (Outcome A → Query Reply) → Query Reply
catch m handle db = let (r, db') = m db in handle r db'

abbrev or_500 : {A : Type 0} → (A → Query Reply) → Outcome A → Query Reply
or_500 f (ok a) = f a
or_500 f (err e) = reply (http_error 500)

pub record CreateBatchItem : Type 0 where
  pub relative_path : Text
  pub size : ℕ

pub record CreateBatchReq : Type 0 where
  pub id : Text
  pub target_path : Text
  pub items : List CreateBatchItem

-- relativePath must not be empty, a traversal or absolute.
unfoldable pub is_bad_path : Text → Bool
is_bad_path p = is_empty p || contains p dotdot || has_prefix p (slash ∷ [])

unfoldable pub item_rows : Text → List CreateBatchItem → Option (List UploadBatchItem)
item_rows id [] = some []
item_rows id (it ∷ its) = if is_bad_path it.relative_path then none else elim (item_rows id its) [
  | none ↦ none
  | some rows ↦ some (
      record { batch_id = id; relative_path = it.relative_path; size = it.size; done = false }
      ∷ rows)
]

-- The row of a new batch, with the columns that gorm fills in.
unfoldable pub new_batch : Text → ℕ → CreateBatchReq → ℕ → UploadBatch
new_batch user_id now req total = record {
  id = req.id;
  owner_user_id = user_id;
  target_path = clean req.target_path;
  status = active;
  total = total;
  done = 0;
  last_progress_at = now;
  interrupted_at = 0;
  interrupt_source = unset;
  staging_cleaned = false;
  created_at = now;
}

create_from : Text → ℕ → CreateBatchReq → Option (List UploadBatchItem) → Query Reply
create_from user_id now req none = reply (http_error 400)
create_from user_id now req (some rows) =
    catch (create (new_batch user_id now req (length rows)) rows)
      (or_500 λ _. reply (created req.id))

abbrev has_no_items : List CreateBatchItem → Bool
has_no_items [] = true
has_no_items (it ∷ its) = false

create_parsed : Text → ℕ → CreateBatchReq → Query Reply
create_parsed user_id now req =
    if is_empty req.id || is_empty req.target_path || has_no_items req.items
    then reply (http_error 400)
    else if not (has_prefix req.target_path (slash ∷ []))
    then reply (http_error 400)
    else create_from user_id now req (item_rows req.id req.items)

pub create_upload_batch : Text → ℕ → Option CreateBatchReq → Query Reply
create_upload_batch user_id now none = reply (http_error 400)
create_upload_batch user_id now (some req) = create_parsed user_id now req

-- getOwnedBatch, and the handler's rest where it returns a batch.
owned_or : Text → (UploadBatch → Query Reply) → Outcome UploadBatch → Query Reply
owned_or user_id rest (ok b) =
    if eqb b.owner_user_id user_id then rest b else reply (http_error 404)
owned_or user_id rest (err not_found) = reply (http_error 404)
owned_or user_id rest (err statement_failed) = reply (http_error 500)
owned_or user_id rest (err duplicate_key) = reply (http_error 500)

with_owned_batch : Text → Text → (UploadBatch → Query Reply) → Query Reply
with_owned_batch user_id id rest = catch (get id) (owned_or user_id rest)

pub get_upload_batch : Text → Text → Query Reply
get_upload_batch user_id id =
    with_owned_batch user_id id
      λ b. catch (missing_items b.id) (or_500 λ missing. reply (batch_with_missing b missing))

module _ (cancel : Text → ℕ → Query Unit) (dirs : List Text) where
  -- An error of the query ends it, an error of Cancel is dropped.
  cancel_found : ℕ → (List Text → Query Reply) → Outcome (List Text) → Query Reply
  cancel_found now rest (ok files) = rest files
  cancel_found now rest (err e) = rest []

  cancel_batch_tasks : Text → ℕ → (List Text → Query Reply) → Query Reply
  cancel_batch_tasks id now rest =
      catch
        (do
          list ← list_unfinished_by_batch id
          cancel_loop cancel dirs (now + upload_canceled_ttl_seconds) list)
        (cancel_found now rest)

  pub interrupt_upload_batch : Text → Text → ℕ → Query Reply
  interrupt_upload_batch user_id id now = with_owned_batch user_id id λ b.
      if not (is_status b.status active)
      then reply (interrupted false)
      else catch (set_interrupted b.id now signal) (
          or_500 λ _. cancel_batch_tasks b.id now λ files. do
            ignore (mark_staging_cleaned b.id)
            pure (record { response = interrupted true; removed_files = files }))

  pub abandon_upload_batch : Text → Text → ℕ → Query Reply
  abandon_upload_batch user_id id now = with_owned_batch user_id id λ b.
      if is_status b.status abandoned || is_status b.status completed
      then reply (abandoned_one false)
      else catch (set_status b.id abandoned) (
          or_500 λ _.
            cancel_batch_tasks b.id now
              λ files. pure (record { response = abandoned_one true; removed_files = files }))

  cancel_each : ℕ → ℕ → List Text → List Text → Query Reply
  cancel_each n now [] files = pure (record { response = abandoned_many n; removed_files = files })
  cancel_each n now (id ∷ ids) files =
      cancel_batch_tasks id now λ more. cancel_each n now ids (files ++ more)

  abandon_under : Text → Text → ℕ → Query Reply
  abandon_under user_id path now =
      if not (has_prefix path (slash ∷ []))
      then reply (http_error 400)
      else catch (abandon_interrupted_under path user_id)
          (or_500 λ ids. cancel_each (length ids) now ids [])

  pub abandon_upload_batches_under : Text → Option Text → ℕ → Query Reply
  abandon_upload_batches_under user_id none now = reply (http_error 400)
  abandon_upload_batches_under user_id (some path) now = abandon_under user_id path now

abbrev has_no_paths : List Text → Bool
has_no_paths [] = true
has_no_paths (p ∷ ps) = false

remove_from : UploadBatch → Option (List Text) → Query Reply
remove_from b none = reply (http_error 400)
remove_from b (some paths) =
    if has_no_paths paths
    then reply (http_error 400)
    else if any is_bad_path paths
    then reply (http_error 400)
    else catch (remove_items b.id paths) (or_500 λ _. reply removed)

pub remove_upload_batch_items : Text → Text → Option (List Text) → Query Reply
remove_upload_batch_items user_id id body = with_owned_batch user_id id λ b. remove_from b body
