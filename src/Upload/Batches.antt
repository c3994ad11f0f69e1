-- ===== src/Upload/Batches.antt =====
-- service/upload/batch_store.go: the manifest of an upload and its reconciliation. A method runs
-- its statements in the order of the source and stops at the first that fails.
pub mod Counts
pub mod Rows
pub mod Holds
pub mod Marking
pub mod Removing
pub mod Creating
pub mod Deleting
pub mod History
pub mod Marked
pub mod Pending
pub mod Across
pub mod Status
use nimo_os.Base.{
  ℕ, zero, suc, Bool, true, false, not, ◌&&◌, ◌||◌, List, [], ◌∷◌, ◌++◌, Option, none, some, length,
  any, first, take, drop, ltb, ◌==◌, if◌then◌else◌,
}
use nimo_os.Text.{Text, eqb, is_empty, has_prefix, drop_prefix, trim_right, before}
use nimo_os.FilePath.{slash, clean, join_path}
use nimo_os.Upload.Db.{
  BatchStatus, active, interrupted, completed, abandoned, InterruptSource, UploadBatch,
  UploadBatchItem, Db, Outcome, ok, err, not_found, Query, statement, pure, fail, ◌>>=◌, ◌>>◌,
  transaction, is_status, is_live,
}
use nimo_os.Upload.Statements.{
  has_id, update_batches, count_batches, insert_batch, insert_items, mark_item, add_done, complete,
  revive, touch, put_status, interrupt, put_cleaned, delete_pending, shrink_total, delete_items,
  delete_batch, find_batches, find_missing,
}

abbrev is_nil {ℓ} : {A : Type ℓ} → List A → Bool
is_nil [] = true
is_nil (x ∷ xs) = false

pub create : UploadBatch → List UploadBatchItem → Query Unit
create b items = transaction (do
  n ← statement (count_batches b.id)
  if ltb 0 n then pure tt else do
    statement (insert_batch b)
    if is_nil items then pure tt else statement (insert_items items))

abbrev pub or_not_found : List UploadBatch → Query UploadBatch
or_not_found [] = fail not_found
or_not_found (b ∷ bs) = pure b

unfoldable pub get : Text → Query UploadBatch
get id = do bs ← statement (find_batches (has_id id)); or_not_found bs

pub missing_items : Text → Query (List UploadBatchItem)
missing_items id = statement (find_missing id)

pub mark_item_done : Text → Text → ℕ → Query Unit
mark_item_done id path now = transaction (do
  affected ← statement (mark_item id path)
  if affected == 0 then pure tt else do
    statement (update_batches (add_done id now))
    statement (update_batches (complete id))
    statement (update_batches (revive id)))

-- One candidate of the loop in MarkItemDoneAcrossBatches.
mark_candidate : Text → ℕ → UploadBatch → Query Unit
mark_candidate completed_abs now b =
    let prefix = trim_right slash (clean b.target_path) ++ slash ∷ [] in
    if not (has_prefix completed_abs prefix)
    then pure tt
    else if is_empty (drop_prefix completed_abs prefix)
    then pure tt
    else mark_item_done b.id (drop_prefix completed_abs prefix) now

mark_candidates : Text → ℕ → List UploadBatch → Query Unit
mark_candidates completed_abs now [] = pure tt
mark_candidates completed_abs now (b ∷ bs) = do
  mark_candidate completed_abs now b
  mark_candidates completed_abs now bs

pub mark_item_done_across_batches : Text → Text → ℕ → Query Unit
mark_item_done_across_batches target_path relative_path now = do
  candidates ← statement (find_batches (λ b. is_live b.status))
  mark_candidates (clean (join_path target_path relative_path)) now candidates

unfoldable pub touch_progress : Text → ℕ → Query Unit
touch_progress id now = statement (update_batches (touch id now))

unfoldable pub set_status : Text → BatchStatus → Query Unit
set_status id s = statement (update_batches (put_status id s))

unfoldable pub set_interrupted : Text → ℕ → InterruptSource → Query Unit
set_interrupted id now source = statement (update_batches (interrupt id now source))

unfoldable pub mark_staging_cleaned : Text → Query Unit
mark_staging_cleaned id = statement (update_batches (put_cleaned id))

unfoldable pub list_by_status : BatchStatus → Query (List UploadBatch)
list_by_status s = statement (find_batches (λ b. is_status b.status s))

abbrev is_broken_of : Text → UploadBatch → Bool
is_broken_of owner b = is_status b.status interrupted && eqb b.owner_user_id owner

-- The Go map from the name of a child entry to a batch id; a key that is there is kept.
abbrev Children : Type 0
Children = List (Text × Text)

abbrev has_child : Text → Children → Bool
has_child child = any (λ kv. eqb kv.0 child)

add_child : Text → Text → Children → Children
add_child child id out =
    if is_empty child then out else if has_child child out then out else out ++ (child, id) ∷ []

add_broken : Text → UploadBatch → List UploadBatchItem → Children → Children
unfolding add_child
add_broken prefix b [] out = out
add_broken prefix b (r ∷ rs) out =
    let full = clean (join_path b.target_path r.relative_path) in
    add_broken prefix b rs (
      if has_prefix full prefix
      then add_child (before slash (drop_prefix full prefix)) b.id out
      else out)

broken_loop : Text → List UploadBatch → Children → Query Children
broken_loop prefix [] out = pure out
broken_loop prefix (b ∷ bs) out = do
  items ← missing_items b.id
  broken_loop prefix bs (add_broken prefix b items out)

pub broken_children : Text → Text → Query Children
broken_children dir owner = do
  batches ← statement (find_batches (is_broken_of owner))
  broken_loop (if eqb (clean dir) (slash ∷ []) then slash ∷ [] else clean dir ++ slash ∷ []) batches
      []

-- The hit test of AbandonInterruptedUnder.
is_hit : Text → UploadBatch → UploadBatchItem → Bool
is_hit path b r =
    let full = clean (join_path b.target_path r.relative_path) in
    eqb full (clean path) || has_prefix full (clean path ++ slash ∷ [])

abandon_loop : Text → List UploadBatch → List Text → Query (List Text)
abandon_loop path [] ids = pure ids
abandon_loop path (b ∷ bs) ids = do
  items ← missing_items b.id
  if not (any (is_hit path b) items)
      then abandon_loop path bs ids
      else do set_status b.id abandoned; abandon_loop path bs (ids ++ b.id ∷ [])

pub abandon_interrupted_under : Text → Text → Query (List Text)
abandon_interrupted_under path owner = do
  batches ← statement (find_batches (is_broken_of owner))
  abandon_loop path batches []

-- One chunk of RemoveItems, in its transaction.
pub remove_chunk : Text → List Text → Query Unit
remove_chunk id paths = transaction (do
  affected ← statement (delete_pending id paths)
  if affected == 0 then pure tt else do
    statement (update_batches (shrink_total id affected))
    statement (update_batches (complete id)))

abbrev pub chunk_size : ℕ
chunk_size = 500

-- The first argument bounds the number of chunks; there are at most as many as paths.
unfoldable pub remove_chunks : ℕ → Text → List Text → Query Unit
remove_chunks zero id paths = pure tt
remove_chunks (suc n) id [] = pure tt
remove_chunks (suc n) id (p ∷ paths) = do
  remove_chunk id (take chunk_size (p ∷ paths))
  remove_chunks n id (drop chunk_size (p ∷ paths))

unfoldable pub remove_items : Text → List Text → Query Unit
remove_items id paths = remove_chunks (length paths) id paths

abbrev is_terminal : UploadBatch → Bool
is_terminal b = is_status b.status completed || is_status b.status abandoned

unfoldable pub delete_one : Text → Query Unit
delete_one id = transaction (do statement (delete_items id); statement (delete_batch id))

unfoldable pub delete_all : List UploadBatch → Query Unit
delete_all [] = pure tt
delete_all (b ∷ bs) = do delete_one b.id; delete_all bs

unfoldable pub delete_terminal : Query ℕ
delete_terminal = do
  terminal ← statement (find_batches is_terminal)
  delete_all terminal
  pure (length terminal)
