-- ===== src/Upload/Statements.antt =====
-- The statements of service/upload/batch_store.go, each a function on the tables with what the
-- program reads of its answer: the rows found, or the number of rows affected.
--
-- The INSERT of the items in batches of 500 is one statement here: inside the transaction a
-- failure of any of them undoes all.
use nimo_os.Base.{
  ℕ, ◌+◌, ◌-◌, Bool, true, false, not, ◌&&◌, ◌||◌, List, [], ◌∷◌, ◌++◌, map, count, select, any,
  leb, ltb, ◌==◌, if◌then◌else◌,
}
use nimo_os.Text.{Text, eqb, elem}
use nimo_os.Upload.Db.{
  BatchStatus, active, interrupted, completed, InterruptSource, unset, signal, timeout, UploadBatch,
  UploadBatchItem, Tables, Outcome, ok, err, duplicate_key, update_where, delete_where, is_status,
  is_live,
}

abbrev pub has_id : Text → UploadBatch → Bool
has_id id b = eqb b.id id

abbrev pub in_batch : Text → UploadBatchItem → Bool
in_batch id r = eqb r.batch_id id

-- The unique index uq_batch_rel.
abbrev pub same_key : UploadBatchItem → UploadBatchItem → Bool
same_key a b = eqb a.batch_id b.batch_id && eqb a.relative_path b.relative_path

abbrev pub has_duplicate : List UploadBatchItem → List UploadBatchItem → Bool
has_duplicate rows [] = false
has_duplicate rows (r ∷ new) =
    any (same_key r) rows || any (same_key r) new || has_duplicate rows new

unfoldable pub count_batches : Text → Tables → Outcome ℕ × Tables
count_batches id t = (ok (count (has_id id) t.batches), t)

unfoldable pub insert_batch : UploadBatch → Tables → Outcome Unit × Tables
insert_batch b t = (ok tt, record t { batches = t.batches ++ b ∷ [] })

unfoldable pub insert_items : List UploadBatchItem → Tables → Outcome Unit × Tables
insert_items new t =
    if has_duplicate t.items new
    then (err duplicate_key, t)
    else (ok tt, record t { items = t.items ++ new })

-- batch_id = ? AND relative_path = ? AND done = false
abbrev pub is_pending : Text → Text → UploadBatchItem → Bool
is_pending id path r = eqb r.batch_id id && eqb r.relative_path path && not r.done

unfoldable pub mark_item : Text → Text → Tables → Outcome ℕ × Tables
mark_item id path t = (
  ok (count (is_pending id path) t.items),
  record t { items = update_where (is_pending id path) (λ r. record r { done = true }) t.items },
)

-- An UPDATE of the batches, given by what it makes of each row.
abbrev pub update_batches : (UploadBatch → UploadBatch) → Tables → Outcome Unit × Tables
update_batches row t = (ok tt, record t { batches = map row t.batches })

unfoldable pub add_done : Text → ℕ → UploadBatch → UploadBatch
add_done id now b =
    if has_id id b then record b { done = b.done + 1; last_progress_at = now } else b

unfoldable pub complete : Text → UploadBatch → UploadBatch
complete id b =
    if has_id id b && leb b.total b.done && is_live b.status
    then record b { status = completed }
    else b

abbrev pub is_signal : InterruptSource → Bool
is_signal unset = false
is_signal signal = true
is_signal timeout = false

unfoldable pub revive : Text → UploadBatch → UploadBatch
unfolding is_status
revive id b =
    if has_id id b
      && is_status b.status interrupted
      && ltb b.done b.total
      && not (is_signal b.interrupt_source)
    then record b { status = active; interrupt_source = unset }
    else b

-- status = active OR (status = interrupted AND interrupt_source <> signal)
unfoldable pub may_progress : UploadBatch → Bool
unfolding is_status
may_progress b =
    is_status b.status active
    || (is_status b.status interrupted && not (is_signal b.interrupt_source))

unfoldable pub touch : Text → ℕ → UploadBatch → UploadBatch
unfolding may_progress
touch id now b =
    if has_id id b && may_progress b
    then record b { status = active; last_progress_at = now; interrupt_source = unset }
    else b

unfoldable pub put_status : Text → BatchStatus → UploadBatch → UploadBatch
put_status id s b = if has_id id b then record b { status = s } else b

unfoldable pub interrupt : Text → ℕ → InterruptSource → UploadBatch → UploadBatch
unfolding is_status
interrupt id now source b =
    if has_id id b && is_status b.status active
    then record b {
      status = interrupted;
      interrupted_at = now;
      staging_cleaned = false;
      interrupt_source = source;
    }
    else b

unfoldable pub put_cleaned : Text → UploadBatch → UploadBatch
put_cleaned id b = if has_id id b then record b { staging_cleaned = true } else b

-- batch_id = ? AND done = false AND relative_path IN ?
abbrev pub is_dropped : Text → List Text → UploadBatchItem → Bool
is_dropped id paths r = eqb r.batch_id id && not r.done && elem r.relative_path paths

unfoldable pub delete_pending : Text → List Text → Tables → Outcome ℕ × Tables
delete_pending id paths t = (
  ok (count (is_dropped id paths) t.items),
  record t { items = delete_where (is_dropped id paths) t.items },
)

-- `total - ?`; the rows just deleted are among the total, so the difference is no less than 0.
unfoldable pub shrink_total : Text → ℕ → UploadBatch → UploadBatch
shrink_total id n b = if has_id id b then record b { total = b.total - n } else b

unfoldable pub delete_items : Text → Tables → Outcome Unit × Tables
delete_items id t = (ok tt, record t { items = delete_where (in_batch id) t.items })

unfoldable pub delete_batch : Text → Tables → Outcome Unit × Tables
delete_batch id t = (ok tt, record t { batches = delete_where (has_id id) t.batches })

unfoldable pub find_batches : (UploadBatch → Bool) → Tables → Outcome (List UploadBatch) × Tables
find_batches p t = (ok (select p t.batches), t)

-- relative_path asc, by bytes
pub path_le : Text → Text → Bool
path_le [] t = true
path_le (c ∷ s) [] = false
path_le (c ∷ s) (d ∷ t) = ltb c d || (c == d && path_le s t)

insert_sorted : UploadBatchItem → List UploadBatchItem → List UploadBatchItem
insert_sorted r [] = r ∷ []
insert_sorted r (x ∷ xs) =
    if path_le r.relative_path x.relative_path then r ∷ x ∷ xs else x ∷ insert_sorted r xs

order_by_path : List UploadBatchItem → List UploadBatchItem
order_by_path [] = []
order_by_path (r ∷ rs) = insert_sorted r (order_by_path rs)

unfoldable pub find_missing : Text → Tables → Outcome (List UploadBatchItem) × Tables
unfolding path_le insert_sorted order_by_path
find_missing id t = (ok (order_by_path (select (λ r. in_batch id r && not r.done) t.items)), t)
