-- ===== src/Upload/Batches/Rows.antt =====
-- What each statement makes of the row of a batch, against the items that it counts.
use nimo_os.Base.{ℕ, ◌⊎◌, ◌+◌, ◌≤◌, ◌<◌, ◌≡◌, ◌≢◌, true, List, arith, count, if◌then◌else◌}
use nimo_os.Text.{Text, eqb}
use nimo_os.Text.Laws.{eqb_iff}
use nimo_os.Upload.Db.{
  BatchStatus, completed, abandoned, InterruptSource, UploadBatch, UploadBatchItem, is_live,
  is_status, delete_where,
}
use nimo_os.Upload.Statements.{
  in_batch, is_pending, is_dropped, add_done, complete, revive, touch, put_status, interrupt,
  put_cleaned, shrink_total,
}
use nimo_os.Upload.Batches.Counts.{
  done_in, marked, count-in_batch-marked, count_done-marked, done-pending-le,
  count-in_batch-dropped, count_done-dropped, done-dropped-le,
}

-- The counters of a batch count its items; a live batch waits for some item; a completed batch has
-- all its items.
pub record IsCounted (items : List UploadBatchItem) (b : UploadBatch) : Type 0 where
  pub total : b.total ≡ count (in_batch b.id) items
  pub done : b.done ≡ count (done_in b.id) items
  pub fits : b.done ≤ b.total
  pub waits : is_live b.status ≡ true → b.done < b.total
  pub finished : is_status b.status completed ≡ true → b.done ≡ b.total

-- Between the statements of MarkItemDone and RemoveItems, for the batch `id`.
-- One of its items is done that its counter does not count yet.
pub record IsBehind (id : Text) (items : List UploadBatchItem) (b : UploadBatch) : Type 0 where
  pub total : b.total ≡ count (in_batch b.id) items
  pub done : b.done + (if eqb b.id id then 1 else 0) ≡ count (done_in b.id) items
  pub fits : b.done ≤ b.total
  pub waits : is_live b.status ≡ true → b.done < b.total
  pub finished : is_status b.status completed ≡ true → b.done ≡ b.total
  pub room : eqb b.id id ≡ true → b.done < b.total

-- Its counter may have reached the total.
pub record IsSettling (id : Text) (items : List UploadBatchItem) (b : UploadBatch) : Type 0 where
  pub total : b.total ≡ count (in_batch b.id) items
  pub done : b.done ≡ count (done_in b.id) items
  pub waits : is_live b.status ≡ true → (eqb b.id id ≡ true) ⊎ (b.done < b.total)
  pub room : b.done ≤ b.total
  pub finished : is_status b.status completed ≡ true → b.done ≡ b.total

-- Its total is over by the number of the items just deleted.
pub record IsOver (id : Text) (n : ℕ) (items : List UploadBatchItem) (b : UploadBatch)
    : Type 0 where
  pub total : b.total ≡ count (in_batch b.id) items + (if eqb b.id id then n else 0)
  pub done : b.done ≡ count (done_in b.id) items
  pub waits : is_live b.status ≡ true → b.done < b.total
  pub finished : is_status b.status completed ≡ true → b.done ≡ b.total
  pub room : b.done + (if eqb b.id id then n else 0) ≤ b.total

pub mark_item-row :
    (id path : Text) (items : List UploadBatchItem)
    → count (is_pending id path) items ≡ 1
    → (b : UploadBatch) → IsCounted items b
    → IsBehind id (marked id path items) b
mark_item-row id path items one b h = ground (
  arith,
  count-in_batch-marked id path b.id items,
  count_done-marked id path b.id items,
  done-pending-le id path items,
  eqb_iff id b.id,
  eqb_iff b.id id,
)

pub mark_item-row_none :
    (id path : Text) (items : List UploadBatchItem)
    → count (is_pending id path) items ≡ 0
    → (b : UploadBatch) → IsCounted items b
    → IsCounted (marked id path items) b
mark_item-row_none id path items one b h =
    ground (arith, count-in_batch-marked id path b.id items, count_done-marked id path b.id items)

pub add_done-row :
    (id : Text) (now : ℕ) (items : List UploadBatchItem) (b : UploadBatch)
    → IsBehind id items b
    → IsSettling id items (add_done id now b)
unfolding add_done
add_done-row id now items b h = ground arith

pub complete-row :
    (id : Text) (items : List UploadBatchItem) (b : UploadBatch)
    → IsSettling id items b
    → IsCounted items (complete id b)
unfolding complete is_status
complete-row id items b h = ground arith

pub delete_pending-row :
    (id : Text) (paths : List Text) (items : List UploadBatchItem) (b : UploadBatch)
    → IsCounted items b
    → IsOver id (count (is_dropped id paths) items) (delete_where (is_dropped id paths) items) b
delete_pending-row id paths items b h = ground (
  arith,
  count-in_batch-dropped id paths b.id items,
  count_done-dropped id paths b.id items,
  done-dropped-le id paths items,
  eqb_iff id b.id,
  eqb_iff b.id id,
)

pub shrink_total-row :
    (id : Text) (n : ℕ) (items : List UploadBatchItem) (b : UploadBatch)
    → n ≢ 0
    → IsOver id n items b
    → IsSettling id items (shrink_total id n b)
unfolding shrink_total
shrink_total-row id n items b e h = ground arith

pub IsOver-zero :
    (id : Text) (items : List UploadBatchItem) (b : UploadBatch)
    → IsOver id 0 items b
    → IsCounted items b
IsOver-zero id items b h = ground arith

-- Updates of a batch that keep it counted.
module _ (items : List UploadBatchItem) (b : UploadBatch) (h : IsCounted items b) where
  pub revive-row : (id : Text) → IsCounted items (revive id b)
  unfolding revive
  revive-row id = ground arith

  pub touch-row : (id : Text) (now : ℕ) → IsCounted items (touch id now b)
  unfolding touch
  touch-row id now = ground arith

  pub interrupt-row :
      (id : Text) (now : ℕ) (source : InterruptSource) → IsCounted items (interrupt id now source b)
  unfolding interrupt
  interrupt-row id now source = ground arith

  pub abandon-row : (id : Text) → IsCounted items (put_status id abandoned b)
  unfolding put_status is_status
  abandon-row id = ground arith

  pub put_cleaned-row : (id : Text) → IsCounted items (put_cleaned id b)
  unfolding put_cleaned
  put_cleaned-row id = ground arith

-- No update changes the id of a batch.
module _ (id : Text) (b : UploadBatch) where
  pub id-add_done : (now : ℕ) → (add_done id now b).id ≡ b.id
  unfolding add_done
  id-add_done now = ground arith

  pub id-complete : (complete id b).id ≡ b.id
  unfolding complete
  id-complete = ground arith

  pub id-revive : (revive id b).id ≡ b.id
  unfolding revive
  id-revive = ground arith

  pub id-touch : (now : ℕ) → (touch id now b).id ≡ b.id
  unfolding touch
  id-touch now = ground arith

  pub id-interrupt : (now : ℕ) (source : InterruptSource) → (interrupt id now source b).id ≡ b.id
  unfolding interrupt
  id-interrupt now source = ground arith

  pub id-put_status : (s : BatchStatus) → (put_status id s b).id ≡ b.id
  unfolding put_status
  id-put_status s = ground arith

  pub id-put_cleaned : (put_cleaned id b).id ≡ b.id
  unfolding put_cleaned
  id-put_cleaned = ground arith

  pub id-shrink_total : (n : ℕ) → (shrink_total id n b).id ≡ b.id
  unfolding shrink_total
  id-shrink_total n = ground arith
