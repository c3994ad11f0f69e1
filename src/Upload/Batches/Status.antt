-- ===== src/Upload/Batches/Status.antt =====
-- The state machine of a batch, row by row.
use nimo_os.Base.{ℕ, ◌≡◌, Bool, true, false, not, arith, leb}
use nimo_os.Text.{Text}
use nimo_os.Upload.Db.{
  BatchStatus, active, interrupted, completed, abandoned, InterruptSource, UploadBatch,
}
use nimo_os.Upload.Statements.{add_done, complete, revive, touch, interrupt, is_signal}

-- The arrows that the comment of batch.go draws, without the one to `abandoned`: a live batch
-- completes once no item is missing, an active one may be interrupted, and an interrupted one may
-- become active again unless a signal interrupted it.
abbrev pub arrow : BatchStatus → BatchStatus → UploadBatch → UploadBatch → Bool
arrow active active b c = true
arrow active interrupted b c = true
arrow active completed b c = leb c.total c.done
arrow active abandoned b c = false
arrow interrupted active b c = not (is_signal b.interrupt_source)
arrow interrupted interrupted b c = true
arrow interrupted completed b c = leb c.total c.done
arrow interrupted abandoned b c = false
arrow completed completed b c = true
arrow completed _ b c = false
arrow abandoned abandoned b c = true
arrow abandoned _ b c = false

abbrev pub may_move : UploadBatch → UploadBatch → Bool
may_move b c = arrow b.status c.status b c

-- What MarkItemDone makes of a row, TouchProgress and SetInterrupted follow the arrows: so a batch
-- that a window-close signal interrupted stays interrupted, or completes, and a completed or an
-- abandoned one stays so.
pub rows_follow_arrows :
    (id : Text) (now : ℕ) (source : InterruptSource) (b : UploadBatch)
    → (may_move b (revive id (complete id (add_done id now b))) ≡ true)
      × (may_move b (touch id now b) ≡ true)
      × (may_move b (interrupt id now source b) ≡ true)
unfolding revive complete add_done touch interrupt
rows_follow_arrows id now source b = (ground arith, ground arith, ground arith)
