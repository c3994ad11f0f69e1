-- ===== src/OpQueue/Steps.antt =====
-- The queue through the calls of the goroutines that use it, in any order. A step is one call, run
-- to its end: no other call comes between the unlock and the cancel function in CancelOp, or between
-- the two critical sections of CancelAllOps. A task's enqueue, its dispatch, its beginRun and its
-- cancellation are separate steps.
use nimo_os.Base.{◌≡◌, none}
use nimo_os.Text.{Text}
use nimo_os.OpQueue.{
  FileOperate, OpQueue, empty_queue, mark_op_finished, enqueue_op, dequeue_op, begin_run, end_run,
  cancel_op, cancel_all_ops, store_file_progress,
}
use nimo_os.Maps.{Map, lookup}

-- A new task has a new uuid: the maps do not have it.
pub record IsFresh (id : Text) (q : OpQueue) : Type 0 where
  pub no_fingerprint : lookup id q.fingerprint_of ≡ none
  pub no_context : lookup id q.ctx_of ≡ none

pub data Step : OpQueue → OpQueue → Type 0 where
  enqueue :
      (id : Text) (t : FileOperate) (q : OpQueue) → IsFresh id q → Step q (enqueue_op id t q).0
  dequeue : (id : Text) (q : OpQueue) → Step q (dequeue_op id q)
  cancel : (id : Text) (q : OpQueue) → Step q (cancel_op id q)
  cancel_all : (q : OpQueue) → Step q (cancel_all_ops q)
  begin : (id : Text) (q : OpQueue) → Step q (begin_run id q).0
  end : (id : Text) (q : OpQueue) → Step q (end_run id q)
  mark_finished : (id : Text) (q : OpQueue) → Step q (mark_op_finished id q)
  -- `loaded` and `asked` are the states of the first two moments, whichever they were.
  store :
      (id : Text) (t : FileOperate) (loaded asked q : OpQueue)
      → Step q (store_file_progress id t loaded asked q)
  -- FileQueue is a sync.Map outside the lock: the poller deletes from it and FileOperate stores the
  -- outcome of a task in it, at any time.
  write_files : (files : Map FileOperate) (q : OpQueue) → Step q (record q { file_queue = files })

pub data IsReachable : OpQueue → Type 0 where
  start : IsReachable empty_queue
  step : (p q : OpQueue) → IsReachable p → Step p q → IsReachable q
