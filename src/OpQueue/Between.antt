-- ===== src/OpQueue/Between.antt =====
-- What may come between the two critical sections of CancelAllOps, service/file.go.
use nimo_os.Base.{◌≡◌, refl, false, some}
use nimo_os.Text.{Text, eqb, elem}
use nimo_os.Text.Laws.{eqb_refl}
use nimo_os.Maps.{lookup}
use nimo_os.Maps.Laws.{lookup-put}
use nimo_os.OpQueue.{
  FileOperate, OpQueue, task, file_operate_fingerprint, enqueue_op, begin_run, clear_ops,
  clear_queue, cancel_contexts, cancel_op, cancel_loaded, is_cancelled,
}

-- A task that EnqueueOp admits between the two critical sections of CancelAllOps, and that starts
-- before the second one, runs on under a live context behind it: it has left the queue, and CancelOp
-- of it changes nothing. The context that EnqueueOp makes is none of those that were cancelled.
pub clear_queue-orphans :
    (id : Text) (t : FileOperate) (q : OpQueue)
    → elem (file_operate_fingerprint t) q.active_fingerprints ≡ false
    → eqb q.running id ≡ false
    → is_cancelled (task q.next_ctx) (cancel_contexts q) ≡ false
    → let admitted = (enqueue_op id t (cancel_contexts q)).0 in
      let started = begin_run id admitted in
      let cleared = clear_queue started.0 in
      (started.1 ≡ some (task q.next_ctx))
      × (elem id cleared.ids ≡ false)
      × (cancel_op id cleared ≡ cleared)
      × (is_cancelled (task q.next_ctx) cleared ≡ false)
unfolding enqueue_op begin_run clear_queue clear_ops cancel_op cancel_loaded lookup elem
clear_queue-orphans id t q new other live =
    rw (new, other, lookup-put id id q.next_ctx q.ctx_of, eqb_refl id) (refl, refl, refl, live)
