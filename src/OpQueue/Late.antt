-- ===== src/OpQueue/Late.antt =====
-- What a goroutine gets from beginRun when its task was cancelled or has left the queue before.
use nimo_os.Base.{ℕ, ◌≡◌, refl, true, false, Option, none, some, arith, Bool-cases, inl, inr}
use nimo_os.Text.{Text, eqb, elem}
use nimo_os.Text.Laws.{eqb_refl}
use nimo_os.OpQueue.{
  FileOperate, OpQueue, begin_run, cancel_op, cancel_known, cancel_loaded, op_finished, task,
  is_cancelled, context_of,
}
use nimo_os.Maps.{lookup}
use nimo_os.Maps.Laws.{elem-remove}
use nimo_os.OpQueue.Steps.{IsReachable}
use nimo_os.OpQueue.Cancelling.{IsGuarded}
use nimo_os.OpQueue.Guarded.{IsGuardedQueue, reachable-IsGuarded, release-fields}

-- In every state that whole calls reach in any order, a goroutine whose task has left the queue never
-- gets a live context from beginRun: what it gets of the queue's contexts is cancelled.
pub begin_run-late :
    (id : Text) (c : ℕ) (q : OpQueue)
    → IsReachable q
    → elem id q.ids ≡ false
    → (begin_run id q).1 ≡ some (task c)
    → is_cancelled (task c) q ≡ true
unfolding begin_run IsGuardedQueue
begin_run-late id c q r gone got = elim (Bool-cases (eqb q.running id)) [
  | inl e ↦ ground arith
  | inr e ↦ found (lookup id q.ctx_of) refl (ground arith)
]
  where
    guarded : IsGuarded q.ids q.ctx_of q.cancel_of q.cancelled
    guarded = reachable-IsGuarded q r

    found :
        (o : Option ℕ)
        → lookup id q.ctx_of ≡ o
        → some (context_of o) ≡ some (task c)
        → is_cancelled (task c) q ≡ true
    found none e k = ground arith
    found (some d) e k = ground (arith, guarded.left id d e gone)

-- In every reachable state, CancelOp of a queued task that has not finished cancels the context
-- under which the task runs or would run, whether it has started or not: that context stays in the
-- map, and a task that has not started is taken out of the queue.
pub cancel_op-begin_run :
    (id : Text) (t : FileOperate) (q : OpQueue)
    → IsReachable q
    → elem id q.ids ≡ true
    → lookup id q.file_queue ≡ some t
    → t.finished ≡ false
    → op_finished id q ≡ false
    → ((c : ℕ) × (lookup id (cancel_op id q).ctx_of ≡ some c)
        × (is_cancelled (task c) (cancel_op id q) ≡ true))
      × (elem id (cancel_op id q).ids ≡ eqb q.running id)
unfolding cancel_op cancel_loaded cancel_known IsGuardedQueue
cancel_op-begin_run id t q r queued file live unmarked =
    let (c, own) = guarded.queued id queued in
    rw (file, live, unmarked, guarded.same id, own) (running c own)
  where
    guarded : IsGuarded q.ids q.ctx_of q.cancel_of q.cancelled
    guarded = reachable-IsGuarded q r

    running :
        (c : ℕ)
        → lookup id q.ctx_of ≡ some c
        → ((d : ℕ) × (lookup id (cancel_known id (some c) q).ctx_of ≡ some d)
            × (is_cancelled (task d) (cancel_known id (some c) q) ≡ true))
          × (elem id (cancel_known id (some c) q).ids ≡ eqb q.running id)
    running c own = elim (Bool-cases (eqb q.running id)) [
      | inl e ↦ rw e ((c, own, ground arith), queued)
      | inr e ↦
          let (i, x, n, d) = release-fields id q in
          rw (e, i, x, d)
            ((c, own, ground arith), ground (arith, elem-remove id id q.ids, eqb_refl id))
    ]
