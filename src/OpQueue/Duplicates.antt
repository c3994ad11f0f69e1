-- ===== src/OpQueue/Duplicates.antt =====
-- The duplicate check of EnqueueOp in every state that the goroutines can reach.
use nimo_os.Base.{◌≡◌, refl, ◌↔◌, true, ◌||◌, Option, none, some, arith, Bool-cases, inl, inr}
use nimo_os.Text.{Text, eqb, elem}
use nimo_os.OpQueue.{
  FileOperate, OpQueue, file_operate_fingerprint, enqueue_op, cancel_all_ops, clear_queue,
  begin_run, end_run, mark_op_finished, store_file_progress, store_progress, op_finished, is_known,
  clear_ops,
}
use nimo_os.Maps.{lookup}
use nimo_os.OpQueue.Steps.{Step, IsReachable}
use nimo_os.OpQueue.Fingerprints.{
  IsTracked, IsTrackedQueue, empty-IsTracked, enqueue_op-IsTracked, dequeue_op-IsTracked,
  cancel_op-IsTracked,
}

begin_run-IsTracked :
    (id : Text) (q : OpQueue) → IsTrackedQueue q → IsTrackedQueue (begin_run id q).0
unfolding begin_run IsTrackedQueue
begin_run-IsTracked id q h = elim (Bool-cases (eqb q.running id)) [
  | inl e ↦ rw e h
  | inr e ↦ rw e h
]

end_run-IsTracked : (id : Text) (q : OpQueue) → IsTrackedQueue q → IsTrackedQueue (end_run id q)
unfolding end_run IsTrackedQueue
end_run-IsTracked id q h = elim (Bool-cases (eqb q.running id)) [ inl e ↦ rw e h | inr e ↦ rw e h ]

mark_op_finished-IsTracked :
    (id : Text) (q : OpQueue) → IsTrackedQueue q → IsTrackedQueue (mark_op_finished id q)
unfolding mark_op_finished IsTrackedQueue
mark_op_finished-IsTracked id q h = elim (Bool-cases (is_known (lookup id q.file_queue))) [
  | inl e ↦ rw e h
  | inr e ↦ rw e h
]

store-IsTracked :
    (id : Text) (t : FileOperate) (loaded asked q : OpQueue)
    → IsTrackedQueue q
    → IsTrackedQueue (store_file_progress id t loaded asked q)
unfolding store_file_progress IsTrackedQueue store_progress
store-IsTracked id t loaded asked q h = stored (lookup id loaded.file_queue)
  where
    stored : (o : Option FileOperate) → IsTrackedQueue (store_progress id t o asked q)
    stored none = h
    stored (some c) = elim (Bool-cases (c.finished || c.cancelled || op_finished id asked)) [
      | inl e ↦ rw e h
      | inr e ↦ rw e h
    ]

step-IsTracked : (p q : OpQueue) → Step p q → IsTrackedQueue p → IsTrackedQueue q
unfolding cancel_all_ops clear_queue clear_ops IsTrackedQueue
step-IsTracked _ _ (Step.enqueue id t p fresh) h = enqueue_op-IsTracked id t p fresh h
step-IsTracked _ _ (Step.dequeue id p) h = dequeue_op-IsTracked id p h
step-IsTracked _ _ (Step.cancel id p) h = cancel_op-IsTracked id p h
step-IsTracked _ _ (Step.cancel_all p) h = empty-IsTracked
step-IsTracked _ _ (Step.begin id p) h = begin_run-IsTracked id p h
step-IsTracked _ _ (Step.end id p) h = end_run-IsTracked id p h
step-IsTracked _ _ (Step.mark_finished id p) h = mark_op_finished-IsTracked id p h
step-IsTracked _ _ (Step.store id t loaded asked p) h = store-IsTracked id t loaded asked p h
step-IsTracked _ _ (Step.write_files files p) h = h

-- In every state that whole calls reach in any order, the ids in the queue are the ids that have a
-- fingerprint, the active fingerprints are the fingerprints of these ids, and no two of these ids
-- have the same.
pub reachable-IsTracked : (q : OpQueue) → IsReachable q → IsTrackedQueue q
unfolding IsTrackedQueue
reachable-IsTracked _ IsReachable.start = empty-IsTracked
reachable-IsTracked _ (IsReachable.step p q r s) = step-IsTracked p q s (reachable-IsTracked p r)

-- In every reachable state, EnqueueOp reports a duplicate exactly when a task in the queue was
-- admitted under the fingerprint of the new one.
pub duplicate_iff :
    (id : Text) (t : FileOperate) (q : OpQueue)
    → IsReachable q
    → ((enqueue_op id t q).2 ≡ true) ↔ (
        (i : Text) × (elem i q.ids ≡ true)
        × (lookup i q.fingerprint_of ≡ some (file_operate_fingerprint t)))
unfolding enqueue_op IsTrackedQueue
duplicate_iff id t q r = (forward, backward)
  where
    tracked : IsTracked q.ids q.fingerprint_of q.active_fingerprints
    tracked = reachable-IsTracked q r

    forward :
        (enqueue_op id t q).2 ≡ true
        → (i : Text) × (elem i q.ids ≡ true)
          × (lookup i q.fingerprint_of ≡ some (file_operate_fingerprint t))
    forward h =
        let (i, k) = tracked.holder (file_operate_fingerprint t) (ground arith) in
        (i, tracked.queued i (file_operate_fingerprint t) k, k)

    backward :
        ((i : Text) × (elem i q.ids ≡ true)
          × (lookup i q.fingerprint_of ≡ some (file_operate_fingerprint t)))
        → (enqueue_op id t q).2 ≡ true
    backward (i, e, k) = rw (tracked.held i (file_operate_fingerprint t) k) refl
