-- ===== src/OpQueue/Guarded.antt =====
-- The contexts of the tasks in every state that the goroutines can reach.
use nimo_os.Base.{ℕ, ◌≡◌, refl, ◌||◌, Option, none, some, Bool-cases, inl, inr}
use nimo_os.Text.{Text, eqb, elem}
use nimo_os.OpQueue.{
  FileOperate, OpQueue, file_operate_fingerprint, enqueue_op, dequeue_op, release_fingerprint,
  cancel_all_ops, clear_queue, begin_run, end_run, mark_op_finished, cancel_op, cancel_known,
  cancel_loaded, release_queue_slot_locked, store_file_progress, store_progress, op_finished,
  is_known, clear_ops,
}
use nimo_os.Maps.{lookup, remove}
use nimo_os.OpQueue.Steps.{Step, IsReachable}
use nimo_os.OpQueue.Cancelling.{
  IsGuarded, empty-IsGuarded, admit-IsGuarded, retire-IsGuarded, cancel-IsGuarded, signal-IsGuarded,
  clear-IsGuarded,
}

unfoldable pub IsGuardedQueue : OpQueue → Type 0
IsGuardedQueue q = IsGuarded q.ids q.ctx_of q.cancel_of q.cancelled

enqueue_op-IsGuarded :
    (id : Text) (t : FileOperate) (q : OpQueue)
    → IsGuardedQueue q
    → IsGuardedQueue (enqueue_op id t q).0
unfolding enqueue_op IsGuardedQueue
enqueue_op-IsGuarded id t q h =
    elim (Bool-cases (elem (file_operate_fingerprint t) q.active_fingerprints)) [
      | inl e ↦ rw e h
      | inr e ↦ rw e (admit-IsGuarded q.ids q.ctx_of q.cancel_of q.cancelled h id q.next_ctx)
    ]

dequeue_op-IsGuarded :
    (id : Text) (q : OpQueue) → IsGuardedQueue q → IsGuardedQueue (dequeue_op id q)
unfolding dequeue_op IsGuardedQueue release_fingerprint
dequeue_op-IsGuarded id q h = retire (lookup id q.fingerprint_of) refl
  where
    retire : (o : Option Text) → lookup id q.fingerprint_of ≡ o → IsGuardedQueue (dequeue_op id q)
    retire none e = rw e (retire-IsGuarded q.ids q.ctx_of q.cancel_of q.cancelled h id)
    retire (some fp) e = rw e (retire-IsGuarded q.ids q.ctx_of q.cancel_of q.cancelled h id)

-- The fields that the removal of a task's slot leaves as they are.
pub release-fields :
    (id : Text) (q : OpQueue)
    → ((release_queue_slot_locked id q).ids ≡ remove id q.ids)
      × ((release_queue_slot_locked id q).ctx_of ≡ q.ctx_of)
      × ((release_queue_slot_locked id q).cancel_of ≡ q.cancel_of)
      × ((release_queue_slot_locked id q).cancelled ≡ q.cancelled)
unfolding release_queue_slot_locked release_fingerprint
release-fields id q = fields (lookup id q.fingerprint_of)
  where
    fields :
        (o : Option Text)
        → ((release_fingerprint id o (record q { ids = remove id q.ids })).ids ≡ remove id q.ids)
          × ((release_fingerprint id o (record q { ids = remove id q.ids })).ctx_of ≡ q.ctx_of)
          × ((release_fingerprint id o (record q { ids = remove id q.ids })).cancel_of
              ≡ q.cancel_of)
          × ((release_fingerprint id o (record q { ids = remove id q.ids })).cancelled
              ≡ q.cancelled)
    fields none = (refl, refl, refl, refl)
    fields (some fp) = (refl, refl, refl, refl)

cancel_known-IsGuarded :
    (id : Text) (c : ℕ) (q : OpQueue)
    → IsGuardedQueue q
    → lookup id q.cancel_of ≡ some c
    → IsGuardedQueue (cancel_known id (some c) q)
unfolding cancel_known IsGuardedQueue
cancel_known-IsGuarded id c q h own = elim (Bool-cases (eqb q.running id)) [
  | inl e ↦ rw e (signal-IsGuarded q.ids q.ctx_of q.cancel_of q.cancelled h c)
  | inr e ↦
      let (i, x, n, d) = release-fields id q in
      rw (e, i, x, n, d) (cancel-IsGuarded q.ids q.ctx_of q.cancel_of q.cancelled h id c own)
]

cancel_op-IsGuarded : (id : Text) (q : OpQueue) → IsGuardedQueue q → IsGuardedQueue (cancel_op id q)
unfolding cancel_op IsGuardedQueue cancel_known cancel_loaded
cancel_op-IsGuarded id q h = loaded (lookup id q.file_queue)
  where
    known : (o : Option ℕ) → lookup id q.cancel_of ≡ o → IsGuardedQueue (cancel_known id o q)
    known none e = h
    known (some c) e = cancel_known-IsGuarded id c q h e

    loaded : (o : Option FileOperate) → IsGuardedQueue (cancel_loaded id o q)
    loaded none = h
    loaded (some t) = elim (Bool-cases t.finished) [
      | inl e ↦ rw e h
      | inr e ↦ elim (Bool-cases (op_finished id q)) [
        | inl f ↦ rw (e, f) h
        | inr f ↦ rw (e, f) (known (lookup id q.cancel_of) refl)
      ]
    ]

begin_run-IsGuarded :
    (id : Text) (q : OpQueue) → IsGuardedQueue q → IsGuardedQueue (begin_run id q).0
unfolding begin_run IsGuardedQueue
begin_run-IsGuarded id q h = elim (Bool-cases (eqb q.running id)) [
  | inl e ↦ rw e h
  | inr e ↦ rw e h
]

end_run-IsGuarded : (id : Text) (q : OpQueue) → IsGuardedQueue q → IsGuardedQueue (end_run id q)
unfolding end_run IsGuardedQueue
end_run-IsGuarded id q h = elim (Bool-cases (eqb q.running id)) [ inl e ↦ rw e h | inr e ↦ rw e h ]

mark_op_finished-IsGuarded :
    (id : Text) (q : OpQueue) → IsGuardedQueue q → IsGuardedQueue (mark_op_finished id q)
unfolding mark_op_finished IsGuardedQueue
mark_op_finished-IsGuarded id q h = elim (Bool-cases (is_known (lookup id q.file_queue))) [
  | inl e ↦ rw e h
  | inr e ↦ rw e h
]

store-IsGuarded :
    (id : Text) (t : FileOperate) (loaded asked q : OpQueue)
    → IsGuardedQueue q
    → IsGuardedQueue (store_file_progress id t loaded asked q)
unfolding store_file_progress IsGuardedQueue store_progress
store-IsGuarded id t loaded asked q h = stored (lookup id loaded.file_queue)
  where
    stored : (o : Option FileOperate) → IsGuardedQueue (store_progress id t o asked q)
    stored none = h
    stored (some c) = elim (Bool-cases (c.finished || c.cancelled || op_finished id asked)) [
      | inl e ↦ rw e h
      | inr e ↦ rw e h
    ]

step-IsGuarded : (p q : OpQueue) → Step p q → IsGuardedQueue p → IsGuardedQueue q
unfolding cancel_all_ops clear_queue clear_ops IsGuardedQueue
step-IsGuarded _ _ (Step.enqueue id t p fresh) h = enqueue_op-IsGuarded id t p h
step-IsGuarded _ _ (Step.dequeue id p) h = dequeue_op-IsGuarded id p h
step-IsGuarded _ _ (Step.cancel id p) h = cancel_op-IsGuarded id p h
step-IsGuarded _ _ (Step.cancel_all p) h = clear-IsGuarded p.ids p.ctx_of p.cancel_of p.cancelled h
step-IsGuarded _ _ (Step.begin id p) h = begin_run-IsGuarded id p h
step-IsGuarded _ _ (Step.end id p) h = end_run-IsGuarded id p h
step-IsGuarded _ _ (Step.mark_finished id p) h = mark_op_finished-IsGuarded id p h
step-IsGuarded _ _ (Step.store id t loaded asked p) h = store-IsGuarded id t loaded asked p h
step-IsGuarded _ _ (Step.write_files files p) h = h

pub reachable-IsGuarded : (q : OpQueue) → IsReachable q → IsGuardedQueue q
unfolding IsGuardedQueue
reachable-IsGuarded _ IsReachable.start = empty-IsGuarded
reachable-IsGuarded _ (IsReachable.step p q r s) = step-IsGuarded p q s (reachable-IsGuarded p r)
