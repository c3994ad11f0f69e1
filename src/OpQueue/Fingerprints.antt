-- ===== src/OpQueue/Fingerprints.antt =====
-- Which fingerprints are taken, in every state the queue can reach.
use nimo_os.Base.{
  ℕ, ◌≡◌, refl, true, false, List, [], ◌∷◌, ◌++◌, Option, none, some, arith, Bool-cases, inl, inr,
}
use nimo_os.Text.{Text, eqb, elem}
use nimo_os.Text.Laws.{eqb_iff, eqb_refl}
use nimo_os.OpQueue.{
  FileOperate, OpQueue, file_operate_fingerprint, enqueue_op, release_fingerprint,
  release_queue_slot_locked, dequeue_op, cancel_op, cancel_known, cancel_loaded, op_finished,
}
use nimo_os.Maps.{Map, lookup, delete, put, remove}
use nimo_os.OpQueue.Steps.{IsFresh}
use nimo_os.Maps.Laws.{lookup-delete, lookup-put, elem-remove, elem-append}

-- The three fields that change together: `ids`, `fingerprint_of` and `active_fingerprints`.
pub record IsTracked (ids : List Text) (of : Map Text) (active : List Text) : Type 0 where
  pub unique : (i j fp : Text) → lookup i of ≡ some fp → lookup j of ≡ some fp → i ≡ j
  pub held : (i fp : Text) → lookup i of ≡ some fp → elem fp active ≡ true
  pub holder : (fp : Text) → elem fp active ≡ true → (i : Text) × (lookup i of ≡ some fp)
  pub queued : (i fp : Text) → lookup i of ≡ some fp → elem i ids ≡ true
  pub named : (i : Text) → elem i ids ≡ true → (fp : Text) × (lookup i of ≡ some fp)

pub empty-IsTracked : IsTracked [] [] []
unfolding lookup elem
empty-IsTracked = record {
  unique = λ i j fp h k. cc;
  held = λ i fp h. cc;
  holder = λ fp h. cc;
  queued = λ i fp h. cc;
  named = λ i h. cc;
}

module _ (ids : List Text) (of : Map Text) (active : List Text) (h : IsTracked ids of active)
    (id fp : Text) where
  admit-IsTracked :
      lookup id of ≡ none
      → elem fp active ≡ false
      → IsTracked (ids ++ id ∷ []) (put id fp of) (fp ∷ active)
  unfolding elem
  admit-IsTracked fresh free = record {
    unique = λ i j f a b. ground (
      arith,
      lookup-put i id fp of,
      lookup-put j id fp of,
      eqb_iff id i,
      eqb_iff id j,
      h.unique i j f,
      h.held i f,
      h.held j f,
    );
    held = λ i f a.
        ground (arith, lookup-put i id fp of, eqb_iff id i, h.held i f, eqb_iff fp f, eqb_refl f);
    holder = λ f a. elim (Bool-cases (eqb fp f)) [
      | inl e ↦ (id, ground (arith, lookup-put id id fp of, eqb_refl id, eqb_iff fp f))
      | inr e ↦
          let (i, k) = h.holder f (ground arith) in
          (i, ground (arith, lookup-put i id fp of, eqb_iff id i))
    ];
    queued = λ i f a. ground (
      arith,
      lookup-put i id fp of,
      eqb_iff id i,
      h.queued i f,
      elem-append i ids (id ∷ []),
      eqb_refl i,
    );
    named = λ i a. elim (Bool-cases (eqb id i)) [
      | inl e ↦ (fp, ground (arith, lookup-put i id fp of))
      | inr e ↦
          let (f, k) = h.named i (ground (arith, elem-append i ids (id ∷ []))) in
          (f, ground (arith, lookup-put i id fp of))
    ];
  }

  retire-IsTracked :
      lookup id of ≡ some fp → IsTracked (remove id ids) (delete id of) (remove fp active)
  retire-IsTracked own = record {
    unique =
        λ i j f a b. ground (arith, lookup-delete i id of, lookup-delete j id of, h.unique i j f);
    held = λ i f a. ground (
      arith,
      lookup-delete i id of,
      eqb_iff id i,
      h.held i f,
      elem-remove f fp active,
      eqb_iff fp f,
      h.unique i id f,
    );
    holder = λ f a.
        let (i, k) = h.holder f (ground (arith, elem-remove f fp active)) in
        (
          i,
          ground (arith, lookup-delete i id of, eqb_iff id i, elem-remove f fp active, eqb_refl f),
        );
    queued = λ i f a. ground (arith, lookup-delete i id of, h.queued i f, elem-remove i id ids);
    named = λ i a.
        let (f, k) = h.named i (ground (arith, elem-remove i id ids)) in
        (f, ground (arith, lookup-delete i id of, elem-remove i id ids));
  }

  forget-IsTracked : lookup id of ≡ none → IsTracked (remove id ids) of active
  forget-IsTracked gone = record {
    unique = h.unique;
    held = h.held;
    holder = h.holder;
    queued = λ i f a. ground (arith, h.queued i f a, elem-remove i id ids, eqb_iff id i);
    named = λ i a. h.named i (ground (arith, elem-remove i id ids));
  }

unfoldable pub IsTrackedQueue : OpQueue → Type 0
IsTrackedQueue q = IsTracked q.ids q.fingerprint_of q.active_fingerprints

pub enqueue_op-IsTracked :
    (id : Text) (t : FileOperate) (q : OpQueue)
    → IsFresh id q
    → IsTrackedQueue q
    → IsTrackedQueue (enqueue_op id t q).0
unfolding enqueue_op IsTrackedQueue
enqueue_op-IsTracked id t q fresh h =
    elim (Bool-cases (elem (file_operate_fingerprint t) q.active_fingerprints)) [
      | inl e ↦ rw e h
      | inr e ↦ rw e (
          admit-IsTracked q.ids q.fingerprint_of q.active_fingerprints h id
            (file_operate_fingerprint t) fresh.no_fingerprint e)
    ]

pub dequeue_op-IsTracked :
    (id : Text) (q : OpQueue) → IsTrackedQueue q → IsTrackedQueue (dequeue_op id q)
unfolding dequeue_op IsTrackedQueue release_fingerprint
dequeue_op-IsTracked id q h = retire (lookup id q.fingerprint_of) refl
  where
    retire :
        (o : Option Text)
        → lookup id q.fingerprint_of ≡ o
        → IsTrackedQueue (release_fingerprint id o (record q { ids = remove id q.ids }))
    retire none e = forget-IsTracked q.ids q.fingerprint_of q.active_fingerprints h id [] e
    retire (some fp) e = retire-IsTracked q.ids q.fingerprint_of q.active_fingerprints h id fp e

release-IsTracked :
    (id : Text) (q : OpQueue) → IsTrackedQueue q → IsTrackedQueue (release_queue_slot_locked id q)
unfolding release_queue_slot_locked IsTrackedQueue dequeue_op
release-IsTracked id q h = dequeue_op-IsTracked id q h

pub cancel_op-IsTracked :
    (id : Text) (q : OpQueue) → IsTrackedQueue q → IsTrackedQueue (cancel_op id q)
unfolding cancel_op IsTrackedQueue cancel_known cancel_loaded release_queue_slot_locked
cancel_op-IsTracked id q h = loaded (lookup id q.file_queue)
  where
    known : (o : Option ℕ) → IsTrackedQueue (cancel_known id o q)
    known none = h
    known (some c) = elim (Bool-cases (eqb q.running id)) [
      | inl e ↦ rw e h
      | inr e ↦ rw e (release-IsTracked id q h)
    ]

    loaded : (o : Option FileOperate) → IsTrackedQueue (cancel_loaded id o q)
    loaded none = h
    loaded (some t) = elim (Bool-cases t.finished) [
      | inl e ↦ rw e h
      | inr e ↦ elim (Bool-cases (op_finished id q)) [
        | inl f ↦ rw (e, f) h
        | inr f ↦ rw (e, f) (known (lookup id q.cancel_of))
      ]
    ]
