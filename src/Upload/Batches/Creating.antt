-- ===== src/Upload/Batches/Creating.antt =====
-- Create keeps the counters in agreement with the items.
use nimo_os.Base.{
  ℕ, ◌≤◌, ◌<◌, ◌≡◌, refl, sym, true, false, List, [], ◌∷◌, ◌++◌, arith, Bool-cases, inl, inr, count,
  any, All, All-append, All-weaken, length, count-append, if◌then◌else◌, ltb,
}
use nimo_os.Text.{Text, eqb}
use nimo_os.Text.Laws.{eqb_iff, eqb_refl, eqb→eq, eqb_comm}
use nimo_os.Upload.Db.{active, UploadBatch, UploadBatchItem, Tables, is_status}
use nimo_os.Upload.Db.Rules.{
  Keeps, Keeps-transaction, Commits-pure, Commits-statement, Commits-if, Commits-bind, OnOk,
}
use nimo_os.Upload.Statements.{
  has_id, in_batch, has_duplicate, count_batches, insert_batch, insert_items,
}
use nimo_os.Upload.Batches.Rows.{IsCounted}
use nimo_os.Upload.Batches.Counts.{done_in, append-DistinctKeys}
use nimo_os.Upload.Batches.{create}
use nimo_os.Upload.Batches.Holds.{IsConsistent}

count_none :
    (id : Text) (bs : List UploadBatch) (items : List UploadBatchItem)
    → any (has_id id) bs ≡ false
    → All (λ r. any (has_id r.batch_id) bs ≡ true) items
    → count (in_batch id) items ≡ 0
count_none id bs [] e h = refl
count_none id bs (r ∷ rs) e h = elim (Bool-cases (eqb r.batch_id id)) [
  | inl q ↦ cc (h.0, e, eqb→eq r.batch_id id q)
  | inr q ↦ rw q (omega (arith, count_none id bs rs e h.1))
]

-- The new rows of `create`: all of the new batch, none done, at least one.
pub record IsManifest (b : UploadBatch) (items : List UploadBatchItem) : Type 0 where
  pub fresh : b.status ≡ active
  pub none_done : b.done ≡ 0
  pub total : b.total ≡ length items
  pub some_item : 0 < length items
  pub own : All (λ r. (r.batch_id ≡ b.id) × (r.done ≡ false)) items

count-any :
    (id : Text) (bs : List UploadBatch) → count (has_id id) bs ≡ 0 → any (has_id id) bs ≡ false
count-any id [] e = refl
count-any id (b ∷ bs) e = ground (arith, count-any id bs)

-- The items of a manifest count for its batch and for no other.
count-own :
    (k id : Text) (items : List UploadBatchItem)
    → All (λ r. (r.batch_id ≡ id) × (r.done ≡ false)) items
    → (count (in_batch k) items ≡ (if eqb id k then length items else 0))
      × (count (done_in k) items ≡ 0)
count-own k id [] h = ground arith
count-own k id (r ∷ rs) h = ground (arith, count-own k id rs h.1)

-- Between the two INSERTs of Create the new batch has no items yet.
record IsAdding (b : UploadBatch) (t : Tables) : Type 0 where
  old : List UploadBatch
  appended : t.batches ≡ old ++ b ∷ []
  consistent : IsConsistent (record t { batches = old })
  absent : any (has_id b.id) old ≡ false

insert_items-old :
    (b : UploadBatch) (items new : List UploadBatchItem) (old : List UploadBatch)
    → All (λ r. (r.batch_id ≡ b.id) × (r.done ≡ false)) new
    → any (has_id b.id) old ≡ false
    → All (IsCounted items) old
    → All (IsCounted (items ++ new)) old
insert_items-old b items new [] own absent h = tt
insert_items-old b items new (c ∷ cs) own absent h = (
  ground (
    arith,
    count-append (in_batch c.id) items new,
    count-append (done_in c.id) items new,
    count-own c.id b.id new own,
    eqb_comm b.id c.id,
    h.0,
  ),
  insert_items-old b items new cs own (ground arith) h.1,
)

count_done-le :
    (k : Text) (items : List UploadBatchItem) → count (done_in k) items ≤ count (in_batch k) items
count_done-le k [] = omega arith
count_done-le k (r ∷ rs) = ground (arith, count_done-le k rs)

insert_items-new :
    (b : UploadBatch) (items new : List UploadBatchItem)
    → IsManifest b new
    → count (in_batch b.id) items ≡ 0
    → IsCounted (items ++ new) b
unfolding is_status
insert_items-new b items new m none = ground (
  arith,
  count-append (in_batch b.id) items new,
  count-append (done_in b.id) items new,
  count-own b.id b.id new m.own,
  count_done-le b.id items,
  eqb_refl b.id,
)

any-append_left :
    (k : Text) (bs cs : List UploadBatch)
    → any (has_id k) bs ≡ true
    → any (has_id k) (bs ++ cs) ≡ true
any-append_left k [] cs h = cc
any-append_left k (b ∷ bs) cs h = ground (arith, any-append_left k bs cs)

any-append_last :
    (k : Text) (bs : List UploadBatch) (b : UploadBatch)
    → b.id ≡ k
    → any (has_id k) (bs ++ b ∷ []) ≡ true
any-append_last k [] b h = ground (arith, eqb_iff b.id k)
any-append_last k (c ∷ bs) b h = ground (arith, any-append_last k bs b h)

owned-old :
    (bs cs : List UploadBatch) (items : List UploadBatchItem)
    → All (λ r. any (has_id r.batch_id) bs ≡ true) items
    → All (λ r. any (has_id r.batch_id) (bs ++ cs) ≡ true) items
owned-old bs cs items h = All-weaken _ _ items (λ r k. any-append_left r.batch_id bs cs k) h

owned-new :
    (bs : List UploadBatch) (b : UploadBatch) (new : List UploadBatchItem)
    → All (λ r. (r.batch_id ≡ b.id) × (r.done ≡ false)) new
    → All (λ r. any (has_id r.batch_id) (bs ++ b ∷ []) ≡ true) new
owned-new bs b new h = All-weaken _ _ new (λ r k. any-append_last r.batch_id bs b (sym k.0)) h

insert_items-Holds :
    (b : UploadBatch) (new : List UploadBatchItem) (t : Tables) (old : List UploadBatch)
    → IsManifest b new
    → IsConsistent (record t { batches = old })
    → any (has_id b.id) old ≡ false
    → has_duplicate t.items new ≡ false
    → IsConsistent (record t { batches = old ++ b ∷ []; items = t.items ++ new })
insert_items-Holds b new t old m h absent d = record {
  batches =
      All-append (IsCounted (t.items ++ new)) old (b ∷ [])
        (insert_items-old b t.items new old m.own absent h.batches)
        (insert_items-new b t.items new m (count_none b.id old t.items absent h.owned), tt);
  keys = append-DistinctKeys t.items new h.keys d;
  owned =
      All-append _ t.items new (owned-old old (b ∷ []) t.items h.owned) (owned-new old b new m.own);
}

insert_items-step :
    (b : UploadBatch) (new : List UploadBatchItem)
    → IsManifest b new
    → (t : Tables) → IsAdding b t
    → OnOk (λ _. IsConsistent) (insert_items new t).0 (insert_items new t).1
unfolding insert_items
insert_items-step b new m t h = elim (Bool-cases (has_duplicate t.items new)) [
  | inl e ↦ rw e tt
  | inr e ↦ rw (e, h.appended) (insert_items-Holds b new t h.old m h.consistent h.absent e)
]

insert_batch-step :
    (b : UploadBatch) (t : Tables)
    → IsConsistent t
    → any (has_id b.id) t.batches ≡ false
    → IsAdding b (insert_batch b t).1
unfolding insert_batch
insert_batch-step b t h e = record { old = t.batches; appended = refl; consistent = h; absent = e }

abbrev Absent : Text → ℕ → Tables → Type 0
Absent id n t = IsConsistent t × (n ≡ 0 → any (has_id id) t.batches ≡ false)

pub create-IsConsistent :
    (b : UploadBatch) (new : List UploadBatchItem)
    → IsManifest b new
    → Keeps IsConsistent (create b new)
unfolding create count_batches insert_batch
create-IsConsistent b [] m = absurd (omega (arith, m.some_item))
create-IsConsistent b (r ∷ new) m = Keeps-transaction _ (
    Commits-bind _ (Absent b.id) _ _ _
      (Commits-statement _ _ _ λ t h. (h, count-any b.id t.batches))
      λ n.
        Commits-if _ _ (ltb 0 n) _ _ (λ e. Commits-pure _ _ _ λ t h. h.0)
          λ e.
            Commits-bind _ (λ _. IsAdding b) _ _ _
              (Commits-statement _ _ _ λ t h. insert_batch-step b t h.0 (h.1 (ground arith)))
              λ _. Commits-statement _ _ _ (insert_items-step b (r ∷ new) m))
