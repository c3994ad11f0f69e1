-- ===== src/Upload/Batches/Deleting.antt =====
-- DeleteTerminal keeps the counters in agreement with the items.
use nimo_os.Base.{
  ◌≡◌, refl, sym, ◌∙◌, Bool, true, false, not, List, [], ◌∷◌, arith, Bool-cases, inl, inr, count,
  any, All, All-weaken,
}
use nimo_os.Text.{Text, eqb}
use nimo_os.Text.Laws.{eqb_iff}
use nimo_os.Upload.Db.{UploadBatch, UploadBatchItem, Tables, delete_where}
use nimo_os.Upload.Db.Rules.{
  Keeps, Keeps-pure, Keeps-transaction, Keeps-bind, Commits-statement, Commits-bind,
}
use nimo_os.Upload.Statements.{has_id, in_batch, delete_items, delete_batch}
use nimo_os.Upload.Batches.Rows.{IsCounted}
use nimo_os.Upload.Batches.Counts.{done_in, DistinctKeys, select-DistinctKeys}
use nimo_os.Upload.Batches.{delete_one, delete_all, delete_terminal}
use nimo_os.Upload.Batches.Holds.{IsConsistent, find_batches-Keeps}

-- Deleting the items of a batch leaves the others as they were.
count_delete :
    (k id : Text) (p : UploadBatchItem → Bool) (items : List UploadBatchItem)
    → eqb k id ≡ false
    → ((r : UploadBatchItem) → p r ≡ true → eqb r.batch_id k ≡ true)
    → count p (delete_where (in_batch id) items) ≡ count p items
count_delete k id p [] e own = refl
count_delete k id p (r ∷ rs) e own =
    ground (arith, count_delete k id p rs e own, own r, eqb_iff r.batch_id k, eqb_iff r.batch_id id)

-- Between the two DELETEs every batch but the deleted one is counted.
abbrev OrDeleted : Text → List UploadBatchItem → UploadBatch → Type 0
OrDeleted id items b = (eqb b.id id ≡ false → IsCounted items b)

record IsClearing (id : Text) (t : Tables) : Type 0 where
  batches : All (OrDeleted id t.items) t.batches
  keys : DistinctKeys t.items
  owned :
      All (λ r. (any (has_id r.batch_id) t.batches ≡ true) × (eqb r.batch_id id ≡ false)) t.items

delete_items-row :
    (id : Text) (items : List UploadBatchItem) (b : UploadBatch)
    → IsCounted items b
    → OrDeleted id (delete_where (in_batch id) items) b
delete_items-row id items b h e =
    let all = count_delete b.id id (in_batch b.id) items e (λ r p. p) in
    let done = count_delete b.id id (done_in b.id) items e (λ r p. ground arith) in
    record {
      total = h.total ∙ sym all;
      done = h.done ∙ sym done;
      fits = h.fits;
      waits = h.waits;
      finished = h.finished;
    }

delete_items-owned :
    (id : Text) (bs : List UploadBatch) (items : List UploadBatchItem)
    → All (λ r. any (has_id r.batch_id) bs ≡ true) items
    → All
        (λ r. (any (has_id r.batch_id) bs ≡ true) × (eqb r.batch_id id ≡ false))
        (delete_where (in_batch id) items)
delete_items-owned id bs [] h = tt
delete_items-owned id bs (r ∷ rs) h = elim (Bool-cases (eqb r.batch_id id)) [
  | inl e ↦ rw e (delete_items-owned id bs rs h.1)
  | inr e ↦ rw e ((h.0, e), delete_items-owned id bs rs h.1)
]

delete_items-step : (id : Text) (t : Tables) → IsConsistent t → IsClearing id (delete_items id t).1
unfolding delete_items
delete_items-step id t h = record {
  batches =
      All-weaken (IsCounted t.items) (OrDeleted id (delete_where (in_batch id) t.items)) t.batches
        (delete_items-row id t.items) h.batches;
  keys = select-DistinctKeys (λ r. not (in_batch id r)) t.items h.keys;
  owned = delete_items-owned id t.batches t.items h.owned;
}

delete_batch-rows :
    (id : Text) (items : List UploadBatchItem) (bs : List UploadBatch)
    → All (OrDeleted id items) bs
    → All (IsCounted items) (delete_where (has_id id) bs)
delete_batch-rows id items [] h = tt
delete_batch-rows id items (b ∷ bs) h = elim (Bool-cases (eqb b.id id)) [
  | inl e ↦ rw e (delete_batch-rows id items bs h.1)
  | inr e ↦ rw e (h.0 e, delete_batch-rows id items bs h.1)
]

any-delete_batch :
    (k id : Text) (bs : List UploadBatch)
    → eqb k id ≡ false
    → any (has_id k) (delete_where (has_id id) bs) ≡ any (has_id k) bs
any-delete_batch k id [] e = refl
any-delete_batch k id (b ∷ bs) e =
    ground (arith, any-delete_batch k id bs e, eqb_iff b.id k, eqb_iff b.id id)

delete_batch-step : (id : Text) (t : Tables) → IsClearing id t → IsConsistent (delete_batch id t).1
unfolding delete_batch
delete_batch-step id t h = record {
  batches = delete_batch-rows id t.items t.batches h.batches;
  keys = h.keys;
  owned =
      All-weaken _ _ t.items (λ r k. any-delete_batch r.batch_id id t.batches k.1 ∙ k.0) h.owned;
}

delete_one-IsConsistent : (id : Text) → Keeps IsConsistent (delete_one id)
unfolding delete_one delete_items delete_batch
delete_one-IsConsistent id = Keeps-transaction _ (
    Commits-bind _ (λ _. IsClearing id) _ _ _ (Commits-statement _ _ _ (delete_items-step id))
      λ _. Commits-statement _ _ _ (delete_batch-step id))

delete_all-IsConsistent : (bs : List UploadBatch) → Keeps IsConsistent (delete_all bs)
unfolding delete_all
delete_all-IsConsistent [] = Keeps-pure tt
delete_all-IsConsistent (b ∷ bs) =
    Keeps-bind _ _ (delete_one-IsConsistent b.id) λ _. delete_all-IsConsistent bs

pub delete_terminal-IsConsistent : Keeps IsConsistent delete_terminal
unfolding delete_terminal
delete_terminal-IsConsistent =
    Keeps-bind _ _ (find_batches-Keeps _)
      λ bs. Keeps-bind _ _ (delete_all-IsConsistent bs) λ _. Keeps-pure _
