-- ===== src/Upload/Batches/Counts.antt =====
-- Counting the items of a batch before and after a statement.
use nimo_os.Base.{
  ◌+◌, ◌≤◌, ◌≡◌, refl, Bool, true, false, ◌&&◌, List, [], ◌∷◌, ◌++◌, arith, count, any,
  if◌then◌else◌, select,
}
use nimo_os.Text.{Text, eqb}
use nimo_os.Text.Laws.{eqb_iff, eqb_comm}
use nimo_os.Upload.Db.{UploadBatchItem, update_where, delete_where}
use nimo_os.Upload.Statements.{in_batch, same_key, has_duplicate, is_pending, is_dropped}

abbrev pub done_in : Text → UploadBatchItem → Bool
done_in id r = in_batch id r && r.done

abbrev pub DistinctKeys : List UploadBatchItem → Type 0
DistinctKeys [] = Unit
DistinctKeys (r ∷ rs) = (any (same_key r) rs ≡ false) × DistinctKeys rs

abbrev pub set_done : UploadBatchItem → UploadBatchItem
set_done r = record r { done = true }

abbrev pub marked : Text → Text → List UploadBatchItem → List UploadBatchItem
marked id path = update_where (is_pending id path) set_done

module _ (id path : Text) where
  pub count-in_batch-marked :
      (k : Text) (items : List UploadBatchItem)
      → count (in_batch k) (marked id path items) ≡ count (in_batch k) items
  count-in_batch-marked k [] = refl
  count-in_batch-marked k (r ∷ rs) = ground (arith, count-in_batch-marked k rs)

  pub count_done-marked :
      (k : Text) (items : List UploadBatchItem)
      → count (done_in k) (marked id path items)
        ≡ count (done_in k) items + (if eqb id k then count (is_pending id path) items else 0)
  count_done-marked k [] = ground arith
  count_done-marked k (r ∷ rs) =
      ground
        (arith, count_done-marked k rs, eqb_iff r.batch_id id, eqb_iff r.batch_id k, eqb_iff id k)

  pub done-pending-le :
      (items : List UploadBatchItem)
      → count (done_in id) items + count (is_pending id path) items ≤ count (in_batch id) items
  done-pending-le [] = omega arith
  done-pending-le (r ∷ rs) = ground (arith, done-pending-le rs)

  -- Of an item with this key no other row can be pending too.
  no_other_pending :
      (r : UploadBatchItem) (items : List UploadBatchItem)
      → is_pending id path r ≡ true
      → any (same_key r) items ≡ false
      → count (is_pending id path) items ≡ 0
  no_other_pending r [] p h = refl
  no_other_pending r (x ∷ xs) p h = ground (
    arith,
    no_other_pending r xs p,
    eqb_iff r.batch_id id,
    eqb_iff r.relative_path path,
    eqb_iff r.batch_id x.batch_id,
    eqb_iff r.relative_path x.relative_path,
    eqb_iff x.batch_id id,
    eqb_iff x.relative_path path,
  )

  pub pending-le-one :
      (items : List UploadBatchItem) → DistinctKeys items → count (is_pending id path) items ≤ 1
  pending-le-one [] h = omega arith
  pending-le-one (r ∷ rs) h = ground (arith, pending-le-one rs h.1, no_other_pending r rs)

  any-same_key-marked :
      (r : UploadBatchItem) (items : List UploadBatchItem)
      → any (same_key r) (marked id path items) ≡ any (same_key r) items
  any-same_key-marked r [] = refl
  any-same_key-marked r (x ∷ xs) = ground (arith, any-same_key-marked r xs)

  pub marked-DistinctKeys :
      (items : List UploadBatchItem) → DistinctKeys items → DistinctKeys (marked id path items)
  marked-DistinctKeys [] h = tt
  marked-DistinctKeys (r ∷ rs) h =
      ground (arith, marked-DistinctKeys rs h.1, any-same_key-marked r rs)

module _ (id : Text) (paths : List Text) where
  pub count-in_batch-dropped :
      (k : Text) (items : List UploadBatchItem)
      → count (in_batch k) (delete_where (is_dropped id paths) items)
          + (if eqb id k then count (is_dropped id paths) items else 0)
        ≡ count (in_batch k) items
  count-in_batch-dropped k [] = ground arith
  count-in_batch-dropped k (r ∷ rs) = ground (
    arith,
    count-in_batch-dropped k rs,
    eqb_iff r.batch_id id,
    eqb_iff r.batch_id k,
    eqb_iff id k,
  )

  pub count_done-dropped :
      (k : Text) (items : List UploadBatchItem)
      → count (done_in k) (delete_where (is_dropped id paths) items) ≡ count (done_in k) items
  count_done-dropped k [] = refl
  count_done-dropped k (r ∷ rs) = ground (arith, count_done-dropped k rs)

  pub done-dropped-le :
      (items : List UploadBatchItem)
      → count (done_in id) items + count (is_dropped id paths) items ≤ count (in_batch id) items
  done-dropped-le [] = omega arith
  done-dropped-le (r ∷ rs) = ground (arith, done-dropped-le rs)

pub any-select :
    (p q : UploadBatchItem → Bool) (items : List UploadBatchItem)
    → any p items ≡ false
    → any p (select q items) ≡ false
any-select p q [] h = refl
any-select p q (x ∷ xs) h = ground (arith, any-select p q xs)

pub select-DistinctKeys :
    (q : UploadBatchItem → Bool) (items : List UploadBatchItem)
    → DistinctKeys items
    → DistinctKeys (select q items)
select-DistinctKeys q [] h = tt
select-DistinctKeys q (r ∷ rs) h =
    ground (arith, select-DistinctKeys q rs h.1, any-select (same_key r) q rs h.0)

has_duplicate-cons :
    (x : UploadBatchItem) (rows new : List UploadBatchItem)
    → has_duplicate (x ∷ rows) new ≡ false
    → (any (same_key x) new ≡ false) × (has_duplicate rows new ≡ false)
has_duplicate-cons x rows [] h = (refl, refl)
has_duplicate-cons x rows (r ∷ new) h = ground (
  arith,
  has_duplicate-cons x rows new,
  eqb_comm x.batch_id r.batch_id,
  eqb_comm x.relative_path r.relative_path,
)

any-append :
    (p : UploadBatchItem → Bool) (xs ys : List UploadBatchItem)
    → any p xs ≡ false
    → any p ys ≡ false
    → any p (xs ++ ys) ≡ false
any-append p [] ys h k = k
any-append p (x ∷ xs) ys h k = ground (arith, any-append p xs ys)

-- Rows that the unique index lets in keep the keys distinct.
pub append-DistinctKeys :
    (rows new : List UploadBatchItem)
    → DistinctKeys rows
    → has_duplicate rows new ≡ false
    → DistinctKeys (rows ++ new)
append-DistinctKeys [] [] h d = tt
append-DistinctKeys [] (r ∷ new) h d = ground (arith, append-DistinctKeys [] new tt)
append-DistinctKeys (x ∷ rows) new h d =
    let e = has_duplicate-cons x rows new d in
    (any-append (same_key x) rows new h.0 e.0, append-DistinctKeys rows new h.1 e.1)
