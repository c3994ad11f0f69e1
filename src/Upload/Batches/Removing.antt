-- ===== src/Upload/Batches/Removing.antt =====
-- RemoveItems and AbandonInterruptedUnder keep the counters in agreement with the items.
use nimo_os.Base.{ℕ, zero, suc, All-select, ◌≡◌, not, List, [], ◌∷◌, arith, count, All-weaken, ◌==◌}
use nimo_os.Text.{Text}
use nimo_os.Upload.Db.{UploadBatch, Tables, delete_where}
use nimo_os.Upload.Db.Rules.{
  Keeps, Keeps-pure, Keeps-statement, Keeps-if, Keeps-transaction, Keeps-bind, Commits-pure,
  Commits-statement, Commits-if, Commits-bind, OnOk,
}
use nimo_os.Upload.Statements.{is_dropped, complete, delete_pending, shrink_total, find_missing}
use nimo_os.Upload.Batches.Rows.{
  IsCounted, IsSettling, IsOver, complete-row, delete_pending-row, shrink_total-row, IsOver-zero,
  id-complete, id-shrink_total,
}
use nimo_os.Upload.Batches.Counts.{select-DistinctKeys}
use nimo_os.Upload.Batches.{
  remove_chunk, remove_chunks, remove_items, missing_items, abandon_loop, abandon_interrupted_under,
}
use nimo_os.Upload.Batches.Holds.{
  Holds, IsConsistent, update-Holds, find_batches-Keeps, abandon-IsConsistent,
}

delete_pending-step :
    (id : Text) (paths : List Text) (t : Tables)
    → IsConsistent t
    → OnOk (λ n. Holds (IsOver id n)) (delete_pending id paths t).0 (delete_pending id paths t).1
unfolding delete_pending
delete_pending-step id paths t h = record {
  batches =
      All-weaken (IsCounted t.items)
        (IsOver id (count (is_dropped id paths) t.items)
          (delete_where (is_dropped id paths) t.items))
        t.batches (delete_pending-row id paths t.items) h.batches;
  keys = select-DistinctKeys (λ r. not (is_dropped id paths r)) t.items h.keys;
  owned = All-select _ (λ r. not (is_dropped id paths r)) t.items h.owned;
}

zero-Holds : (id : Text) (n : ℕ) (t : Tables) → n ≡ 0 → Holds (IsOver id n) t → IsConsistent t
zero-Holds id n t e h = record {
  batches =
      All-weaken (IsOver id n t.items) (IsCounted t.items) t.batches
        (λ b k. IsOver-zero id t.items b (rw e at k)) h.batches;
  keys = h.keys;
  owned = h.owned;
}

remove_chunk-IsConsistent :
    (id : Text) (paths : List Text) → Keeps IsConsistent (remove_chunk id paths)
unfolding remove_chunk
remove_chunk-IsConsistent id paths = Keeps-transaction _ (
    Commits-bind _ (λ n. Holds (IsOver id n)) _ _ _
      (Commits-statement _ _ _ (delete_pending-step id paths))
      λ n.
        Commits-if _ _ (n == 0) _ _ (λ e. Commits-pure _ _ _ λ t. zero-Holds id n t (ground arith))
          λ e.
            Commits-bind _ (λ _. Holds (IsSettling id)) _ _ _
              (Commits-statement _ _ _ (
                update-Holds (IsOver id n) (IsSettling id) (shrink_total id n)
                  (λ items b. shrink_total-row id n items b (ground arith))
                  (λ b. id-shrink_total id b n)))
              λ _. Commits-statement _ _ _ (
                update-Holds (IsSettling id) IsCounted (complete id) (complete-row id)
                  (λ b. id-complete id b)))

remove_chunks-IsConsistent :
    (n : ℕ) (id : Text) (paths : List Text) → Keeps IsConsistent (remove_chunks n id paths)
unfolding remove_chunks
remove_chunks-IsConsistent zero id paths = Keeps-pure tt
remove_chunks-IsConsistent (suc n) id [] = Keeps-pure tt
remove_chunks-IsConsistent (suc n) id (p ∷ paths) =
    Keeps-bind _ _ (remove_chunk-IsConsistent id _) λ _. remove_chunks-IsConsistent n id _

pub remove_items-IsConsistent :
    (id : Text) (paths : List Text) → Keeps IsConsistent (remove_items id paths)
unfolding remove_items
remove_items-IsConsistent id paths = remove_chunks-IsConsistent _ id paths

abandon_loop-IsConsistent :
    (path : Text) (bs : List UploadBatch) (ids : List Text)
    → Keeps IsConsistent (abandon_loop path bs ids)
unfolding abandon_loop missing_items find_missing
abandon_loop-IsConsistent path [] ids = Keeps-pure ids
abandon_loop-IsConsistent path (b ∷ bs) ids = Keeps-bind _ _ (Keeps-statement _ λ t h. h) λ items.
    Keeps-if _ _ _ (abandon_loop-IsConsistent path bs ids)
      (Keeps-bind _ _ (abandon-IsConsistent b.id) λ _. abandon_loop-IsConsistent path bs _)

pub abandon_interrupted_under-IsConsistent :
    (path owner : Text) → Keeps IsConsistent (abandon_interrupted_under path owner)
unfolding abandon_interrupted_under
abandon_interrupted_under-IsConsistent path owner =
    Keeps-bind _ _ (find_batches-Keeps _) λ bs. abandon_loop-IsConsistent path bs []
