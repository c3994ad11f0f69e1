-- ===== src/Upload/Batches/Marking.antt =====
-- MarkItemDone and MarkItemDoneAcrossBatches keep the counters in agreement with the items.
use nimo_os.Base.{
  ℕ, ◌≡◌, ◌≢◌, true, List, [], ◌∷◌, arith, Bool-cases, inl, inr, any, All, All-weaken, ◌==◌,
}
use nimo_os.Text.{Text}
use nimo_os.Upload.Db.{UploadBatch, UploadBatchItem, Tables, statement, ◌>>◌}
use nimo_os.Upload.Db.Rules.{
  Keeps, Keeps-pure, Keeps-if, Keeps-transaction, Keeps-bind, Commits, Commits-pure,
  Commits-statement, Commits-if, Commits-bind, Commits-weaken, OnOk,
}
use nimo_os.Upload.Statements.{
  has_id, update_batches, is_pending, mark_item, add_done, complete, revive,
}
use nimo_os.Upload.Batches.Rows.{
  IsCounted, IsBehind, IsSettling, mark_item-row, mark_item-row_none, add_done-row, complete-row,
  revive-row, id-add_done, id-complete, id-revive,
}
use nimo_os.Upload.Batches.Counts.{marked, pending-le-one, marked-DistinctKeys}
use nimo_os.Upload.Batches.{
  mark_item_done, mark_candidate, mark_candidates, mark_item_done_across_batches,
}
use nimo_os.Upload.Batches.Holds.{Holds, IsConsistent, update-Holds, find_batches-Keeps}

-- The first statement of MarkItemDone, by the number of rows it changed.
abbrev AfterMark : Text → ℕ → Tables → Type 0
AfterMark id n t = (n ≡ 0 → IsConsistent t) × (n ≢ 0 → Holds (IsBehind id) t)

owned-marked :
    (id path : Text) (bs : List UploadBatch) (items : List UploadBatchItem)
    → All (λ r. any (has_id r.batch_id) bs ≡ true) items
    → All (λ r. any (has_id r.batch_id) bs ≡ true) (marked id path items)
owned-marked id path bs [] h = tt
owned-marked id path bs (r ∷ rs) h = (
  elim (Bool-cases (is_pending id path r)) [ inl e ↦ rw e h.0 | inr e ↦ rw e h.0 ],
  owned-marked id path bs rs h.1,
)

marked-Holds :
    (P : List UploadBatchItem → UploadBatch → Type 0) (id path : Text) (t : Tables)
    → IsConsistent t
    → ((b : UploadBatch) → IsCounted t.items b → P (marked id path t.items) b)
    → Holds P (mark_item id path t).1
unfolding mark_item
marked-Holds P id path t h step = record {
  batches = All-weaken (IsCounted t.items) (P (marked id path t.items)) t.batches step h.batches;
  keys = marked-DistinctKeys id path t.items h.keys;
  owned = owned-marked id path t.batches t.items h.owned;
}

mark_item-step :
    (id path : Text) (t : Tables)
    → IsConsistent t
    → OnOk (AfterMark id) (mark_item id path t).0 (mark_item id path t).1
unfolding mark_item
mark_item-step id path t h = (
  (λ e. marked-Holds IsCounted id path t h (mark_item-row_none id path t.items e)),
  (λ e.
      marked-Holds (IsBehind id) id path t h
        (mark_item-row id path t.items (omega (arith, pending-le-one id path t.items h.keys)))),
)

-- The batch is settled by the three updates that follow.
settle-Commits :
    (id : Text) (now : ℕ)
    → Commits
        (Holds (IsBehind id))
        (do
          statement (update_batches (add_done id now))
          statement (update_batches (complete id))
          statement (update_batches (revive id)))
        (λ _. IsConsistent)
settle-Commits id now =
    Commits-bind _ (λ _. Holds (IsSettling id)) _ _ _
      (Commits-statement _ _ _ (
        update-Holds (IsBehind id) (IsSettling id) (add_done id now) (add_done-row id now)
          (λ b. id-add_done id b now)))
      λ _.
        Commits-bind _ (λ _. IsConsistent) _ _ _
          (Commits-statement _ _ _ (
            update-Holds (IsSettling id) IsCounted (complete id) (complete-row id)
              (λ b. id-complete id b)))
          λ _. Commits-statement _ _ _ (
            update-Holds IsCounted IsCounted (revive id) (λ items b h. revive-row items b h id)
              (λ b. id-revive id b))

pub mark_item_done-IsConsistent :
    (id path : Text) (now : ℕ) → Keeps IsConsistent (mark_item_done id path now)
unfolding mark_item_done
mark_item_done-IsConsistent id path now = Keeps-transaction _ (
    Commits-bind _ (AfterMark id) _ _ _ (Commits-statement _ _ _ (mark_item-step id path)) λ n.
      Commits-if _ _ (n == 0) _ _ (λ e. Commits-pure _ _ _ λ t h. h.0 (ground arith))
        λ e.
          Commits-weaken _ (Holds (IsBehind id)) _ _ (λ t h. h.1 (ground arith))
            (settle-Commits id now))

mark_candidate-IsConsistent :
    (completed_abs : Text) (now : ℕ) (b : UploadBatch)
    → Keeps IsConsistent (mark_candidate completed_abs now b)
unfolding mark_candidate
mark_candidate-IsConsistent completed_abs now b =
    Keeps-if _ _ _ (Keeps-pure tt)
      (Keeps-if _ _ _ (Keeps-pure tt) (mark_item_done-IsConsistent b.id _ now))

mark_candidates-IsConsistent :
    (completed_abs : Text) (now : ℕ) (bs : List UploadBatch)
    → Keeps IsConsistent (mark_candidates completed_abs now bs)
unfolding mark_candidates
mark_candidates-IsConsistent completed_abs now [] = Keeps-pure tt
mark_candidates-IsConsistent completed_abs now (b ∷ bs) =
    Keeps-bind _ _ (mark_candidate-IsConsistent completed_abs now b)
      λ _. mark_candidates-IsConsistent completed_abs now bs

pub mark_item_done_across_batches-IsConsistent :
    (target_path relative_path : Text) (now : ℕ)
    → Keeps IsConsistent (mark_item_done_across_batches target_path relative_path now)
unfolding mark_item_done_across_batches
mark_item_done_across_batches-IsConsistent target_path relative_path now =
    Keeps-bind _ _ (find_batches-Keeps _) λ bs. mark_candidates-IsConsistent _ now bs
