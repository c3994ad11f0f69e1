-- ===== src/Upload/Batches/Marked.antt =====
-- What one call of MarkItemDone does when no statement fails, and what a second one adds.
use nimo_os.Base.{
  ℕ, ◌≡◌, refl, ap, ◌∙◌, List, [], ◌∷◌, arith, count, map, if◌then◌else◌, ◌==◌, Bool-cases, inl,
  inr,
}
use nimo_os.Text.{Text}
use nimo_os.Upload.Db.{UploadBatch, UploadBatchItem, Tables, ok}
use nimo_os.Upload.Statements.{is_pending, mark_item, add_done, complete, revive}
use nimo_os.Upload.Batches.{mark_item_done}
use nimo_os.Upload.Batches.Counts.{marked}

abbrev settled : Text → ℕ → UploadBatch → UploadBatch
settled id now b = revive id (complete id (add_done id now b))

-- The tables after a completed file: the item is done, and its batch counts it.
abbrev pub with_item_done : Text → Text → ℕ → Tables → Tables
with_item_done id path now t =
    if count (is_pending id path) t.items == 0
    then t
    else record t { items = marked id path t.items; batches = map (settled id now) t.batches }

pub marked_none :
    (id path : Text) (items : List UploadBatchItem)
    → count (is_pending id path) items ≡ 0
    → marked id path items ≡ items
marked_none id path [] h = refl
marked_none id path (r ∷ rs) h = ground (arith, marked_none id path rs)

map-map :
    (f g h : UploadBatch → UploadBatch) (bs : List UploadBatch)
    → map h (map g (map f bs)) ≡ map (λ b. h (g (f b))) bs
map-map f g h [] = refl
map-map f g h (b ∷ bs) = rw (map-map f g h bs)

pub mark_item_done-eq :
    (id path : Text) (now : ℕ) (t : Tables)
    → mark_item_done id path now (record { tables = t; faults = [] })
      ≡ (ok tt, record { tables = with_item_done id path now t; faults = [] })
unfolding mark_item_done mark_item
mark_item_done-eq id path now t = elim (Bool-cases (count (is_pending id path) t.items == 0)) [
  | inl e ↦ rw (e, marked_none id path t.items (ground arith))
  | inr e ↦ rw (e, map-map (add_done id now) (complete id) (revive id) t.batches)
]

pending-marked :
    (id path : Text) (items : List UploadBatchItem)
    → count (is_pending id path) (marked id path items) ≡ 0
pending-marked id path [] = refl
pending-marked id path (r ∷ rs) = ground (arith, pending-marked id path rs)

with_item_done-twice :
    (id path : Text) (now later : ℕ) (t : Tables)
    → with_item_done id path later (with_item_done id path now t) ≡ with_item_done id path now t
with_item_done-twice id path now later t =
    elim (Bool-cases (count (is_pending id path) t.items == 0)) [
      | inl e ↦ rw (e, e)
      | inr e ↦ rw (e, pending-marked id path t.items)
    ]

-- When no statement fails, a completion that is reported twice, at whatever times, leaves the
-- tables as the first report left them, and both calls succeed.
pub mark_item_done-twice :
    (id path : Text) (now later : ℕ) (t : Tables)
    → let once = mark_item_done id path now (record { tables = t; faults = [] }) in
      (once.0 ≡ ok tt) × (mark_item_done id path later once.1 ≡ (ok tt, once.1))
mark_item_done-twice id path now later t = rw (mark_item_done-eq id path now t) (
  refl,
  mark_item_done-eq id path later (with_item_done id path now t)
      ∙ ap (λ (u : Tables). (ok tt, record { tables = u; faults = [] }))
          (with_item_done-twice id path now later t),
)
