-- ===== src/Upload/Batches/Pending.antt =====
-- What the batch store promises of the files that a batch still waits for, service/upload/batch_store.go.
use nimo_os.Base.{
  ℕ, zero, suc, ◌≤◌, ◌≡◌, refl, ap, ◌∙◌, sym, Bool, not, ◌&&◌, ◌||◌, List, [], ◌∷◌, arith, any,
  count, map, take, drop, length, length-drop, Bool-cases, inl, inr, ◌==◌, if◌then◌else◌,
}
use mathlib.Core.Path.{fun_ext}
use nimo_os.Text.{Text, eqb, elem}
use nimo_os.Text.Laws.{eqb_iff}
use nimo_os.Upload.Db.{abandoned, InterruptSource, UploadBatchItem, Tables, Db, ok, delete_where}
use nimo_os.Upload.Statements.{is_pending, is_dropped, delete_pending, shrink_total, complete}
use nimo_os.Upload.Batches.{
  mark_item_done, remove_chunk, remove_chunks, remove_items, chunk_size, touch_progress,
  set_interrupted, set_status, mark_staging_cleaned,
}
use nimo_os.Upload.Batches.Counts.{marked}
use nimo_os.Upload.Batches.Marked.{with_item_done, mark_item_done-eq, marked_none}

-- The abstract state: which paths each batch waits for.
abbrev pub View : Type 0
View = Text → Text → Bool

abbrev pub view : Tables → View
view t id path = any (is_pending id path) t.items

-- The calls of a server on batches that are there.
pub data Report : Type 0 where
  settles : Text → Text → ℕ → Report
  drops : Text → List Text → Report
  touches : Text → ℕ → Report
  interrupts : Text → ℕ → InterruptSource → Report
  abandons : Text → Report
  cleans : Text → Report

-- What each call is to do: a settled path is no longer waited for, nor is a dropped one.
abbrev pub spec : Report → View → View
spec (settles id path now) w = λ i p. w i p && not (eqb id i && eqb path p)
spec (drops id paths) w = λ i p. w i p && not (eqb id i && elem p paths)
spec (touches id now) w = w
spec (interrupts id now source) w = w
spec (abandons id) w = w
spec (cleans id) w = w

pub spec_run : List Report → View → View
spec_run [] w = w
spec_run (r ∷ rs) w = spec_run rs (spec r w)

abbrev pub healthy : Tables → Db
healthy t = record { tables = t; faults = [] }

-- The same calls of the store, with no statement failing.
unfoldable pub exec : Report → Tables → Tables
unfolding set_interrupted set_status mark_staging_cleaned remove_items touch_progress
exec (settles id path now) t = (mark_item_done id path now (healthy t)).1.tables
exec (drops id paths) t = (remove_items id paths (healthy t)).1.tables
exec (touches id now) t = (touch_progress id now (healthy t)).1.tables
exec (interrupts id now source) t = (set_interrupted id now source (healthy t)).1.tables
exec (abandons id) t = (set_status id abandoned (healthy t)).1.tables
exec (cleans id) t = (mark_staging_cleaned id (healthy t)).1.tables

pub exec_run : List Report → Tables → Tables
unfolding exec
exec_run [] t = t
exec_run (r ∷ rs) t = exec_run rs (exec r t)

any-marked :
    (id path i p : Text) (items : List UploadBatchItem)
    → any (is_pending i p) (marked id path items)
      ≡ (any (is_pending i p) items && not (eqb id i && eqb path p))
any-marked id path i p [] = refl
any-marked id path i p (r ∷ rs) = ground (
  arith,
  any-marked id path i p rs,
  eqb_iff r.batch_id id,
  eqb_iff r.batch_id i,
  eqb_iff id i,
  eqb_iff r.relative_path path,
  eqb_iff r.relative_path p,
  eqb_iff path p,
)

any-dropped :
    (id : Text) (paths : List Text) (i p : Text) (items : List UploadBatchItem)
    → any (is_pending i p) (delete_where (is_dropped id paths) items)
      ≡ (any (is_pending i p) items && not (eqb id i && elem p paths))
any-dropped id paths i p [] = refl
any-dropped id paths i p (r ∷ rs) = ground (
  arith,
  any-dropped id paths i p rs,
  eqb_iff r.batch_id id,
  eqb_iff r.batch_id i,
  eqb_iff id i,
  eqb_iff r.relative_path p,
)

pub mark_item_done-view :
    (id path : Text) (now : ℕ) (t : Tables) (i p : Text)
    → view (with_item_done id path now t) i p ≡ (view t i p && not (eqb id i && eqb path p))
mark_item_done-view id path now t i p =
    elim (Bool-cases (count (is_pending id path) t.items == 0)) [
      | inl e ↦ rw e (
          ap (any (is_pending i p)) (sym (marked_none id path t.items (ground arith)))
          ∙ any-marked id path i p t.items)
      | inr e ↦ rw e (any-marked id path i p t.items)
    ]

dropped_none :
    (id : Text) (paths : List Text) (items : List UploadBatchItem)
    → count (is_dropped id paths) items ≡ 0
    → delete_where (is_dropped id paths) items ≡ items
dropped_none id paths [] h = refl
dropped_none id paths (r ∷ rs) h = ground (arith, dropped_none id paths rs)

-- The tables behind a chunk of RemoveItems.
abbrev with_dropped : Text → List Text → Tables → Tables
with_dropped id paths t =
    let n = count (is_dropped id paths) t.items in
    if n == 0 then t else record t {
      items = delete_where (is_dropped id paths) t.items;
      batches = map (complete id) (map (shrink_total id n) t.batches);
    }

remove_chunk-eq :
    (id : Text) (paths : List Text) (t : Tables)
    → remove_chunk id paths (healthy t) ≡ (ok tt, healthy (with_dropped id paths t))
unfolding remove_chunk delete_pending
remove_chunk-eq id paths t = elim (Bool-cases (count (is_dropped id paths) t.items == 0)) [
  | inl e ↦ rw (e, dropped_none id paths t.items (ground arith)) refl
  | inr e ↦ rw e refl
]

with_dropped-view :
    (id : Text) (paths : List Text) (t : Tables) (i p : Text)
    → view (with_dropped id paths t) i p ≡ (view t i p && not (eqb id i && elem p paths))
with_dropped-view id paths t i p = elim (Bool-cases (count (is_dropped id paths) t.items == 0)) [
  | inl e ↦ rw e (
      ap (any (is_pending i p)) (sym (dropped_none id paths t.items (ground arith)))
      ∙ any-dropped id paths i p t.items)
  | inr e ↦ rw e (any-dropped id paths i p t.items)
]

elem-take-drop :
    (p : Text) (n : ℕ) (paths : List Text)
    → elem p paths ≡ (elem p (take n paths) || elem p (drop n paths))
unfolding elem
elem-take-drop p zero paths = refl
elem-take-drop p (suc n) [] = refl
elem-take-drop p (suc n) (q ∷ paths) = ground (arith, elem-take-drop p n paths)

not_waited :
    (v w c a b e : Bool)
    → w ≡ (v && not (c && a))
    → e ≡ (a || b)
    → (w && not (c && b)) ≡ (v && not (c && e))
not_waited v w c a b e h k = ground arith

remove_chunks-view :
    (n : ℕ) (id : Text) (paths : List Text)
    → length paths ≤ n
    → (t : Tables) (i p : Text)
    → view (remove_chunks n id paths (healthy t)).1.tables i p
      ≡ (view t i p && not (eqb id i && elem p paths))
unfolding remove_chunks elem
remove_chunks-view zero id [] l t i p = ground arith
remove_chunks-view zero id (q ∷ paths) l t i p = ground arith
remove_chunks-view (suc n) id [] l t i p = ground arith
remove_chunks-view (suc n) id (q ∷ paths) l t i p =
    let chunk = take chunk_size (q ∷ paths) in
    let others = drop chunk_size (q ∷ paths) in
    rw (remove_chunk-eq id chunk t) (
      remove_chunks-view n id others (ground (arith, length-drop 499 paths))
        (with_dropped id chunk t) i p
      ∙ not_waited (view t i p) _ (eqb id i) (elem p chunk) (elem p others) _
          (with_dropped-view id chunk t i p) (elem-take-drop p chunk_size (q ∷ paths)))

exec-view : (r : Report) (t : Tables) → view (exec r t) ≡ spec r (view t)
unfolding exec
exec-view (settles id path now) t = fun_ext λ i. fun_ext λ p.
    ap (λ r. view r.1.tables i p) (mark_item_done-eq id path now t)
    ∙ mark_item_done-view id path now t i p
exec-view (drops id paths) t =
    fun_ext λ i. fun_ext λ p. remove_chunks-view (length paths) id paths (omega arith) t i p
exec-view (touches id now) t = refl
exec-view (interrupts id now source) t = refl
exec-view (abandons id) t = refl
exec-view (cleans id) t = refl

-- The store implements the specification: when no statement fails, the calls change which paths each
-- batch waits for exactly as specified.
pub exec_run-view : (rs : List Report) (t : Tables) → view (exec_run rs t) ≡ spec_run rs (view t)
unfolding exec_run spec_run
exec_run-view [] t = refl
exec_run-view (r ∷ rs) t = exec_run-view rs (exec r t) ∙ ap (spec_run rs) (exec-view r t)
