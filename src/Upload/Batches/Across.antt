-- ===== src/Upload/Batches/Across.antt =====
-- Which files MarkItemDoneAcrossBatches settles, service/upload/batch_store.go.
use nimo_os.Base.{
  ℕ, ◌≡◌, refl, ap, ◌∙◌, Bool, not, ◌&&◌, List, [], ◌∷◌, ◌++◌, arith, any, select, Bool-cases, inl,
  inr,
}
use nimo_os.Text.{Text, eqb, is_empty, has_prefix, drop_prefix, trim_right}
use nimo_os.FilePath.{slash, clean, join_path}
use nimo_os.Upload.Db.{UploadBatch, Tables, ok, is_live}
use nimo_os.Upload.Statements.{find_batches}
use nimo_os.Upload.Batches.{mark_candidate, mark_candidates, mark_item_done_across_batches}
use nimo_os.Upload.Batches.Marked.{with_item_done, mark_item_done-eq}
use nimo_os.Upload.Batches.Pending.{view, healthy, mark_item_done-view}

-- The target directory of a batch with a slash at its end.
abbrev prefix_of : UploadBatch → Text
prefix_of b = trim_right slash (clean b.target_path) ++ slash ∷ []

-- A path is that of a file of the batch: its target, a slash and the relative path.
abbrev pub is_file_of : Text → Text → UploadBatch → Bool
is_file_of full path b = not (is_empty path) && eqb full (prefix_of b ++ path)

prefix-rest :
    (full prefix path : Text)
    → (has_prefix full prefix
        && (not (is_empty (drop_prefix full prefix)) && eqb (drop_prefix full prefix) path))
      ≡ (not (is_empty path) && eqb full (prefix ++ path))
unfolding has_prefix drop_prefix eqb
prefix-rest [] [] [] = refl
prefix-rest (c ∷ full) [] [] = refl
prefix-rest [] [] (d ∷ path) = refl
prefix-rest (c ∷ full) [] (d ∷ path) = refl
prefix-rest [] (d ∷ prefix) path = ground arith
prefix-rest (c ∷ full) (d ∷ prefix) path = ground (arith, prefix-rest full prefix path)

-- The candidate is settled, and nothing else.
mark_candidate-view :
    (full : Text) (now : ℕ) (b : UploadBatch) (t : Tables)
    → (u : Tables) × (mark_candidate full now b (healthy t) ≡ (ok tt, healthy u))
      × ((i p : Text) → view u i p ≡ (view t i p && not (eqb b.id i && is_file_of full p b)))
unfolding mark_candidate
mark_candidate-view full now b t = elim (Bool-cases (has_prefix full (prefix_of b))) [
  | inl h ↦ elim (Bool-cases (is_empty (drop_prefix full (prefix_of b)))) [
    | inl e ↦ rw (h, e) (t, refl, λ i p. ground (arith, prefix-rest full (prefix_of b) p))
    | inr e ↦
        rw (h, e)
          (
            with_item_done b.id (drop_prefix full (prefix_of b)) now t,
            mark_item_done-eq b.id (drop_prefix full (prefix_of b)) now t,
            λ i p.
                mark_item_done-view b.id (drop_prefix full (prefix_of b)) now t i p
                ∙ ground (arith, prefix-rest full (prefix_of b) p),
          )
  ]
  | inr h ↦ rw h (t, refl, λ i p. ground (arith, prefix-rest full (prefix_of b) p))
]

mark_candidates-view :
    (full : Text) (now : ℕ) (bs : List UploadBatch) (t : Tables)
    → (u : Tables) × (mark_candidates full now bs (healthy t) ≡ (ok tt, healthy u))
      × ((i p : Text)
          → view u i p ≡ (view t i p && not (any (λ b. eqb b.id i && is_file_of full p b) bs)))
unfolding mark_candidates
mark_candidates-view full now [] t = (t, refl, λ i p. ground arith)
mark_candidates-view full now (b ∷ bs) t =
    let (v, e, g) = mark_candidate-view full now b t in
    let (u, f, h) = mark_candidates-view full now bs v in
    (u, rw e f, λ i p. ground (arith, g i p, h i p))

any-select :
    (p q : UploadBatch → Bool) (bs : List UploadBatch)
    → any p (select q bs) ≡ any (λ b. q b && p b) bs
any-select p q [] = refl
any-select p q (b ∷ bs) = ground (arith, any-select p q bs)

-- When no statement fails, MarkItemDoneAcrossBatches succeeds, and a file is waited for behind it
-- exactly when it was before, unless a live batch of its id has it at the path of the upload.
pub mark_item_done_across_batches-view :
    (target_path relative_path : Text) (now : ℕ) (t : Tables)
    → (u : Tables) × (mark_item_done_across_batches target_path relative_path now (healthy t)
        ≡ (ok tt, healthy u))
      × ((i p : Text)
          → view u i p ≡ (
              view t i p
              && not (
                  any
                    (λ b.
                      is_live b.status
                      && (eqb b.id i
                          && is_file_of (clean (join_path target_path relative_path)) p b))
                    t.batches)))
unfolding mark_item_done_across_batches find_batches mark_candidates
mark_item_done_across_batches-view target_path relative_path now t =
    let full = clean (join_path target_path relative_path) in
    let (u, e, g) = mark_candidates-view full now (select (λ b. is_live b.status) t.batches) t in
    (
      u,
      e,
      λ i p.
          g i p
          ∙ ap (λ (x : Bool). view t i p && not x)
              (any-select (λ b. eqb b.id i && is_file_of full p b) (λ b. is_live b.status)
                t.batches),
    )
