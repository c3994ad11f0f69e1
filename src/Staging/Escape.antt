-- ===== src/Staging/Escape.antt =====
-- When the resolved path of an upload leaves its target.
use mathlib.Core.List.{reverse-append, append_assoc}
use nimo_os.Base.{
  ℕ, ◌≡◌, ◌≢◌, refl, sym, ◌∙◌, Bool, true, false, not, ◌&&◌, ◌||◌, List, [], ◌∷◌, ◌++◌, reverse,
  some, arith, All, Bool-cases, inl, inr, ◌==◌,
}
use nimo_os.Text.{Text, eqb, is_empty, has_prefix, contains, split, split_cons, text}
use nimo_os.Text.Laws.{eqb_refl}
use nimo_os.FilePath.{
  slash, dot, dotdot, is_rooted, segments, clean, join_path, covers, push_segment, push_segments,
}
use nimo_os.FilePath.Laws.{starts_with, covers_self}
use nimo_os.FilePath.Cleaning.{covers-clean, clean-clean}
use nimo_os.FilePath.Dots.{split-append, push_segments-append}
use nimo_os.Staging.Metadata.{Metadata, path_escape, escapes, validate_file_upload_metadata}

abbrev NoDots : List Text → Type 0
NoDots = All (λ s. eqb s dotdot ≡ false)

abbrev head_is_dot : List Text → Bool
head_is_dot [] = false
head_is_dot (f ∷ fs) = eqb f dot

split-head_is_dot : (r : Text) → head_is_dot (split slash r) ≡ true → has_prefix r dot ≡ true
unfolding split has_prefix eqb
split-head_is_dot [] h = cc h
split-head_is_dot (c ∷ r) h = elim (Bool-cases (c == slash)) [
  | inl e ↦ ground arith
  | inr e ↦ consed (split slash r) (rw e at h)
]
  where
    consed : (xs : List Text) → head_is_dot (split_cons c xs) ≡ true → has_prefix (c ∷ r) dot ≡ true
    consed [] k = ground arith
    consed (x ∷ xs) k = ground arith

split_cons-NoDots :
    (c : ℕ) (xs : List Text)
    → ((c == b'.') && head_is_dot xs) ≡ false
    → NoDots xs
    → NoDots (split_cons c xs)
unfolding eqb
split_cons-NoDots c [] k h = ground arith
split_cons-NoDots c (x ∷ xs) k h = ground (arith, h)

split-NoDots : (r : Text) → contains r (text "..") ≡ false → NoDots (split slash r)
unfolding split contains has_prefix eqb
split-NoDots [] h = (refl, tt)
split-NoDots (c ∷ r) h = elim (Bool-cases (c == slash)) [
  | inl e ↦ rw e (refl, split-NoDots r (ground arith))
  | inr e ↦ rw e (
      split_cons-NoDots c (split slash r) (ground (arith, split-head_is_dot r))
        (split-NoDots r (ground arith)))
]

-- Names without `..` only add segments.
push_segments-grows :
    (st xs : List Text) → NoDots xs → (zs : List Text) × (push_segments true st xs ≡ zs ++ st)
unfolding push_segments push_segment
push_segments-grows st [] h = ([], refl)
push_segments-grows st (x ∷ xs) h = elim (Bool-cases (is_empty x || eqb x dot)) [
  | inl e ↦ rw e (push_segments-grows st xs h.1)
  | inr e ↦
      let (zs, k) = push_segments-grows (x ∷ st) xs h.1 in
      rw (e, h.0) (zs ++ x ∷ [], k ∙ sym (append_assoc zs (x ∷ []) st))
]

starts_with-append : (a b : List Text) → starts_with (a ++ b) a ≡ true
unfolding starts_with
starts_with-append [] [] = refl
starts_with-append [] (x ∷ b) = refl
starts_with-append (x ∷ a) b = rw (eqb_refl x, starts_with-append a b) refl

segments-grow :
    (xs ys : List Text)
    → NoDots ys
    → starts_with (reverse (push_segments true [] (xs ++ ys))) (reverse (push_segments true [] xs))
      ≡ true
segments-grow xs ys h =
    let (zs, k) = push_segments-grows (push_segments true [] xs) ys h in
    rw (push_segments-append true [] xs ys, k, reverse-append zs (push_segments true [] xs))
      (starts_with-append (reverse (push_segments true [] xs)) (reverse zs))

segments-below :
    (target rel : Text)
    → is_rooted target ≡ true
    → contains rel (text "..") ≡ false
    → starts_with (segments (target ++ (slash ∷ rel))) (segments target) ≡ true
unfolding segments
segments-below [] rel r h = cc r
segments-below (c ∷ p) rel r h =
    rw (split-append (c ∷ p) rel, r)
      (rw r at (segments-grow (split slash (c ∷ p)) (split slash rel) (split-NoDots rel h)))

escapes-covers : (root p : Text) → escapes root p ≡ not (covers root p)
unfolding escapes covers
escapes-covers root p = ground arith

escapes-plain :
    (target rel s : Text) (a : List Text)
    → is_rooted target ≡ true
    → segments target ≡ s ∷ a
    → contains rel (text "..") ≡ false
    → escapes (clean target) (clean (join_path target rel)) ≡ false
unfolding join_path
escapes-plain [] rel s a r e h = cc r
escapes-plain (c ∷ p) [] s a r e h =
    rw
      (
        clean-clean (c ∷ p) r,
        escapes-covers (clean (c ∷ p)) (clean (c ∷ p)),
        covers_self (clean (c ∷ p)),
      )
      refl
escapes-plain (c ∷ p) (d ∷ q) s a r e h =
    rw
      (
        clean-clean ((c ∷ p) ++ (slash ∷ (d ∷ q))) r,
        escapes-covers (clean (c ∷ p)) (clean ((c ∷ p) ++ (slash ∷ (d ∷ q)))),
        covers-clean (c ∷ p) ((c ∷ p) ++ (slash ∷ (d ∷ q))) s a r r e,
        segments-below (c ∷ p) (d ∷ q) r h,
      )
      refl

-- For an absolute target other than the root directory, the check that the resolved path stays in
-- the target never refuses an upload: the checks before it have refused every relative path that
-- would leave.
pub validate_file_upload_metadata-inside :
    (meta : Metadata) (size : ℕ) (enough : Bool) (s : Text) (a : List Text)
    → is_rooted meta.target_path ≡ true
    → segments meta.target_path ≡ s ∷ a
    → validate_file_upload_metadata meta size enough ≢ some path_escape
unfolding validate_file_upload_metadata
validate_file_upload_metadata-inside meta size enough s a r e =
    elim (Bool-cases (contains meta.relative_path (text ".."))) [
      | inl k ↦ ground (arith, k)
      | inr k ↦ ground (arith, escapes-plain meta.target_path meta.relative_path s a r e k)
    ]
