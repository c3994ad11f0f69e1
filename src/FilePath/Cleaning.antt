-- ===== src/FilePath/Cleaning.antt =====
-- What filepath.Clean makes of a path, told by its segments.
use mathlib.Core.List.{reverse-cons, reverse-reverse, append-nil, append_assoc}
use nimo_os.Base.{
  ◌≡◌, refl, sym, ap, ◌∙◌, Bool, true, false, List, [], ◌∷◌, ◌++◌, reverse, arith, All,
}
use nimo_os.Text.{Text, eqb, has_prefix, split, join}
use nimo_os.FilePath.{
  slash, is_rooted, push_segment, push_segments, segments, render, clean, covers,
}
use nimo_os.FilePath.Laws.{
  NoSlash, IsPlain, path_of, starts_with, covers-path_of, segments-IsPlain, IsPlain-NoSlash,
}

pub push_segments_plain :
    (stack segs : List Text)
    → All IsPlain segs
    → push_segments true stack segs ≡ reverse segs ++ stack
unfolding push_segments push_segment
push_segments_plain stack [] h = refl
push_segments_plain stack (s ∷ segs) h = ground (
  arith,
  push_segments_plain (s ∷ stack) segs h.1,
  reverse-cons s segs,
  append_assoc (reverse segs) (s ∷ []) stack,
)

pub render-path_of : (s : Text) (segs : List Text) → render true (s ∷ segs) ≡ path_of (s ∷ segs)
unfolding render join
render-path_of s [] = rw append-nil
render-path_of s (t ∷ segs) = ground (arith, render-path_of t segs)

pub split-segment :
    (s : Text) (segs : List Text)
    → NoSlash s
    → All NoSlash segs
    → split slash (s ++ path_of segs) ≡ s ∷ segs
unfolding split
split-segment [] [] n h = refl
split-segment [] (t ∷ segs) n h = ground (arith, split-segment t segs h.0 h.1)
split-segment (c ∷ s) segs n h = ground (arith, split-segment s segs n.1 h)

split-path_of :
    (segs : List Text) (s : Text)
    → All NoSlash (s ∷ segs)
    → split slash (path_of (s ∷ segs)) ≡ [] ∷ s ∷ segs
unfolding split
split-path_of segs s h = ground (arith, split-segment s segs h.0 h.1)

push_segments_empty :
    (stack segs : List Text) → push_segments true stack ([] ∷ segs) ≡ push_segments true stack segs
unfolding push_segments push_segment
push_segments_empty stack segs = refl

segments-path_of :
    (segs : List Text) (s : Text)
    → All NoSlash (s ∷ segs)
    → segments (path_of (s ∷ segs)) ≡ reverse (push_segments true [] ([] ∷ s ∷ segs))
unfolding segments
segments-path_of segs s h =
    ap (λ (fs : List Text). reverse (push_segments true [] fs)) (split-path_of segs s h)

-- Cleaned segments are read back from the path that they render to.
pub segments-render : (segs : List Text) → All IsPlain segs → segments (render true segs) ≡ segs
segments-render [] h = unfold segments push_segments push_segment render join split in refl
segments-render (s ∷ segs) h =
    ap segments (render-path_of s segs)
    ∙ segments-path_of segs s (IsPlain-NoSlash (s ∷ segs) h)
    ∙ ap reverse (
        push_segments_empty [] (s ∷ segs)
        ∙ push_segments_plain [] (s ∷ segs) h
        ∙ append-nil (reverse (s ∷ segs)))
    ∙ reverse-reverse (s ∷ segs)

render-rooted : (segs : List Text) → is_rooted (render true segs) ≡ true
unfolding render
render-rooted segs = refl

pub clean_rooted : (p : Text) → is_rooted p ≡ true → clean p ≡ render true (segments p)
unfolding clean
clean_rooted p r = rw r

pub clean-rooted : (p : Text) → is_rooted p ≡ true → is_rooted (clean p) ≡ true
clean-rooted p r = rw (clean_rooted p r) (render-rooted (segments p))

pub segments-clean : (p : Text) → is_rooted p ≡ true → segments (clean p) ≡ segments p
segments-clean p r = rw (clean_rooted p r) (segments-render (segments p) (segments-IsPlain p r))

-- Cleaning an absolute path twice is cleaning it once.
pub clean-clean : (p : Text) → is_rooted p ≡ true → clean (clean p) ≡ clean p
clean-clean p r =
    clean_rooted (clean p) (clean-rooted p r)
    ∙ ap (render true) (segments-clean p r)
    ∙ sym (clean_rooted p r)

-- Behind the root directory itself the textual test sees only the root.
pub render-nil : render true [] ≡ slash ∷ []
unfolding render join
render-nil = refl

-- Of two cleaned absolute paths, the first not the root directory, the test compares segments.
pub covers-render :
    (s : Text) (a p : List Text)
    → All IsPlain (s ∷ a)
    → All IsPlain p
    → covers (render true (s ∷ a)) (render true p) ≡ starts_with p (s ∷ a)
covers-render s a [] h k =
    rw (render-path_of s a, render-nil)
      (unfold covers eqb has_prefix starts_with in not_below s a h.0)
  where
    not_below :
        (s : Text) (a : List Text)
        → IsPlain s
        → covers (slash ∷ (s ++ path_of a)) (slash ∷ []) ≡ false
    not_below [] a h = cc h.1
    not_below (c ∷ s) a h = unfold covers eqb has_prefix in ground arith
covers-render s a (t ∷ p) h k =
    rw (render-path_of s a, render-path_of t p)
      (covers-path_of (s ∷ a) (t ∷ p) (IsPlain-NoSlash (s ∷ a) h) (IsPlain-NoSlash (t ∷ p) k))

pub covers-clean :
    (root p : Text) (s : Text) (a : List Text)
    → is_rooted root ≡ true
    → is_rooted p ≡ true
    → segments root ≡ s ∷ a
    → covers (clean root) (clean p) ≡ starts_with (segments p) (segments root)
covers-clean root p s a r q e =
    rw (clean_rooted root r, clean_rooted p q, e)
      (covers-render s a (segments p) (rw e at (segments-IsPlain root r)) (segments-IsPlain p q))

-- The segments of a path lie at or below those of another one, where nothing but the root directory
-- lies at or below the root directory.
abbrev pub lies_in : List Text → List Text → Bool
lies_in [] [] = true
lies_in [] (s ∷ p) = false
lies_in (t ∷ a) p = starts_with p (t ∷ a)

covers-root :
    (p : List Text) → All IsPlain p → covers (render true []) (render true p) ≡ lies_in [] p
covers-root [] h = unfold render join covers eqb in refl
covers-root ([] ∷ p) h = cc h.0.1
covers-root ((c ∷ s) ∷ p) h =
    rw (render-path_of (c ∷ s) p, render-nil)
      (unfold covers eqb has_prefix in ground (arith, h.0.0.0))

-- With the root directory among the paths that are compared, too.
pub covers-clean_any :
    (root p : Text)
    → is_rooted root ≡ true
    → is_rooted p ≡ true
    → covers (clean root) (clean p) ≡ lies_in (segments root) (segments p)
covers-clean_any root p r q = by_case (segments root) refl
  where
    by_case :
        (a : List Text) → segments root ≡ a → covers (clean root) (clean p) ≡ lies_in a (segments p)
    by_case [] e =
        rw (clean_rooted root r, clean_rooted p q, e)
          (covers-root (segments p) (segments-IsPlain p q))
    by_case (s ∷ a) e = covers-clean root p s a r q e ∙ rw e refl
