-- ===== src/FilePath/Laws.antt =====
-- Cleaning is idempotent on absolute paths, and the prefix test compares whole segments.
use mathlib.Core.List.{reverse-cons, append_assoc}
use nimo_os.Base.{
  ℕ, ◌≡◌, refl, Bool, true, false, ◌&&◌, List, [], ◌∷◌, ◌++◌, reverse, arith, ◌==◌, Bool-cases, inl,
  inr, All, All-append,
}
use nimo_os.Text.{Text, eqb, is_empty, has_prefix, split, split_cons}
use nimo_os.FilePath.{slash, dot, dotdot, is_rooted, push_segment, push_segments, segments, covers}
use nimo_os.Text.Laws.{eqb_refl}

pub covers_self : (p : Text) → covers p p ≡ true
unfolding covers
covers_self p = ground (arith, eqb_refl p)

abbrev pub NoSlash : Text → Type 0
NoSlash s = All (λ c. (c == slash) ≡ false) s

-- A segment of a cleaned absolute path.
abbrev pub IsPlain : Text → Type 0
IsPlain s = NoSlash s × (is_empty s ≡ false) × (eqb s dot ≡ false) × (eqb s dotdot ≡ false)

-- The path of some segments, each behind its slash.
abbrev pub path_of : List Text → Text
path_of [] = []
path_of (s ∷ segs) = slash ∷ (s ++ path_of segs)

-- The list of segments p begins with the list a.
unfoldable pub starts_with : List Text → List Text → Bool
starts_with p [] = true
starts_with [] (s ∷ a) = false
starts_with (t ∷ p) (s ∷ a) = eqb t s && starts_with p a

has_prefix-segment :
    (t s x : Text) (segs : List Text)
    → NoSlash t
    → NoSlash s
    → has_prefix (t ++ path_of segs) (s ++ (slash ∷ x))
      ≡ (eqb t s && has_prefix (path_of segs) (slash ∷ x))
unfolding has_prefix eqb
has_prefix-segment [] [] x segs h k = ground arith
has_prefix-segment [] (d ∷ s) x [] h k = ground arith
has_prefix-segment [] (d ∷ s) x (u ∷ segs) h k = ground arith
has_prefix-segment (c ∷ t) [] x segs h k = ground arith
has_prefix-segment (c ∷ t) (d ∷ s) x segs h k =
    ground (arith, has_prefix-segment t s x segs h.1 k.1)

eqb-segment :
    (t s : Text) (p a : List Text)
    → NoSlash t
    → NoSlash s
    → eqb (t ++ path_of p) (s ++ path_of a) ≡ (eqb t s && eqb (path_of p) (path_of a))
unfolding eqb
eqb-segment [] [] p a h k = ground arith
eqb-segment [] (d ∷ s) [] a h k = ground arith
eqb-segment [] (d ∷ s) (u ∷ p) a h k = ground arith
eqb-segment (c ∷ t) [] p [] h k = ground arith
eqb-segment (c ∷ t) [] p (u ∷ a) h k = ground arith
eqb-segment (c ∷ t) (d ∷ s) p a h k = ground (arith, eqb-segment t s p a h.1 k.1)

has_prefix-segment_below :
    (t s : Text) (p a : List Text)
    → NoSlash t
    → NoSlash s
    → has_prefix (t ++ path_of p) (s ++ (path_of a ++ slash ∷ []))
      ≡ (eqb t s && has_prefix (path_of p) (path_of a ++ slash ∷ []))
has_prefix-segment_below t s p [] h k = has_prefix-segment t s [] p h k
has_prefix-segment_below t s p (u ∷ a) h k =
    has_prefix-segment t s ((u ++ path_of a) ++ slash ∷ []) p h k

-- The textual test holds exactly where the segments of the root begin those of the path.
pub covers-path_of :
    (a p : List Text)
    → All NoSlash a
    → All NoSlash p
    → covers (path_of a) (path_of p) ≡ starts_with p a
unfolding covers eqb has_prefix starts_with
covers-path_of [] [] h k = refl
covers-path_of [] (t ∷ p) h k = ground arith
covers-path_of (s ∷ a) [] h k = ground arith
covers-path_of (s ∷ a) (t ∷ p) h k = ground (
  arith,
  append_assoc s (path_of a) (slash ∷ []),
  eqb-segment t s p a k.0 h.0,
  has_prefix-segment_below t s p a k.0 h.0,
  covers-path_of a p h.1 k.1,
)

split_cons-NoSlash :
    (c : ℕ) (fs : List Text) → (c == slash) ≡ false → All NoSlash fs → All NoSlash (split_cons c fs)
split_cons-NoSlash c [] e h = ((e, tt), tt)
split_cons-NoSlash c (f ∷ fs) e h = ((e, h.0), h.1)

-- What `split` cuts holds no separator.
split-NoSlash : (s : Text) → All NoSlash (split slash s)
unfolding split
split-NoSlash [] = (tt, tt)
split-NoSlash (c ∷ s) = elim (Bool-cases (c == slash)) [
  | inl e ↦ rw e (tt, split-NoSlash s)
  | inr e ↦ rw e (split_cons-NoSlash c (split slash s) e (split-NoSlash s))
]

push_segment-IsPlain :
    (stack : List Text) (seg : Text)
    → NoSlash seg
    → All IsPlain stack
    → All IsPlain (push_segment true stack seg)
unfolding push_segment
push_segment-IsPlain [] seg n h = ground arith
push_segment-IsPlain (top ∷ rest) seg n h = ground arith

push_segments-IsPlain :
    (stack segs : List Text)
    → All NoSlash segs
    → All IsPlain stack
    → All IsPlain (push_segments true stack segs)
unfolding push_segments
push_segments-IsPlain stack [] n h = h
push_segments-IsPlain stack (seg ∷ segs) n h =
    push_segments-IsPlain (push_segment true stack seg) segs n.1
      (push_segment-IsPlain stack seg n.0 h)

reverse-All {ℓ κ} : {A : Type ℓ} (P : A → Type κ) (xs : List A) → All P xs → All P (reverse xs)
reverse-All P [] h = tt
reverse-All P (x ∷ xs) h =
    rw (reverse-cons x xs) (All-append P (reverse xs) (x ∷ []) (reverse-All P xs h.1) (h.0, tt))

-- The segments of an absolute path are plain names: not empty, no dots, no slash.
pub segments-IsPlain : (p : Text) → is_rooted p ≡ true → All IsPlain (segments p)
unfolding segments
segments-IsPlain p r =
    rw r (reverse-All IsPlain _ (push_segments-IsPlain [] (split slash p) (split-NoSlash p) tt))

pub IsPlain-NoSlash : (segs : List Text) → All IsPlain segs → All NoSlash segs
IsPlain-NoSlash [] h = tt
IsPlain-NoSlash (s ∷ segs) h = (h.0.0, IsPlain-NoSlash segs h.1)
