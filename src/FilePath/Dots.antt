-- ===== src/FilePath/Dots.antt =====
-- The segments of a path that is put behind another one.
use nimo_os.Base.{◌≡◌, refl, Bool, true, false, List, [], ◌∷◌, ◌++◌, Bool-cases, inl, inr, ◌==◌, ℕ}
use nimo_os.Text.{Text, split, split_cons}
use nimo_os.FilePath.{slash, last_field, push_segment, push_segments}

abbrev is_nil : List Text → Bool
is_nil [] = true
is_nil (s ∷ ss) = false

split-full : (p : Text) → is_nil (split slash p) ≡ false
unfolding split
split-full [] = refl
split-full (c ∷ p) = elim (Bool-cases (c == slash)) [
  | inl e ↦ rw e refl
  | inr e ↦ rw e (full (split slash p))
]
  where
    full : (xs : List Text) → is_nil (split_cons c xs) ≡ false
    full [] = refl
    full (x ∷ xs) = refl

split_cons-append :
    (c : ℕ) (xs ys : List Text)
    → is_nil xs ≡ false
    → split_cons c (xs ++ ys) ≡ split_cons c xs ++ ys
split_cons-append c [] ys h = cc h
split_cons-append c (x ∷ xs) ys h = refl

pub split-append : (p q : Text) → split slash (p ++ (slash ∷ q)) ≡ split slash p ++ split slash q
unfolding split
split-append [] q = refl
split-append (c ∷ p) q = elim (Bool-cases (c == slash)) [
  | inl e ↦ rw (e, split-append p q) refl
  | inr e ↦
      rw (e, split-append p q) (split_cons-append c (split slash p) (split slash q) (split-full p))
]

pub push_segments-append :
    (r : Bool) (st xs ys : List Text)
    → push_segments r st (xs ++ ys) ≡ push_segments r (push_segments r st xs) ys
unfolding push_segments
push_segments-append r st [] ys = refl
push_segments-append r st (x ∷ xs) ys = push_segments-append r (push_segment r st x) xs ys

pub last_field-append : (xs : List Text) (y : Text) → last_field (xs ++ y ∷ []) ≡ y
last_field-append [] y = refl
last_field-append (x ∷ []) y = refl
last_field-append (x ∷ (z ∷ xs)) y = last_field-append (z ∷ xs) y
