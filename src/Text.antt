-- ===== src/Text.antt =====
-- Go strings as lists of bytes, with the functions of package `strings` that the program calls.
pub mod Laws
use Prim.Native.Char.{code}
use Prim.Native.String.{String}
use nimo_os.Base.{
  ℕ, suc, zero, Bool, true, false, ◌&&◌, ◌||◌, List, [], ◌∷◌, ◌++◌, map, Option, none, some, ◌==◌,
  if◌then◌else◌,
}

abbrev pub Text : Type 0
Text = List ℕ

-- A literal of the source.
abbrev pub text : String → Text
text String.[] = []
text (String.◌∷◌ c s) = code c ∷ text s

-- s == t
unfoldable pub eqb : Text → Text → Bool
eqb [] [] = true
eqb [] (c ∷ t) = false
eqb (c ∷ s) [] = false
eqb (c ∷ s) (d ∷ t) = (c == d) && eqb s t

abbrev pub is_empty : Text → Bool
is_empty [] = true
is_empty (c ∷ s) = false

-- strings.HasPrefix(s, prefix)
unfoldable pub has_prefix : Text → Text → Bool
has_prefix s [] = true
has_prefix [] (d ∷ t) = false
has_prefix (c ∷ s) (d ∷ t) = (c == d) && has_prefix s t

-- strings.TrimPrefix(s, prefix), where s has the prefix; s[len(prefix):]
unfoldable pub drop_prefix : Text → Text → Text
drop_prefix s [] = s
drop_prefix [] (d ∷ t) = []
drop_prefix (c ∷ s) (d ∷ t) = drop_prefix s t

-- strings.Contains(s, sub)
unfoldable pub contains : Text → Text → Bool
unfolding has_prefix
contains [] sub = is_empty sub
contains (c ∷ s) sub = has_prefix (c ∷ s) sub || contains s sub

-- slice contains, as `for _, item := range xs { if item == s { return true } }`
unfoldable pub elem : Text → List Text → Bool
unfolding eqb
elem s [] = false
elem s (x ∷ xs) = eqb x s || elem s xs

-- The first field of strings.Split(s, sep) at a one-byte separator, put before the others.
abbrev pub split_cons : ℕ → List Text → List Text
split_cons c [] = (c ∷ []) ∷ []
split_cons c (f ∷ fs) = (c ∷ f) ∷ fs

-- strings.Split(s, sep) at a one-byte separator.
unfoldable pub split : ℕ → Text → List Text
split sep [] = [] ∷ []
split sep (c ∷ s) = let rest = split sep s in if c == sep then [] ∷ rest else split_cons c rest

-- strings.Join(fields, sep)
unfoldable pub join : ℕ → List Text → Text
join sep [] = []
join sep (f ∷ []) = f
join sep (f ∷ (g ∷ fs)) = f ++ (sep ∷ join sep (g ∷ fs))

-- The part of s before the first sep, or all of s.
unfoldable pub before : ℕ → Text → Text
before sep [] = []
before sep (c ∷ s) = if c == sep then [] else c ∷ before sep s

-- strings.TrimRight(s, cutset) with one byte in the cutset.
unfoldable pub trim_right : ℕ → Text → Text
trim_right sep [] = []
trim_right sep (c ∷ s) =
    let rest = trim_right sep s in if is_empty rest && (c == sep) then [] else c ∷ rest
