-- ===== src/Updates/Versions.antt =====
-- compareVersions of service/system.go: the order of version numbers.
use nimo_os.Base.{
  ℕ, zero, suc, ◌+◌, ◌*◌, ◌-◌, Bool, true, false, ◌&&◌, List, [], ◌∷◌, Option, none, some, ltb, leb,
  ◌==◌, if◌then◌else◌,
}
use nimo_os.Text.{Text, split}

-- `negsuc n` is -(n + 1).
pub data ℤ : Type 0 where
  pos : ℕ → ℤ
  negsuc : ℕ → ℤ

abbrev pub ltb_ℤ : ℤ → ℤ → Bool
ltb_ℤ (pos a) (pos b) = ltb a b
ltb_ℤ (pos a) (negsuc b) = false
ltb_ℤ (negsuc a) (pos b) = true
ltb_ℤ (negsuc a) (negsuc b) = ltb b a

abbrev pub is_digit : ℕ → Bool
is_digit c = leb b'0' c && leb c b'9'

-- The number that digits spell behind a number, `none` for anything but digits.
unfoldable pub digits_from : ℕ → Text → Option ℕ
digits_from n [] = some n
digits_from n (c ∷ s) =
    let rest = digits_from (n * 10 + (c - b'0')) s in if is_digit c then rest else none

abbrev pub decimal : Text → Option ℕ
decimal [] = none
decimal (c ∷ s) = digits_from 0 (c ∷ s)

-- The bounds of int64, at which Atoi stops.
abbrev pub clamp_pos : Option ℕ → ℤ
clamp_pos none = pos 0
clamp_pos (some n) = pos (if ltb 9223372036854775807 n then 9223372036854775807 else n)

abbrev pub negated : ℕ → ℤ
negated zero = pos 0
negated (suc n) = negsuc n

abbrev pub clamp_neg : Option ℕ → ℤ
clamp_neg none = pos 0
clamp_neg (some n) = negated (if ltb 9223372036854775808 n then 9223372036854775808 else n)

-- strconv.Atoi with its error ignored.
unfoldable pub atoi_value : Text → ℤ
unfolding digits_from
atoi_value [] = pos 0
atoi_value (c ∷ s) =
    if c == b'-'
    then clamp_neg (decimal s)
    else if c == b'+'
    then clamp_pos (decimal s)
    else clamp_pos (decimal (c ∷ s))

-- The loop over the first numbers; `none` where an index is out of range.
unfoldable pub compare_parts : ℕ → List Text → List Text → Option ℤ
unfolding atoi_value
compare_parts zero p q = some (pos 0)
compare_parts (suc n) (a ∷ p) (b ∷ q) =
    let rest = compare_parts n p q in
    if ltb_ℤ (atoi_value b) (atoi_value a)
    then some (pos 1)
    else if ltb_ℤ (atoi_value a) (atoi_value b)
    then some (negsuc 0)
    else rest
compare_parts (suc n) _ _ = none

unfoldable pub compare_versions : Text → Text → Option ℤ
unfolding compare_parts split
compare_versions v w = compare_parts 3 (split b'.' v) (split b'.' w)
