-- ===== src/Files/Naming/Free.antt =====
-- The loop for a free name ends, and what it ends with.
use nimo_os.Base.{
  ℕ, zero, suc, ◌≤◌, ◌<◌, ◌≡◌, refl, Bool, true, false, List, [], ◌∷◌, some, arith, length,
  Bool-cases, inl, inr,
}
use nimo_os.Text.{Text, elem}
use nimo_os.Text.Laws.{eqb_iff}
use nimo_os.Maps.{remove}
use nimo_os.Maps.Laws.{elem-remove}
use nimo_os.Files.Naming.{first_free}

-- What is found is free, and everything before it is taken.
pub first_free-free :
    (fuel : ℕ) (taken : ℕ → Bool) (i k : ℕ)
    → first_free fuel taken i ≡ some k
    → (taken k ≡ false) × (i ≤ k)
unfolding first_free
first_free-free zero taken i k h = cc h
first_free-free (suc fuel) taken i k h = ground (arith, first_free-free fuel taken (suc i) k)

length-remove-le : (t : Text) (l : List Text) → length (remove t l) ≤ length l
unfolding remove
length-remove-le t [] = omega arith
length-remove-le t (x ∷ l) = ground (arith, length-remove-le t l)

length-remove-lt : (t : Text) (l : List Text) → elem t l ≡ true → length (remove t l) < length l
unfolding remove elem
length-remove-lt t [] h = cc h
length-remove-lt t (x ∷ l) h = ground (arith, length-remove-lt t l, length-remove-le t l)

-- The loop ends when its candidates differ and all that are taken stand in a list that is shorter
-- than the fuel.
pub first_free-total :
    (fuel : ℕ) (taken : ℕ → Bool) (candidate : ℕ → Text) (names : List Text) (i : ℕ)
    → ((j k : ℕ) → candidate j ≡ candidate k → j ≡ k)
    → ((j : ℕ) → i ≤ j → taken j ≡ true → elem (candidate j) names ≡ true)
    → length names < fuel
    → (k : ℕ) × (first_free fuel taken i ≡ some k)
unfolding first_free
first_free-total zero taken candidate names i differ within l = elim l [ ]
first_free-total (suc fuel) taken candidate names i differ within l = elim (Bool-cases (taken i)) [
  | inl e ↦ rw e (
      first_free-total fuel taken candidate (remove (candidate i) names) (suc i) differ
        (λ j le t. ground (
          arith,
          elem-remove (candidate j) (candidate i) names,
          within j (omega (arith, le)) t,
          eqb_iff (candidate i) (candidate j),
          differ i j,
        ))
        (omega (arith, length-remove-lt (candidate i) names (within i (omega arith) e), l)))
  | inr e ↦ rw e (i, refl)
]
