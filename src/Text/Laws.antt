-- ===== src/Text/Laws.antt =====
-- Laws of the string functions.
use nimo_os.Base.{◌≡◌, refl, ◌↔◌, true, [], ◌∷◌, ◌++◌, arith}
use nimo_os.Text.{Text, eqb, has_prefix, drop_prefix}

pub eqb_refl : (s : Text) → eqb s s ≡ true
unfolding eqb
eqb_refl [] = refl
eqb_refl (c ∷ s) = ground (arith, eqb_refl s)

pub eqb→eq : (s t : Text) → eqb s t ≡ true → s ≡ t
unfolding eqb
eqb→eq [] [] h = refl
eqb→eq [] (d ∷ t) h = cc
eqb→eq (c ∷ s) [] h = cc
eqb→eq (c ∷ s) (d ∷ t) h = ground (arith, eqb→eq s t)

pub eqb_iff : (s t : Text) → (eqb s t ≡ true) ↔ (s ≡ t)
eqb_iff s t = (eqb→eq s t, λ e. rw e (eqb_refl t))

pub eqb_comm : (s t : Text) → eqb s t ≡ eqb t s
unfolding eqb
eqb_comm [] [] = refl
eqb_comm [] (d ∷ t) = refl
eqb_comm (c ∷ s) [] = refl
eqb_comm (c ∷ s) (d ∷ t) = ground (arith, eqb_comm s t)

pub append-drop_prefix : (s p : Text) → has_prefix s p ≡ true → p ++ drop_prefix s p ≡ s
unfolding has_prefix drop_prefix
append-drop_prefix s [] h = refl
append-drop_prefix [] (d ∷ p) h = cc
append-drop_prefix (c ∷ s) (d ∷ p) h = ground (arith, append-drop_prefix s p)

pub drop_prefix-append : (p s : Text) → drop_prefix (p ++ s) p ≡ s
unfolding drop_prefix
drop_prefix-append [] s = refl
drop_prefix-append (c ∷ p) s = drop_prefix-append p s
