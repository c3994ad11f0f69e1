-- ===== src/Maps/Laws.antt =====
-- Maps and sets after a write.
use nimo_os.Base.{◌≡◌, refl, not, ◌&&◌, ◌||◌, List, [], ◌∷◌, ◌++◌, none, some, arith, if◌then◌else◌}
use nimo_os.Text.{Text, eqb, elem}
use nimo_os.Text.Laws.{eqb_iff}
use nimo_os.Maps.{Map, lookup, delete, put, remove}

module _ {ℓ} {V : Type ℓ} where
  pub lookup-delete :
      (i k : Text) (m : Map V) → lookup i (delete k m) ≡ (if eqb k i then none else lookup i m)
  unfolding lookup delete
  lookup-delete i k [] = ground arith
  lookup-delete i k ((j, v) ∷ m) =
      ground (arith, lookup-delete i k m, eqb_iff j k, eqb_iff j i, eqb_iff k i)

  pub lookup-put :
      (i k : Text) (v : V) (m : Map V)
      → lookup i (put k v m) ≡ (if eqb k i then some v else lookup i m)
  unfolding lookup put
  lookup-put i k v m = ground (arith, lookup-delete i k m)

pub elem-remove : (i k : Text) (s : List Text) → elem i (remove k s) ≡ (not (eqb k i) && elem i s)
unfolding elem remove
elem-remove i k [] = ground arith
elem-remove i k (j ∷ s) = ground (arith, elem-remove i k s, eqb_iff j k, eqb_iff j i, eqb_iff k i)

pub elem-append : (i : Text) (s t : List Text) → elem i (s ++ t) ≡ (elem i s || elem i t)
unfolding elem
elem-append i [] t = refl
elem-append i (j ∷ s) t = ground (arith, elem-append i s t)
