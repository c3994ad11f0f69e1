-- ===== src/Maps.antt =====
-- Go maps with string keys as association lists, and sets of strings as lists.
pub mod Laws
use nimo_os.Base.{List, [], ◌∷◌, Option, none, some, if◌then◌else◌}
use nimo_os.Text.{Text, eqb}

abbrev pub Map {ℓ} : Type ℓ → Type ℓ
Map V = List (Text × V)

module _ {ℓ} {V : Type ℓ} where
  unfoldable pub lookup : Text → Map V → Option V
  lookup k [] = none
  lookup k ((j, v) ∷ m) = if eqb j k then some v else lookup k m

  unfoldable pub delete : Text → Map V → Map V
  delete k [] = []
  delete k ((j, v) ∷ m) = if eqb j k then delete k m else (j, v) ∷ delete k m

  -- m[k] = v
  unfoldable pub put : Text → V → Map V → Map V
  unfolding delete
  put k v m = (k, v) ∷ delete k m

-- delete(m, k) for a set
unfoldable pub remove : Text → List Text → List Text
remove k [] = []
remove k (j ∷ s) = if eqb j k then remove k s else j ∷ remove k s
