-- ===== src/Updates/Files.antt =====
-- What the operations on files in service/system.go leave in the directory of the upgrades.
use nimo_os.Base.{
  ◌≡◌, refl, sym, subst, Bool, true, false, [], ◌∷◌, none, some, ◌⊎◌, inl, inr, Bool-cases, arith,
  if◌then◌else◌,
}
use nimo_os.Text.{Text, eqb}
use nimo_os.Text.Laws.{eqb_refl, eqb→eq}
use nimo_os.Maps.{Map, lookup, put, delete}
use nimo_os.Maps.Laws.{lookup-put, lookup-delete}
use nimo_os.Updates.{Host, is_in, remove_dirs, remove_file, create_file, rename_file, first_or}

lookup-remove_dirs_self :
    (q : Text → Bool) (p c : Text) (m : Map Text)
    → lookup p (remove_dirs q m) ≡ (if is_in q p then none else lookup p m)
    → lookup p (remove_dirs q ((p, c) ∷ m)) ≡ (if is_in q p then none else lookup p ((p, c) ∷ m))
unfolding lookup remove_dirs
lookup-remove_dirs_self q p c m h = elim (Bool-cases (is_in q p)) [
  | inl i ↦ rw i (ground (arith, h))
  | inr i ↦ rw (i, eqb_refl p) refl
]

pub lookup-remove_dirs :
    (q : Text → Bool) (p : Text) (m : Map Text)
    → lookup p (remove_dirs q m) ≡ (if is_in q p then none else lookup p m)
unfolding lookup remove_dirs
lookup-remove_dirs q p [] = ground arith
lookup-remove_dirs q p ((j, c) ∷ m) = elim (Bool-cases (eqb j p)) [
  | inl e ↦
      subst
        (λ x.
          lookup p (remove_dirs q ((x, c) ∷ m))
          ≡ (if is_in q p then none else lookup p ((x, c) ∷ m)))
        (sym (eqb→eq j p e)) (lookup-remove_dirs_self q p c m (lookup-remove_dirs q p m))
  | inr e ↦ elim (Bool-cases (is_in q j)) [
    | inl i ↦ rw (i, e) (lookup-remove_dirs q p m)
    | inr i ↦
        rw (i, e)
          (elim (Bool-cases (is_in q p)) [
            | inl k ↦ rw k (ground (arith, lookup-remove_dirs q p m))
            | inr k ↦ rw k (ground (arith, lookup-remove_dirs q p m))
          ])
  ]
]

lookup-put_self :
    (q p c d : Text) (f : Map Text) → eqb q p ≡ true → lookup p (put q c f) ≡ some d → c ≡ d
lookup-put_self q p c d f e h = ground (arith, lookup-put p q c f)

-- Every file but one is as it was, is gone, or has a content with a property.
abbrev pub Only : (Text → Type 0) → Text → Map Text → Map Text → Type 0
Only P tmp f g =
    (p c : Text) → eqb tmp p ≡ false → lookup p g ≡ some c → (lookup p f ≡ some c) ⊎ P c

module _ (P : Text → Type 0) (tmp : Text) where
  pub Only-refl : (f : Map Text) → Only P tmp f f
  Only-refl f p c e h = inl h

  pub Only-trans : (f g k : Map Text) → Only P tmp f g → Only P tmp g k → Only P tmp f k
  Only-trans f g k h i p c e l = elim (i p c e l) [ inl m ↦ h p c e m | inr m ↦ inr m ]

  pub if-Only :
      (b : Bool) (f : Map Text) (h k : Host)
      → (b ≡ true → Only P tmp f h.files)
      → (b ≡ false → Only P tmp f k.files)
      → Only P tmp f (if b then h else k).files
  if-Only true f h k l m = l refl
  if-Only false f h k l m = m refl

  pub delete-Only : (q : Text) (f : Map Text) → Only P tmp f (delete q f)
  delete-Only q f p c e h = ground (arith, lookup-delete p q f)

  pub put-Only : (c : Text) (f : Map Text) → Only P tmp f (put tmp c f)
  put-Only c f p d e h = ground (arith, lookup-put p tmp c f)

  pub remove_dirs-Only : (q : Text → Bool) (f : Map Text) → Only P tmp f (remove_dirs q f)
  remove_dirs-Only q f p c e h = ground (arith, lookup-remove_dirs q p f)

  pub remove_file-Only : (q : Text) (h : Host) → Only P tmp h.files (remove_file q h).files
  unfolding remove_file
  remove_file-Only q h = elim (Bool-cases (first_or false h.faults)) [
    | inl e ↦ rw e (Only-refl h.files)
    | inr e ↦ rw e (delete-Only q h.files)
  ]

  pub create_file-Only : (c : Text) (h : Host) → Only P tmp h.files (create_file tmp c h).0.files
  unfolding create_file
  create_file-Only c h = elim (Bool-cases (first_or false h.faults)) [
    | inl e ↦ rw e (Only-refl h.files)
    | inr e ↦ rw e (put-Only c h.files)
  ]

  in_renamed :
      (q c p d : Text) (f : Map Text)
      → P c
      → lookup p (put q c (delete tmp f)) ≡ some d
      → (lookup p f ≡ some d) ⊎ P d
  in_renamed q c p d f k n = elim (Bool-cases (eqb q p)) [
    | inl e ↦ inr (subst P (lookup-put_self q p c d (delete tmp f) e n) k)
    | inr e ↦ inl (ground (arith, lookup-put p q c (delete tmp f), lookup-delete p tmp f))
  ]

  pub rename_file-Only :
      (q c : Text) (h : Host)
      → lookup tmp h.files ≡ some c
      → P c
      → Only P tmp h.files (rename_file tmp q h).0.files
  unfolding rename_file
  rename_file-Only q c h l k = elim (Bool-cases (first_or false h.faults)) [
    | inl e ↦ rw e (Only-refl h.files)
    | inr e ↦ rw (e, l) (λ p d m n. in_renamed q c p d h.files k n)
  ]

pub create_file-open_fails :
    (q c : Text) (h : Host) → (create_file q c h).0.open_fails ≡ h.open_fails
unfolding create_file
create_file-open_fails q c h = elim (Bool-cases (first_or false h.faults)) [
  | inl e ↦ rw e refl
  | inr e ↦ rw e refl
]

pub lookup-put_here : (q c : Text) (f : Map Text) → lookup q (put q c f) ≡ some c
lookup-put_here q c f = ground (arith, lookup-put q q c f, eqb_refl q)
