-- ===== src/Files/Naming/Candidates.antt =====
-- The candidate names: each is another, each stands in the directory of the path, and so the loop
-- for a free one ends.
use nimo_os.Base.{
  ℕ, zero, suc, ◌+◌, ◌-◌, ◌*◌, ◌/◌, ◌%◌, ◌<◌, ◌≡◌, refl, sym, ap, subst, ◌∙◌, Bool, true, false,
  not, List, [], ◌∷◌, ◌++◌, some, arith, length, All-append, ◌==◌, if◌then◌else◌, Bool-cases, inl,
  inr, ltb, ◌⊎◌,
}
use nimo_os.Text.{Text, eqb, elem, is_empty}
use nimo_os.FilePath.{slash, dot, dotdot}
use nimo_os.FilePath.Laws.{NoSlash, IsPlain}
use nimo_os.FilePath.Joining.{IsPlace, join_path-slash, join_path-place}
use nimo_os.FilePath.Fields.{up_to_slash-join, last_field-join, base-join, dir-join}
use nimo_os.Files.{FileSystem}
use nimo_os.Files.Naming.{
  ext, stem, digits, itoa, numbered, first_free, name_at, duplicate_name, unique_name,
  get_no_duplicate_file_name, unique_dest_path,
}
use nimo_os.Files.Naming.Free.{first_free-free, first_free-total}

-- The number that digits stand for, up to the closing parenthesis.
abbrev read : ℕ → Text → ℕ
read n [] = n
read n (c ∷ s) = if c == b')' then n else read (n * 10 + (c - 48)) s

read-digits : (fuel n : ℕ) (out : Text) → n < fuel → read 0 (digits fuel n out) ≡ read n out
unfolding digits
read-digits zero n out l = elim l [ ]
read-digits (suc fuel) n out l = elim (Bool-cases (ltb n 10)) [
  | inl e ↦ rw e (small n (ground arith))
  | inr e ↦ rw e (read-digits fuel (n / 10) ((48 + n % 10) ∷ out) (ground arith) ∙ ground arith)
]
  where
    small : (n : ℕ) → n < 10 → read 0 ((48 + n) ∷ out) ≡ read n out
    small n l = ground arith

digits-append :
    (fuel n : ℕ) (out rest : Text) → digits fuel n out ++ rest ≡ digits fuel n (out ++ rest)
unfolding digits
digits-append zero n out rest = refl
digits-append (suc fuel) n out rest = elim (Bool-cases (ltb n 10)) [
  | inl e ↦ rw e refl
  | inr e ↦ rw e (digits-append fuel (n / 10) ((48 + n % 10) ∷ out) rest)
]

digits-NoSlash : (fuel n : ℕ) (out : Text) → NoSlash out → NoSlash (digits fuel n out)
unfolding digits
digits-NoSlash zero n out h = h
digits-NoSlash (suc fuel) n out h = elim (Bool-cases (ltb n 10)) [
  | inl e ↦ rw e (ground arith, h)
  | inr e ↦ rw e (digits-NoSlash fuel (n / 10) ((48 + n % 10) ∷ out) (ground arith, h))
]

append_cancel : (a x y : Text) → a ++ x ≡ a ++ y → x ≡ y
append_cancel [] x y h = h
append_cancel (c ∷ a) x y h = append_cancel a x y (cc h)

-- Two numbers in the same name give two names.
numbered_distinct : (name : Text) (i j : ℕ) → numbered name i ≡ numbered name j → i ≡ j
unfolding numbered
numbered_distinct name i j h = sym (back i) ∙ ap (read 0) same ∙ back j
  where
    tail : Text
    tail = b')' ∷ ext name

    back : (i : ℕ) → read 0 (itoa i ++ tail) ≡ i
    back i =
        ap (read 0) (digits-append (suc i) i [] tail) ∙ read-digits (suc i) i tail (omega arith)

    same : itoa i ++ tail ≡ itoa j ++ tail
    same = cc (append_cancel (stem name) _ _ h)

stem-NoSlash : (name : Text) → NoSlash name → NoSlash (stem name)
unfolding stem
stem-NoSlash [] h = tt
stem-NoSlash (c ∷ s) (h, hs) = ground (arith, stem-NoSlash s hs)

ext-NoSlash : (name : Text) → NoSlash name → NoSlash (ext name)
unfolding ext
ext-NoSlash [] h = tt
ext-NoSlash (c ∷ s) (h, hs) = ground (arith, ext-NoSlash s hs)

filled : (s t : Text) → is_empty (s ++ (b'(' ∷ t)) ≡ false
filled [] t = refl
filled (c ∷ s) t = refl

no_dots :
    (s t : Text) → (eqb (s ++ (b'(' ∷ t)) dot ≡ false) × (eqb (s ++ (b'(' ∷ t)) dotdot ≡ false)
unfolding eqb
no_dots [] t = (refl, refl)
no_dots (c ∷ []) t = (ground arith, ground arith)
no_dots (c ∷ (d ∷ [])) t = (ground arith, ground arith)
no_dots (c ∷ (d ∷ (e ∷ s))) t = (ground arith, ground arith)

pub numbered-IsPlain : (name : Text) (i : ℕ) → NoSlash name → IsPlain (numbered name i)
unfolding numbered itoa
numbered-IsPlain name i h = (
  All-append Not (stem name) _ (stem-NoSlash name h)
      (refl, All-append Not (itoa i) _ (digits-NoSlash (suc i) i [] tt) (refl, ext-NoSlash name h)),
  filled (stem name) _,
  (no_dots (stem name) _).0,
  (no_dots (stem name) _).1,
)
  where
    Not : ℕ → Type 0
    Not c = (c == slash) ≡ false

-- The candidates of GetNoDuplicateFileName and of uniqueDestPath for a name in a directory.
module _ (d n : Text) (place : IsPlace d) (plain : IsPlain n) where
  pub duplicate_name-join :
      (i : ℕ) → duplicate_name (d ++ (slash ∷ n)) i ≡ d ++ (slash ∷ numbered n i)
  unfolding duplicate_name
  duplicate_name-join i =
      rw (up_to_slash-join d n plain.0, last_field-join d n plain)
        (join_path-slash d (numbered n i) place (numbered-IsPlain n i plain.0))

  pub unique_name-join : (i : ℕ) → unique_name (d ++ (slash ∷ n)) i ≡ d ++ (slash ∷ numbered n i)
  unfolding unique_name
  unique_name-join i =
      rw (dir-join d n place plain.0, base-join d n plain)
        (join_path-place d (numbered n i) place (numbered-IsPlain n i plain.0))

  -- A free candidate is found where all existing paths stand in a list.
  candidate-total :
      (fuel : ℕ) (taken : Text → Bool) (names : List Text) (candidate : ℕ → Text)
      → ((i : ℕ) → candidate i ≡ d ++ (slash ∷ numbered n i))
      → ((x : Text) → taken (d ++ (slash ∷ x)) ≡ true → elem (d ++ (slash ∷ x)) names ≡ true)
      → length names < fuel
      → (i : ℕ) × (first_free fuel (λ i. taken (candidate i)) 1 ≡ some i)
        × (taken (d ++ (slash ∷ numbered n i)) ≡ false)
  candidate-total fuel taken names candidate form within l =
      let (i, e) =
        first_free-total fuel (λ i. taken (candidate i)) candidate names 1
          (λ j k h. numbered_distinct n j k (cc (append_cancel d _ _ (sym (form j) ∙ h ∙ form k))))
          (λ j le t.
            subst (λ p. elem p names ≡ true) (sym (form j))
              (within (numbered n j) (ap taken (sym (form j)) ∙ t)))
          l in
      (i, e, ap taken (sym (form i)) ∙ (first_free-free fuel _ 1 i e).0)

  module _ (s : FileSystem) where
    -- Where the paths that exist are among as many names as the fuel has to spare,
    -- GetNoDuplicateFileName ends, with a path that does not exist: the path itself or one of its
    -- candidates in the same directory.
    pub get_no_duplicate_file_name-total :
        (fuel : ℕ) (names : List Text) (w : s.World)
        → ((p : Text) → s.exists p w ≡ true → elem p names ≡ true)
        → length names < fuel
        → (p : Text) × (get_no_duplicate_file_name s fuel (d ++ (slash ∷ n)) w ≡ some p)
          × (s.exists p w ≡ false)
          × ((p ≡ d ++ (slash ∷ n)) ⊎ ((i : ℕ) × (p ≡ d ++ (slash ∷ numbered n i))))
    unfolding get_no_duplicate_file_name name_at
    get_no_duplicate_file_name-total fuel names w within l =
        elim (Bool-cases (s.exists (d ++ (slash ∷ n)) w)) [
          | inl e ↦
              let (i, f, g) =
                candidate-total fuel (λ p. s.exists p w) names (duplicate_name (d ++ (slash ∷ n)))
                  duplicate_name-join (λ x t. within (d ++ (slash ∷ x)) t) l in
              rw (e, f) (_, ap some (duplicate_name-join i), g, inr (i, refl))
          | inr e ↦ rw e (_, refl, e, inl refl)
        ]

    -- So does uniqueDestPath; here it is enough to know the paths in the directory.
    pub unique_dest_path-total :
        (fuel : ℕ) (names : List Text) (w : s.World)
        → ((x : Text)
            → s.not_exist (d ++ (slash ∷ x)) w ≡ false
            → elem (d ++ (slash ∷ x)) names ≡ true)
        → length names < fuel
        → (p : Text) × (unique_dest_path s fuel (d ++ (slash ∷ n)) w ≡ some p)
          × (s.not_exist p w ≡ true)
          × ((p ≡ d ++ (slash ∷ n)) ⊎ ((i : ℕ) × (p ≡ d ++ (slash ∷ numbered n i))))
    unfolding unique_dest_path name_at
    unique_dest_path-total fuel names w within l =
        elim (Bool-cases (s.not_exist (d ++ (slash ∷ n)) w)) [
          | inl e ↦ rw e (_, refl, e, inl refl)
          | inr e ↦
              let (i, f, g) =
                candidate-total fuel (λ p. not (s.not_exist p w)) names
                  (unique_name (d ++ (slash ∷ n))) unique_name-join (λ x t. within x (ground arith))
                  l in
              rw (e, f) (_, ap some (unique_name-join i), ground arith, inr (i, refl))
        ]
