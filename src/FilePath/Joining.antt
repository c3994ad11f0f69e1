-- ===== src/FilePath/Joining.antt =====
-- filepath.Join of a cleaned absolute path and a name: the entry of that name in that directory.
use mathlib.Core.List.{reverse-cons, append-nil, append_assoc}
use nimo_os.Base.{
  ℕ, ◌≡◌, refl, sym, ap, ◌∙◌, subst, ◌||◌, true, false, List, [], ◌∷◌, ◌++◌, reverse, arith, ◌==◌,
  Bool-cases, inl, inr,
}
use nimo_os.Text.{Text, eqb, has_prefix, split}
use nimo_os.Text.Laws.{eqb→eq}
use nimo_os.FilePath.{
  slash, is_rooted, push_segment, push_segments, segments, render, clean, join_path, covers,
}
use nimo_os.FilePath.Laws.{IsPlain, path_of}
use nimo_os.FilePath.Cleaning.{split-segment, push_segments_plain, render-path_of, clean_rooted}
use nimo_os.FilePath.Dots.{split-append, push_segments-append}

eqb-extend : (p : Text) (c : ℕ) (t : Text) → eqb (p ++ (c ∷ t)) p ≡ false
unfolding eqb
eqb-extend [] c t = refl
eqb-extend (d ∷ p) c t = ground (arith, eqb-extend p c t)

has_prefix-extend :
    (p : Text) (c : ℕ) (t : Text) → has_prefix (p ++ (c ∷ t)) (p ++ slash ∷ []) ≡ (c == slash)
unfolding has_prefix
has_prefix-extend [] c t = ground arith
has_prefix-extend (d ∷ p) c t = ground (arith, has_prefix-extend p c t)

-- A text that goes on behind a path is below the path only behind a slash.
pub covers-extend : (p : Text) (c : ℕ) (t : Text) → covers p (p ++ (c ∷ t)) ≡ (c == slash)
unfolding covers
covers-extend p c t = rw (eqb-extend p c t, has_prefix-extend p c t) refl

has_prefix_trans :
    (p q r : Text) → has_prefix q p ≡ true → has_prefix r q ≡ true → has_prefix r p ≡ true
unfolding has_prefix
has_prefix_trans [] q r h k = ground arith
has_prefix_trans (c ∷ p) [] r h k = cc h
has_prefix_trans (c ∷ p) (d ∷ q) [] h k = cc k
has_prefix_trans (c ∷ p) (d ∷ q) (e ∷ r) h k = ground (arith, has_prefix_trans p q r)

has_prefix_shorter : (p q : Text) → has_prefix q (p ++ slash ∷ []) ≡ true → has_prefix q p ≡ true
unfolding has_prefix
has_prefix_shorter [] q h = ground arith
has_prefix_shorter (c ∷ p) [] h = cc h
has_prefix_shorter (c ∷ p) (d ∷ q) h = ground (arith, has_prefix_shorter p q)

pub covers_trans : (p q r : Text) → covers p q ≡ true → covers q r ≡ true → covers p r ≡ true
covers_trans p q r h k = elim (Bool-cases (eqb q p)) [
  | inl e ↦ subst (λ x. covers x r ≡ true) (eqb→eq q p e) k
  | inr e ↦ elim (Bool-cases (eqb r q)) [
    | inl f ↦ subst (λ x. covers p x ≡ true) (sym (eqb→eq r q f)) h
    | inr f ↦ unfold covers in below e f h k
  ]
]
  where
    below :
        eqb q p ≡ false
        → eqb r q ≡ false
        → (eqb q p || has_prefix q (p ++ slash ∷ [])) ≡ true
        → (eqb r q || has_prefix r (q ++ slash ∷ [])) ≡ true
        → (eqb r p || has_prefix r (p ++ slash ∷ [])) ≡ true
    below e f h k = ground (arith, has_prefix_shorter q r, has_prefix_trans (p ++ slash ∷ []) q r)

-- A cleaned absolute path other than the root directory.
abbrev pub IsPlace : Text → Type 0
IsPlace p =
    (is_rooted p ≡ true) × (clean p ≡ p) × (s : Text) × (a : List Text) × (segments p ≡ s ∷ a)

path_of-append : (a : List Text) (n : Text) → path_of (a ++ n ∷ []) ≡ path_of a ++ (slash ∷ n)
path_of-append [] n = rw append-nil
path_of-append (s ∷ a) n = rw (path_of-append a n, append_assoc s (path_of a) (slash ∷ n)) refl

-- Such a path is that of its segments.
as_path : (p : Text) (h : IsPlace p) → p ≡ path_of (h.2 ∷ h.3)
as_path p (r, k, s, a, g) = sym k ∙ clean_rooted p r ∙ ap (render true) g ∙ render-path_of s a

pub split_plain : (n : Text) → IsPlain n → split slash n ≡ n ∷ []
split_plain n h = ap (split slash) (sym (append-nil n)) ∙ split-segment n [] h.0 tt

segments_rooted :
    (p : Text) → is_rooted p ≡ true → segments p ≡ reverse (push_segments true [] (split slash p))
unfolding segments
segments_rooted p r = ap (λ b. reverse (push_segments b [] (split slash p))) r

pub append-rooted : (d t : Text) → is_rooted d ≡ true → is_rooted (d ++ t) ≡ true
append-rooted [] t r = cc r
append-rooted (c ∷ d) t r = r

push_segments-join :
    (p n : Text)
    → IsPlain n
    → push_segments true [] (split slash (p ++ (slash ∷ n)))
      ≡ n ∷ push_segments true [] (split slash p)
push_segments-join p n h =
    ap (push_segments true []) (split-append p n ∙ ap (λ x. split slash p ++ x) (split_plain n h))
    ∙ push_segments-append true [] (split slash p) (n ∷ [])
    ∙ push_segments_plain (push_segments true [] (split slash p)) (n ∷ []) (h, tt)

segments-join :
    (p n : Text)
    → is_rooted p ≡ true
    → IsPlain n
    → segments (p ++ (slash ∷ n)) ≡ segments p ++ n ∷ []
segments-join p n r h =
    segments_rooted (p ++ (slash ∷ n)) (append-rooted p (slash ∷ n) r)
    ∙ ap reverse (push_segments-join p n h)
    ∙ reverse-cons n (push_segments true [] (split slash p))
    ∙ ap (λ x. x ++ n ∷ []) (sym (segments_rooted p r))

-- What a join with a name gives, by the segments of the directory.
join_path-segments :
    (d n s : Text) (a : List Text)
    → is_rooted d ≡ true
    → segments d ≡ s ∷ a
    → IsPlain n
    → join_path d n ≡ path_of (s ∷ a) ++ (slash ∷ n)
unfolding join_path
join_path-segments [] n s a r g h = cc r
join_path-segments (c ∷ d) [] s a r g h = cc h.1
join_path-segments (c ∷ d) (e ∷ n) s a r g h =
    clean_rooted ((c ∷ d) ++ (slash ∷ (e ∷ n))) r
    ∙ ap (render true) (segments-join (c ∷ d) (e ∷ n) r h ∙ ap (λ x. x ++ (e ∷ n) ∷ []) g)
    ∙ render-path_of s (a ++ (e ∷ n) ∷ [])
    ∙ path_of-append (s ∷ a) (e ∷ n)

-- In a cleaned directory the entry of a name is the path with a slash and the name behind it.
pub join_path-place : (d n : Text) → IsPlace d → IsPlain n → join_path d n ≡ d ++ (slash ∷ n)
join_path-place d n (r, k, s, a, g) h =
    join_path-segments d n s a r g h ∙ ap (λ x. x ++ (slash ∷ n)) (sym (as_path d (r, k, s, a, g)))

push_segments_blank : (st : List Text) → push_segments true st (split slash []) ≡ st
unfolding push_segments push_segment split
push_segments_blank st = refl

pub segments-slash : (d : Text) → is_rooted d ≡ true → segments (d ++ slash ∷ []) ≡ segments d
segments-slash d r =
    segments_rooted (d ++ slash ∷ []) (append-rooted d (slash ∷ []) r)
    ∙ ap reverse (
        ap (push_segments true []) (split-append d [])
        ∙ push_segments-append true [] (split slash d) (split slash [])
        ∙ push_segments_blank (push_segments true [] (split slash d)))
    ∙ sym (segments_rooted d r)

-- A slash behind the directory makes no difference.
pub join_path-slash :
    (d n : Text) → IsPlace d → IsPlain n → join_path (d ++ slash ∷ []) n ≡ d ++ (slash ∷ n)
join_path-slash d n (r, k, s, a, g) h =
    join_path-segments (d ++ slash ∷ []) n s a (append-rooted d (slash ∷ []) r)
      (segments-slash d r ∙ g) h
    ∙ ap (λ x. x ++ (slash ∷ n)) (sym (as_path d (r, k, s, a, g)))

pub join_path-IsPlace : (d n : Text) → IsPlace d → IsPlain n → IsPlace (join_path d n)
join_path-IsPlace d n p h = subst IsPlace (sym (join_path-place d n p h)) (
  append-rooted d (slash ∷ n) p.0,
  sym (unclean d n p h) ∙ join_path-place d n p h,
  p.2,
  p.3 ++ n ∷ [],
  segments-join d n p.0 h ∙ ap (λ x. x ++ n ∷ []) p.4,
)
  where
    unclean : (d n : Text) → IsPlace d → IsPlain n → join_path d n ≡ clean (d ++ (slash ∷ n))
    unclean [] n p h = cc p.0
    unclean (c ∷ d) [] p h = cc h.1
    unclean (c ∷ d) (e ∷ n) p h = unfold join_path in refl

pub covers-join_path : (d n : Text) → IsPlace d → IsPlain n → covers d (join_path d n) ≡ true
covers-join_path d n p h = rw (join_path-place d n p h, covers-extend d slash n) refl
