-- ===== src/Shares/Scope.antt =====
-- The shares that DeleteShareByPath removes.
use nimo_os.Base.{
  ℕ, ◌≡◌, refl, Bool, true, false, not, ◌&&◌, ◌||◌, List, [], ◌∷◌, ◌++◌, arith, select, Bool-cases,
  inl, inr, ◌==◌, if◌then◌else◌,
}
use nimo_os.Text.{Text, eqb, is_empty, trim_right}
use nimo_os.FilePath.{slash}
use nimo_os.Shares.{
  Share, backslash, percent, underscore, fold, one, any_end, like, escape, or_root,
  share_path_scope, in_scope, delete_share_by_path,
}

-- The text begins with the prefix, ASCII letters in either case.
unfoldable pub has_prefix_fold : Text → Text → Bool
has_prefix_fold t [] = true
has_prefix_fold [] (d ∷ p) = false
has_prefix_fold (c ∷ t) (d ∷ p) = fold c == fold d && has_prefix_fold t p

any_end-all : (t : Text) → any_end is_empty t ≡ true
any_end-all [] = refl
any_end-all (c ∷ t) = ground (arith, any_end-all t)

like-percent : (t : Text) → like (slash ∷ (percent ∷ [])) t ≡ has_prefix_fold t (slash ∷ [])
unfolding like has_prefix_fold
like-percent [] = ground arith
like-percent (c ∷ t) = ground (arith, any_end-all t)

none_of : (a b c : Bool) → (a || b || c) ≡ false → (a ≡ false) × (b ≡ false) × (c ≡ false)
none_of a b c h = (ground arith, ground arith, ground arith)

like-cons :
    (d : ℕ) (pattern t : Text)
    → (d == backslash || d == percent || d == underscore) ≡ false
    → like (d ∷ pattern) t ≡ one d (like pattern) t
unfolding like
like-cons d [] t h =
    let (a, b, c) = none_of (d == backslash) (d == percent) (d == underscore) h in rw (b, c) refl
like-cons d (e ∷ pattern) t h =
    let (a, b, c) = none_of (d == backslash) (d == percent) (d == underscore) h in rw (a, b, c) refl

like-quoted :
    (c : ℕ) (pattern t : Text) → like (backslash ∷ (c ∷ pattern)) t ≡ one c (like pattern) t
unfolding like
like-quoted c pattern t = refl

one-same :
    (c : ℕ) (rest : Text → Bool) (p t : Text)
    → ((u : Text) → rest u ≡ has_prefix_fold u p)
    → one c rest t ≡ has_prefix_fold t (c ∷ p)
unfolding has_prefix_fold
one-same c rest p [] h = refl
one-same c rest p (d ∷ t) h = rw (h t) refl

like-escape :
    (s t : Text)
    → like (escape s ++ (slash ∷ (percent ∷ []))) t ≡ has_prefix_fold t (s ++ slash ∷ [])
unfolding escape
like-escape [] t = like-percent t
like-escape (c ∷ s) t = elim (Bool-cases (c == backslash || c == percent || c == underscore)) [
  | inl e ↦
      rw (e, like-quoted c (escape s ++ (slash ∷ (percent ∷ []))) t)
        (one-same c _ (s ++ slash ∷ []) t (like-escape s))
  | inr e ↦
      rw (e, like-cons c (escape s ++ (slash ∷ (percent ∷ []))) t e)
        (one-same c _ (s ++ slash ∷ []) t (like-escape s))
]

-- The path with one slash behind it.
unfoldable pub boundary : Text → Text
boundary exact = if eqb exact (slash ∷ []) then slash ∷ [] else exact ++ slash ∷ []

in_scope-boundary :
    (path p : Text)
    → in_scope (share_path_scope path) p ≡ (
        eqb p (or_root (trim_right slash path))
        || has_prefix_fold p (boundary (or_root (trim_right slash path))))
unfolding in_scope share_path_scope boundary
in_scope-boundary path p = elim (Bool-cases (eqb (or_root (trim_right slash path)) (slash ∷ []))) [
  | inl e ↦ rw (e, like-percent p) refl
  | inr e ↦ rw (e, like-escape (or_root (trim_right slash path)) p) refl
]

-- DeleteShareByPath keeps exactly the shares whose path is neither the path, without its trailing
-- slashes, nor begins with it and a slash, where ASCII letters count as equal in either case: the
-- wildcards in the path are taken literally, and a sibling whose name only begins alike stays.
pub delete_share_by_path-select :
    (path : Text) (rows : List Share)
    → delete_share_by_path path rows
      ≡ select
          (λ r. not (
            eqb r.path (or_root (trim_right slash path))
            || has_prefix_fold r.path (boundary (or_root (trim_right slash path)))))
          rows
unfolding delete_share_by_path
delete_share_by_path-select path [] = refl
delete_share_by_path-select path (r ∷ rs) =
    rw (in_scope-boundary path r.path, delete_share_by_path-select path rs) refl
