-- ===== src/Shares/Rewriting.antt =====
-- A share that moves with its folder, and back.
use mathlib.Core.List.{append_assoc}
use nimo_os.Base.{◌≡◌, refl, sym, ◌∙◌, true, false, [], ◌∷◌, ◌++◌, arith, Bool-cases, inl, inr}
use nimo_os.Text.{Text, eqb, has_prefix, drop_prefix}
use nimo_os.Text.Laws.{eqb_refl, eqb→eq, append-drop_prefix, drop_prefix-append}
use nimo_os.FilePath.{slash, covers}
use nimo_os.Shares.{rewrite_share_path}

eqb-append : (n r : Text) → eqb (n ++ (slash ∷ r)) n ≡ false
unfolding eqb
eqb-append [] r = refl
eqb-append (c ∷ n) r = ground (arith, eqb-append n r)

has_prefix-below : (n r : Text) → has_prefix (n ++ (slash ∷ r)) (n ++ slash ∷ []) ≡ true
unfolding has_prefix
has_prefix-below [] r = refl
has_prefix-below (c ∷ n) r = ground (arith, has_prefix-below n r)

-- The path of a share below a folder moves along.
rewrite-below :
    (old new r : Text) → rewrite_share_path (old ++ (slash ∷ r)) old new ≡ new ++ (slash ∷ r)
unfolding rewrite_share_path
rewrite-below old new r =
    rw (eqb-append old r, has_prefix-below old r, drop_prefix-append old (slash ∷ r)) refl

rewrite_self : (old new : Text) → rewrite_share_path old old new ≡ new
unfolding rewrite_share_path
rewrite_self old new = rw (eqb_refl old) refl

-- A share at or below a folder that is moved away and back has the path that it had.
pub rewrite_share_path-back :
    (p old new : Text)
    → covers old p ≡ true
    → rewrite_share_path (rewrite_share_path p old new) new old ≡ p
unfolding covers
rewrite_share_path-back p old new h = elim (Bool-cases (eqb p old)) [
  | inl e ↦ rw (eqb→eq p old e, rewrite_self old new) (rewrite_self new old)
  | inr e ↦ below (drop_prefix p (old ++ slash ∷ [])) (split_path (ground arith))
]
  where
    split_path :
        has_prefix p (old ++ slash ∷ []) ≡ true
        → p ≡ old ++ (slash ∷ drop_prefix p (old ++ slash ∷ []))
    split_path k =
        sym (append-drop_prefix p (old ++ slash ∷ []) k)
        ∙ append_assoc old (slash ∷ []) (drop_prefix p (old ++ slash ∷ []))

    below :
        (r : Text)
        → p ≡ old ++ (slash ∷ r)
        → rewrite_share_path (rewrite_share_path p old new) new old ≡ p
    below r k = rw (k, rewrite-below old new r) (rewrite-below new old r)
