-- ===== src/FilePath/Fields.antt =====
-- The directory and the last name of a path that is put together, as filepath.Dir and filepath.Base have them.
use nimo_os.Base.{ℕ, ◌≡◌, refl, sym, ap, ◌∙◌, true, ◌&&◌, if◌then◌else◌, [], ◌∷◌, ◌++◌, arith, ◌==◌}
use nimo_os.Text.{Text, is_empty, split, trim_right}
use nimo_os.FilePath.{slash, up_to_slash, last_field, base, non_empty_base, dir, render, clean}
use nimo_os.FilePath.Laws.{NoSlash, IsPlain}
use nimo_os.FilePath.Cleaning.{clean_rooted}
use nimo_os.FilePath.Dots.{split-append, last_field-append}
use nimo_os.FilePath.Joining.{IsPlace, split_plain, append-rooted, segments-slash}

up_to_slash-plain : (n : Text) → NoSlash n → up_to_slash n ≡ []
up_to_slash-plain [] h = refl
up_to_slash-plain (c ∷ n) (h, hs) = rw (up_to_slash-plain n hs, h) refl

pub up_to_slash-join : (d n : Text) → NoSlash n → up_to_slash (d ++ (slash ∷ n)) ≡ d ++ slash ∷ []
up_to_slash-join [] n h = rw (up_to_slash-plain n h) refl
up_to_slash-join (c ∷ d) n h = rw (up_to_slash-join d n h) (filled d)
  where
    filled :
        (d : Text)
        → (if is_empty (d ++ slash ∷ [])
            then (if c == slash then c ∷ [] else [])
            else c ∷ (d ++ slash ∷ []))
          ≡ c ∷ (d ++ slash ∷ [])
    filled [] = refl
    filled (e ∷ d) = refl

pub dir-join : (d n : Text) → IsPlace d → NoSlash n → dir (d ++ (slash ∷ n)) ≡ d
unfolding dir
dir-join d n p h =
    ap clean (up_to_slash-join d n h)
    ∙ clean_rooted (d ++ slash ∷ []) (append-rooted d (slash ∷ []) p.0)
    ∙ ap (render true) (segments-slash d p.0)
    ∙ sym (clean_rooted d p.0)
    ∙ p.1

pub last_field-join : (d n : Text) → IsPlain n → last_field (split slash (d ++ (slash ∷ n))) ≡ n
last_field-join d n h =
    ap last_field (split-append d n ∙ ap (λ x. split slash d ++ x) (split_plain n h))
    ∙ last_field-append (split slash d) n

trim_right-full :
    (d n : Text) (e : ℕ) (m : Text)
    → trim_right slash n ≡ e ∷ m
    → trim_right slash (d ++ n) ≡ d ++ (e ∷ m)
unfolding trim_right
trim_right-full [] n e m h = h
trim_right-full (c ∷ d) n e m h = rw (trim_right-full d n e m h) (filled d)
  where
    filled :
        (d : Text)
        → (if is_empty (d ++ (e ∷ m)) && (c == slash) then [] else c ∷ (d ++ (e ∷ m)))
          ≡ c ∷ (d ++ (e ∷ m))
    filled [] = refl
    filled (x ∷ d) = refl

trim_right-plain : (n : Text) → NoSlash n → trim_right slash n ≡ n
unfolding trim_right
trim_right-plain [] h = refl
trim_right-plain (c ∷ n) (h, hs) = rw (trim_right-plain n hs) (ground arith)

pub base-join : (d n : Text) → IsPlain n → base (d ++ (slash ∷ n)) ≡ n
unfolding base
base-join d [] h = cc h.1
base-join d (e ∷ n) h = named d (
    trim_right-full d (slash ∷ (e ∷ n)) slash (e ∷ n)
      (trim_right-full (slash ∷ []) (e ∷ n) e n (trim_right-plain (e ∷ n) h.0)))
  where
    named :
        (d : Text)
        → trim_right slash (d ++ (slash ∷ (e ∷ n))) ≡ d ++ (slash ∷ (e ∷ n))
        → base (d ++ (slash ∷ (e ∷ n))) ≡ e ∷ n
    named [] t = ap non_empty_base t ∙ last_field-join [] (e ∷ n) h
    named (c ∷ d) t = ap non_empty_base t ∙ last_field-join (c ∷ d) (e ∷ n) h
