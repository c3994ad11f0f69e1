-- ===== src/Access/Paths.antt =====
-- What the checks on paths decide, told by the segments of the cleaned paths.
use nimo_os.Base.{
  ◌≡◌, refl, Bool, true, false, not, ◌&&◌, ◌||◌, List, [], ◌∷◌, ◌++◌, arith, All, any, ℕ,
}
use nimo_os.Text.{Text, eqb, has_prefix, text, join}
use nimo_os.FilePath.{slash, is_rooted, segments, clean, render, covers, join_path}
use nimo_os.FilePath.Laws.{starts_with, IsPlain, segments-IsPlain}
use nimo_os.FilePath.Cleaning.{covers-clean, covers-render, clean_rooted, clean-rooted}
use nimo_os.Access.{is_path_allowed, is_below}
use nimo_os.Access.Guards.{
  is_skipped, is_above_any, is_ancestor_of_system_path, PathConfig, system_paths,
}

covers-top :
    (name p : Text)
    → IsPlain name
    → is_rooted p ≡ true
    → covers (slash ∷ name) (clean p) ≡ starts_with (segments p) (name ∷ [])
covers-top name p h r =
    rw (clean_rooted p r)
      (unfold render join in covers-render name [] (segments p) (h, tt) (segments-IsPlain p r))

-- A user other than the super-admin may use an absolute path by the base rule exactly when its
-- first segment, after `.` and `..` are resolved, is DATA, mnt or media, and no mount point of the
-- system disk is at or above it.
pub is_path_allowed-segments :
    (system : List Text) (p : Text)
    → is_rooted p ≡ true
    → is_path_allowed system p false ≡ (
        (starts_with (segments p) (text "DATA" ∷ [])
          || starts_with (segments p) (text "mnt" ∷ [])
          || starts_with (segments p) (text "media" ∷ []))
        && not (is_below system (clean p)))
unfolding is_path_allowed eqb
is_path_allowed-segments system (c ∷ p) r =
    rw
      (
        covers-top (text "DATA") (c ∷ p) ((refl, (refl, (refl, (refl, tt)))), refl, refl, refl) r,
        covers-top (text "mnt") (c ∷ p) ((refl, (refl, (refl, tt))), refl, refl, refl) r,
        covers-top (text "media") (c ∷ p)
            ((refl, (refl, (refl, (refl, (refl, tt))))), refl, refl, refl) r,
      )
      (ground arith)
is_path_allowed-segments system [] r = ground arith

join_path-rooted :
    (p : Text) (d : ℕ) (q : Text) → is_rooted p ≡ true → is_rooted (join_path p (d ∷ q)) ≡ true
unfolding join_path
join_path-rooted [] d q h = cc h
join_path-rooted (c ∷ p) d q h = clean-rooted ((c ∷ p) ++ (slash ∷ (d ∷ q))) h

unfoldable pub IsRootedConfig : PathConfig → Type 0
IsRootedConfig cfg =
    (is_rooted cfg.app_data ≡ true)
    × (is_rooted cfg.images ≡ true)
    × (is_rooted cfg.user_data ≡ true)

system_paths-rooted :
    (cfg : PathConfig) → IsRootedConfig cfg → All (λ sp. is_rooted sp ≡ true) (system_paths cfg)
unfolding system_paths IsRootedConfig
system_paths-rooted cfg (a, i, u) = (
  a,
  (
    i,
    (
      join_path-rooted cfg.user_data _ _ u,
      (
        join_path-rooted cfg.user_data _ _ u,
        (join_path-rooted cfg.user_data _ _ u, (join_path-rooted cfg.user_data _ _ u, tt)),
      ),
    ),
  ),
)

has_prefix-slash : (p r : Text) → has_prefix (p ++ slash ∷ []) (r ++ slash ∷ []) ≡ covers r p
unfolding has_prefix covers eqb
has_prefix-slash [] [] = refl
has_prefix-slash [] (d ∷ []) = ground arith
has_prefix-slash [] (d ∷ (e ∷ r)) = ground arith
has_prefix-slash (c ∷ p) [] = ground arith
has_prefix-slash (c ∷ p) (d ∷ r) = ground (arith, has_prefix-slash p r)

-- The configured path is below the target, by segments, and is not the target.
abbrev pub lies_below : Text → Text → Bool
lies_below target sp =
    not (is_skipped sp)
    && starts_with (segments sp) (segments target)
    && not (eqb (clean target) (clean sp))

is_above_any-segments :
    (target s : Text) (a sps : List Text)
    → is_rooted target ≡ true
    → segments target ≡ s ∷ a
    → All (λ sp. is_rooted sp ≡ true) sps
    → is_above_any (clean target) sps ≡ any (lies_below target) sps
unfolding is_above_any
is_above_any-segments target s a [] r e h = refl
is_above_any-segments target s a (sp ∷ sps) r e h = ground (
  arith,
  is_above_any-segments target s a sps r e h.1,
  has_prefix-slash (clean sp) (clean target),
  covers-clean target sp s a r h.0 e,
)

-- For an absolute path other than the root directory, isAncestorOfSystemPath says exactly whether
-- one of the absolute configured system paths lies below it, segment by segment, and is not the
-- path itself.
pub is_ancestor_of_system_path-segments :
    (cfg : PathConfig) (target s : Text) (a : List Text)
    → IsRootedConfig cfg
    → is_rooted target ≡ true
    → segments target ≡ s ∷ a
    → is_ancestor_of_system_path cfg target ≡ any (lies_below target) (system_paths cfg)
unfolding is_ancestor_of_system_path
is_ancestor_of_system_path-segments cfg target s a h r e =
    is_above_any-segments target s a (system_paths cfg) r e (system_paths-rooted cfg h)
