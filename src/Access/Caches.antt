-- ===== src/Access/Caches.antt =====
-- The grants of a user: which paths they cover.
use nimo_os.Base.{
  ℕ, ◌≡◌, refl, subst, Bool, true, false, not, ◌&&◌, ◌||◌, List, [], ◌∷◌, some, arith, All, any,
  if◌then◌else◌,
}
use nimo_os.Text.{Text, eqb, is_empty, text}
use nimo_os.FilePath.{is_rooted, segments, clean, covers}
use nimo_os.FilePath.Laws.{starts_with}
use nimo_os.FilePath.Cleaning.{covers-clean_any, lies_in, clean-rooted, clean-clean, segments-clean}
use nimo_os.Access.{is_covered, is_granted, is_below, atoi, check_path_access}
use nimo_os.Access.Paths.{is_path_allowed-segments}

-- A cleaned absolute path.
abbrev pub IsMount : Text → Type 0
IsMount m = (is_rooted m ≡ true) × (clean m ≡ m)

-- The path lies at or below one of the folders, told by the segments.
abbrev pub lies_in_any : List Text → Text → Bool
lies_in_any folders p = any (λ g. lies_in (segments g) (segments p)) folders

is_covered-segments :
    (granted : List Text) (p : Text)
    → All (λ g. is_rooted g ≡ true) granted
    → is_rooted p ≡ true
    → is_covered granted (clean p) ≡ lies_in_any granted p
unfolding is_covered
is_covered-segments [] p h r = refl
is_covered-segments (g ∷ gs) p (rooted, h) r =
    rw (covers-clean_any g p rooted r, is_covered-segments gs p h r) refl

is_below-segments :
    (mounts : List Text) (p : Text)
    → All IsMount mounts
    → is_rooted p ≡ true
    → is_below mounts (clean p) ≡ lies_in_any mounts p
unfolding is_below
is_below-segments [] p h r = refl
is_below-segments (m ∷ ms) p ((rooted, c), h) r =
    subst (λ x. (covers x (clean p) || is_below ms (clean p)) ≡ lies_in_any (m ∷ ms) p) c
      (rw (covers-clean_any m p rooted r, is_below-segments ms p h r) refl)

named :
    (role u : Text) (uid : ℕ)
    → atoi u ≡ some uid
    → (x y : Bool)
    → (if is_empty role && is_empty u then true else if x then true else not (is_empty u) && y)
      ≡ (x || y)
unfolding atoi
named role [] uid e x y = cc e
named role (c ∷ u) uid e x y = ground arith

-- For a user other than the super-admin, whose id is a number, an absolute path is open exactly when
-- the base rule or a grant opens it, both told by the segments of the path after `.` and `..` are
-- resolved. The base rule opens what lies at or below /DATA, /mnt or /media, unless it lies at or
-- below a mount point of the system disk; a grant opens what lies at or below its folder. In both,
-- nothing but the root directory itself lies at or below the root directory. The grants are absolute
-- paths, and the mount points are cleaned absolute paths.
pub check_path_access-segments :
    (system : List Text) (grants : ℕ → List Text) (role user_id p : Text) (uid : ℕ)
    → atoi user_id ≡ some uid
    → eqb user_id (text "1") ≡ false
    → All IsMount system
    → All (λ g. is_rooted g ≡ true) (grants uid)
    → is_rooted p ≡ true
    → check_path_access system grants role user_id p ≡ (
        ((starts_with (segments p) (text "DATA" ∷ [])
            || starts_with (segments p) (text "mnt" ∷ [])
            || starts_with (segments p) (text "media" ∷ []))
          && not (lies_in_any system p))
        || lies_in_any (grants uid) p)
unfolding check_path_access is_granted
check_path_access-segments system grants role user_id p uid h k m g r =
    rw
      (
        k,
        h,
        is_path_allowed-segments system (clean p) (clean-rooted p r),
        segments-clean p r,
        clean-clean p r,
        is_below-segments system p m r,
        is_covered-segments (grants uid) p g r,
      )
      (named role user_id uid h _ _)
