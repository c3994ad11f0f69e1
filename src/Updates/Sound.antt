-- ===== src/Updates/Sound.antt =====
-- What CheckUpdate of service/system.go reports.
use nimo_os.Base.{
  ◌≡◌, refl, Bool, true, false, not, ◌&&◌, ◌||◌, Option, none, some, Bool-cases, inl, inr, arith,
  subst, any,
}
use nimo_os.Text.{Text}
use nimo_os.Updates.{
  Status, idle, running, paused, completed, failed, Host, VersionInfo, check_cloud,
}
use nimo_os.Updates.Os.{os_dir}
use nimo_os.Updates.Versions.{ℤ, compare_versions}
use nimo_os.Updates.Check.{
  UpgradeCheckResult, no_update, list_dir, is_raucb, scan, must_recheck, still_valid,
  with_downloader, is_above, judged, answered, or_fresh, check_update,
}

abbrev pub is_upgrade : Option ℤ → Bool
is_upgrade none = false
is_upgrade (some z) = is_above z

-- An upgrade that is reported is above the current version, and no result is both downloading and
-- paused.
abbrev pub IsSound : UpgradeCheckResult → Type 0
IsSound r =
    ((not r.has_update || is_upgrade (compare_versions r.latest_version r.current_version)) ≡ true)
    × ((r.is_downloading && r.is_paused) ≡ false)

abbrev pub IsCached : Option UpgradeCheckResult → Type 0
IsCached none = Unit
IsCached (some r) = IsSound r

abbrev pub Sound : Option (UpgradeCheckResult × Option UpgradeCheckResult × Host) → Type 0
Sound none = Unit
Sound (some (r, c, h)) = IsSound r × IsCached c

still_valid-IsCached :
    (c : Option UpgradeCheckResult) (h : Host) → IsCached c → IsCached (still_valid c h)
unfolding still_valid
still_valid-IsCached none h s = tt
still_valid-IsCached (some r) h s = elim (Bool-cases (must_recheck h.downloader.status)) [
  | inl e ↦ rw e tt
  | inr e ↦
      elim (Bool-cases
        (r.is_downloaded && not (any is_raucb (list_dir (os_dir r.latest_version) h.files)))) [
          | inl f ↦ rw (e, f) tt
          | inr f ↦ rw (e, f) s
        ]
]

upgrade-IsSound :
    (s : Status) (r : UpgradeCheckResult) (d p : Bool)
    → r.is_downloading ≡ false
    → is_upgrade (compare_versions r.latest_version r.current_version) ≡ true
    → IsSound (record (with_downloader s (record r { is_downloaded = d; is_paused = p })) {
      has_update = true;
    })
upgrade-IsSound idle r d p e u = ground arith
upgrade-IsSound running r d p e u = ground arith
upgrade-IsSound paused r d p e u = ground arith
upgrade-IsSound completed r d p e u = ground arith
upgrade-IsSound failed r d p e u = ground arith

judged-Sound :
    (z : Option ℤ) (r : UpgradeCheckResult) (v : VersionInfo) (h : Host)
    → compare_versions r.latest_version r.current_version ≡ z
    → r.is_downloading ≡ false
    → r.has_update ≡ false
    → Sound (judged z r v h)
judged-Sound none r v h e d u = tt
judged-Sound (some z) r v h e d u = elim (Bool-cases (is_above z)) [
  | inl a ↦ rw a (
      let found = scan (list_dir (os_dir v.version) h.files) in
      let s = upgrade-IsSound h.downloader.status r found.0 found.1 d (rw e a) in (s, s))
  | inr a ↦ rw a (ground arith, tt)
]

answered-Sound : (version : Text) (r : Option VersionInfo × Host) → Sound (answered version r)
answered-Sound version (none, h) = ((refl, refl), (refl, refl))
answered-Sound version (some v, h) =
    judged-Sound (compare_versions v.version version)
      (record (no_update version) {
        latest_version = v.version;
        size = v.size;
        changelog = v.changelog;
      })
      v h refl refl refl

or_fresh-Sound :
    (version : Text) (local : Bool) (kept cache : Option UpgradeCheckResult) (h : Host)
    → IsCached kept
    → IsCached cache
    → Sound (or_fresh version local kept cache h)
unfolding check_cloud
or_fresh-Sound version local (some r) cache h s t = (s, t)
or_fresh-Sound version false none cache h s t = ((refl, refl), (refl, refl))
or_fresh-Sound version true none cache h s t = answered-Sound version (check_cloud h)

-- If the cached result is sound, then so is what CheckUpdate returns, and so is what it leaves in
-- the cache: an upgrade that is reported is above the current version, and no result is both
-- downloading and paused.
pub check_update-IsSound :
    (version : Text) (local : Bool) (cache : Option UpgradeCheckResult) (h : Host)
    → IsCached cache
    → (r : UpgradeCheckResult) (c : Option UpgradeCheckResult) (h' : Host)
    → check_update version local cache h ≡ some (r, c, h')
    → IsSound r × IsCached c
unfolding check_update
check_update-IsSound version local cache h s r c h' e =
    subst Sound e (
      or_fresh-Sound version local (still_valid cache h) cache h (still_valid-IsCached cache h s) s)
