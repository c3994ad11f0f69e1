-- ===== src/Updates/Installing.antt =====
-- What CheckAppUpdate reports and UpdateAppVersion installs, service/system.go.
use nimo_os.Base.{
  ◌≡◌, refl, Bool, true, false, ◌&&◌, [], ◌∷◌, Option, none, some, Bool-cases, inl, inr, arith,
  ◌==◌, subst,
}
use nimo_os.Text.{Text}
use nimo_os.Maps.{lookup, put}
use nimo_os.Updates.{Host, VersionInfo, HttpResponse, check_cloud, do_request, create_file}
use nimo_os.Updates.Transfer.{on_read}
use nimo_os.Updates.App.{app_bundle, is_there}
use nimo_os.Updates.Versions.{ℤ, compare_versions}
use nimo_os.Updates.Check.{UpgradeCheckResult, no_update, must_recheck, is_above}
use nimo_os.Updates.Sound.{IsSound, IsCached, Sound, is_upgrade}
use nimo_os.Updates.Files.{lookup-put_here}
use nimo_os.Updates.Install.{
  is_lost, app_still_valid, is_running_status, judged_app, answered_app, app_version, or_fresh_app,
  check_app_update, copy_body, update_app_version,
}

app_still_valid-IsCached :
    (c : Option UpgradeCheckResult) (h : Host) → IsCached c → IsCached (app_still_valid c h)
unfolding app_still_valid
app_still_valid-IsCached none h s = tt
app_still_valid-IsCached (some r) h s = elim (Bool-cases (must_recheck h.downloader.status)) [
  | inl e ↦ rw e tt
  | inr e ↦
      elim (Bool-cases
        (r.is_downloaded && is_lost (lookup (app_bundle r.latest_version) h.files))) [
          | inl f ↦ rw (e, f) tt
          | inr f ↦ rw (e, f) s
        ]
]

idle-IsSound : (r : UpgradeCheckResult) → r.is_paused ≡ false → r.has_update ≡ false → IsSound r
idle-IsSound r p u = ground arith

upgrade-IsSound :
    (r : UpgradeCheckResult) (d b : Bool)
    → r.is_paused ≡ false
    → is_upgrade (compare_versions r.latest_version r.current_version) ≡ true
    → IsSound (record r { has_update = true; is_downloaded = d; is_downloading = b })
upgrade-IsSound r d b p u = ground arith

judged_app-Sound :
    (z : Option ℤ) (r : UpgradeCheckResult) (v : VersionInfo) (h : Host)
    → compare_versions r.latest_version r.current_version ≡ z
    → r.is_paused ≡ false
    → r.has_update ≡ false
    → Sound (judged_app z r v h)
judged_app-Sound none r v h e p u = tt
judged_app-Sound (some z) r v h e p u = elim (Bool-cases (is_above z)) [
  | inl a ↦ rw a (
      let s =
        upgrade-IsSound r (is_there (lookup (app_bundle v.version) h.files))
          (is_running_status h.downloader.status) p (rw e a) in
      (s, s))
  | inr a ↦ rw a (let s = idle-IsSound r p u in (s, s))
]

answered_app-Sound :
    (version : Text) (r : Option VersionInfo × Host) → Sound (answered_app version r)
answered_app-Sound version (none, h) = ((refl, refl), (refl, refl))
answered_app-Sound version (some v, h) =
    judged_app-Sound (compare_versions v.version version)
      (record (no_update version) {
        latest_version = v.version;
        size = v.size;
        changelog = v.changelog;
      })
      v h refl refl refl

or_fresh_app-Sound :
    (release : Text) (local : Option Text) (kept cache : Option UpgradeCheckResult) (h : Host)
    → IsCached kept
    → IsCached cache
    → Sound (or_fresh_app release local kept cache h)
unfolding check_cloud
or_fresh_app-Sound release local (some r) cache h s t = (s, t)
or_fresh_app-Sound release none none cache h s t = ((refl, refl), (refl, refl))
or_fresh_app-Sound release (some v) none cache h s t =
    answered_app-Sound (app_version release v) (check_cloud h)

-- If the cached result is sound, then so is what CheckAppUpdate returns, and so is what it leaves in
-- the cache: an upgrade that is reported is above the current version, and no result is both
-- downloading and paused.
pub check_app_update-IsSound :
    (release : Text) (local : Option Text) (cache : Option UpgradeCheckResult) (h : Host)
    → IsCached cache
    → (r : UpgradeCheckResult) (c : Option UpgradeCheckResult) (h' : Host)
    → check_app_update release local cache h ≡ some (r, c, h')
    → IsSound r × IsCached c
unfolding check_app_update
check_app_update-IsSound release local cache h s r c h' e = subst Sound e (
    or_fresh_app-Sound release local (app_still_valid cache h) cache h
      (app_still_valid-IsCached cache h s) s)

-- The cloud offers two versions in turn, and the download of the first one gets a response.
abbrev pub offering : VersionInfo → VersionInfo → HttpResponse → Host → Host
offering v w r h = record h {
  answers = some (true, some v) ∷ (some (true, some w) ∷ []);
  replies = some r ∷ [];
  faults = [];
}

-- If a bundle was not there, and its download in UpdateAppVersion gets the status 200 but breaks off,
-- it stays in place as far as it came; and if the cloud offers the same version again, the next
-- UpdateAppVersion starts the script with it. No other call fails in both.
pub update_app_version-partial :
    (v w : VersionInfo) (r : HttpResponse) (h : Host)
    → w.version ≡ v.version
    → (r.http_status == 200) ≡ true
    → (copy_body r.turns).1 ≡ on_read
    → lookup (app_bundle v.version) h.files ≡ none
    → ((update_app_version false true true true (offering v w r h)).1 ≡ none)
      × ((lookup
              (app_bundle v.version)
              (update_app_version false true true true (offering v w r h)).0.files
            ≡ some (copy_body r.turns).0)
          × ((update_app_version false true true true
                (update_app_version false true true true (offering v w r h)).0).1
              ≡ some (app_bundle v.version)))
unfolding update_app_version check_cloud do_request create_file
update_app_version-partial v w r h e s b n =
    rw (n, s, b, e)
      (
        refl,
        (
          lookup-put_here (app_bundle v.version) _ _,
          rw
              (lookup-put_here (app_bundle v.version) (copy_body r.turns).0
                (put (app_bundle v.version) [] h.files))
              refl,
        ),
      )
