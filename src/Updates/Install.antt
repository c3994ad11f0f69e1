-- ===== src/Updates/Install.antt =====
-- CheckAppUpdate and UpdateAppVersion of service/system.go: the update of the application.
--
-- The cache is as in Updates.Check. What readLocalVersionInfo finds as the application version is
-- `none` where it fails. The file status.json, which SyncStartupUpgradeStatus reads at the next start,
-- is left out, and so is the number behind the error download_http.
use nimo_os.Base.{
  Bool, true, false, not, ◌&&◌, ◌||◌, List, [], ◌∷◌, Option, none, some, ◌==◌, if◌then◌else◌,
}
use nimo_os.Text.{Text, eqb, is_empty, text}
use nimo_os.Maps.{lookup, put}
use nimo_os.Updates.{
  Status, running, Host, VersionInfo, Turn, HttpResponse, check_cloud, do_request, create_file,
  first_or, rest, report,
}
use nimo_os.Updates.Transfer.{LoopEnd, at_eof, after_read, after_write}
use nimo_os.Updates.App.{app_bundle, is_there}
use nimo_os.Updates.Versions.{ℤ, compare_versions}
use nimo_os.Updates.Check.{UpgradeCheckResult, no_update, must_recheck, is_above}

-- Whether the file of a cached result is gone or empty.
abbrev pub is_lost : Option Text → Bool
is_lost none = true
is_lost (some c) = is_empty c

unfoldable pub app_still_valid : Option UpgradeCheckResult → Host → Option UpgradeCheckResult
app_still_valid none h = none
app_still_valid (some r) h =
    if must_recheck h.downloader.status
    then none
    else if r.is_downloaded && is_lost (lookup (app_bundle r.latest_version) h.files)
    then none
    else some r

abbrev pub is_running_status : Status → Bool
is_running_status running = true
is_running_status _ = false

abbrev pub judged_app :
    Option ℤ
    → UpgradeCheckResult
    → VersionInfo
    → Host
    → Option (UpgradeCheckResult × Option UpgradeCheckResult × Host)
judged_app none r v h = none
judged_app (some z) r v h =
    let r' = record r {
      has_update = true;
      is_downloaded = is_there (lookup (app_bundle v.version) h.files);
      is_downloading = is_running_status h.downloader.status;
    } in
    if is_above z then some (r', some r', h) else some (r, some r, h)

abbrev pub answered_app :
    Text
    → Option VersionInfo × Host
    → Option (UpgradeCheckResult × Option UpgradeCheckResult × Host)
answered_app version (none, h) = some (no_update version, some (no_update version), h)
answered_app version (some v, h) =
    judged_app (compare_versions v.version version)
      (record (no_update version) {
        latest_version = v.version;
        size = v.size;
        changelog = v.changelog;
      })
      v h

-- The version of the application: the one of the release, unless the file has another one.
abbrev pub app_version : Text → Text → Text
app_version release version =
    if is_empty version || eqb version (text "0.0.0") then release else version

abbrev pub or_fresh_app :
    Text
    → Option Text
    → Option UpgradeCheckResult
    → Option UpgradeCheckResult
    → Host
    → Option (UpgradeCheckResult × Option UpgradeCheckResult × Host)
or_fresh_app release local (some r) cache h = some (r, cache, h)
or_fresh_app release none none cache h = some (no_update release, some (no_update release), h)
or_fresh_app release (some v) none cache h = answered_app (app_version release v) (check_cloud h)

unfoldable pub check_app_update :
    Text
    → Option Text
    → Option UpgradeCheckResult
    → Host
    → Option (UpgradeCheckResult × Option UpgradeCheckResult × Host)
unfolding app_still_valid check_cloud compare_versions
check_app_update release local cache h =
    or_fresh_app release local (app_still_valid cache h) cache h

-- io.Copy: what is written, and how it ends.
unfoldable pub copy_body : List Turn → Text × LoopEnd
copy_body [] = ([], at_eof)
copy_body (t ∷ ts) =
    let r = copy_body ts in
    after_write t.write_fails t.bytes (after_read t.read_error false t.bytes r)

-- The bundle that the script was started with, if it was.
abbrev pub launched : Bool → VersionInfo → Host → Host × Option Text
launched true v h = (report (text "installing") h, some (app_bundle v.version))
launched false v h = (report (text "detached_start_failed") (report (text "installing") h), none)

abbrev pub saved : Bool → VersionInfo → Host → LoopEnd → Host × Option Text
saved starts v h at_eof = launched starts v h
saved starts v h _ = (report (text "save_file_failed") h, none)

abbrev pub created_bundle : Bool → VersionInfo → HttpResponse → Host × Bool → Host × Option Text
created_bundle starts v r (h, false) = (report (text "create_file_failed") h, none)
created_bundle starts v r (h, true) =
    let c = copy_body r.turns in
    saved starts v (record h { files = put (app_bundle v.version) c.0 h.files }) c.1

abbrev pub fetched : Bool → VersionInfo → Option HttpResponse × Host → Host × Option Text
fetched starts v (none, h) = (report (text "download_failed") h, none)
fetched starts v (some r, h) =
    if r.http_status == 200
    then created_bundle starts v r (create_file (app_bundle v.version) [] h)
    else (report (text "download_http") h, none)

abbrev pub update_offered : Bool → Option VersionInfo × Host → Host × Option Text
update_offered starts (none, h) = (h, none)
update_offered starts (some v, h) =
    let h' = record h { faults = rest h.faults } in
    if first_or false h.faults
    then (report (text "mkdir_failed") h', none)
    else if is_there (lookup (app_bundle v.version) h'.files)
    then launched starts v h'
    else fetched starts v (do_request (report (text "downloading") h'))

-- `none` for an error. `locked`: the lock of the script is held; `has_update` is what CheckAppUpdate
-- says; `local`: readLocalVersionInfo succeeds; `starts`: the script can be started.
unfoldable pub update_app_version : Bool → Bool → Bool → Bool → Host → Host × Option Text
unfolding check_cloud do_request create_file copy_body
update_app_version locked has_update local starts h =
    if locked || not has_update || not local
    then (h, none)
    else update_offered starts (check_cloud h)
