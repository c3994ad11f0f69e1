-- ===== src/Updates/Check.antt =====
-- CheckUpdate of service/system.go: whether there is an upgrade of the system, and how far it is.
--
-- The cache is what Cache.Get finds, and behind the call what it holds. GetOSVersion and
-- readLocalVersionInfo read files, and are arguments.
use nimo_os.Base.{
  ℕ, suc, Bool, true, false, not, ◌&&◌, List, [], ◌∷◌, Option, none, some, any, ◌==◌, ◌++◌,
  if◌then◌else◌,
}
use nimo_os.Text.{Text, eqb, drop_prefix, text}
use nimo_os.OpQueue.{sort_texts}
use nimo_os.Maps.{Map}
use nimo_os.Files.Naming.{ext}
use nimo_os.Updates.{Status, running, paused, completed, Host, VersionInfo, check_cloud, is_in}
use nimo_os.Updates.Os.{os_dir}
use nimo_os.Updates.Versions.{ℤ, pos, compare_versions}

pub record UpgradeCheckResult : Type 0 where
  pub has_update : Bool
  pub current_version : Text
  pub latest_version : Text
  pub is_downloaded : Bool
  pub is_downloading : Bool
  pub is_paused : Bool
  pub changelog : Text
  pub size : ℕ

abbrev pub no_update : Text → UpgradeCheckResult
no_update version = record {
  has_update = false;
  current_version = version;
  latest_version = [];
  is_downloaded = false;
  is_downloading = false;
  is_paused = false;
  changelog = [];
  size = 0;
}

abbrev pub has_slash : Text → Bool
has_slash s = any (λ c. c == b'/') s

-- The names of the files in a directory.
unfoldable pub names_in : Text → Map Text → List Text
names_in dir [] = []
names_in dir ((path, c) ∷ files) =
    let others = names_in dir files in
    if is_in (eqb dir) path && not (has_slash (drop_prefix path (dir ++ (b'/' ∷ []))))
    then drop_prefix path (dir ++ (b'/' ∷ [])) ∷ others
    else others

-- os.ReadDir, which sorts by name; the names are those of the files.
unfoldable pub list_dir : Text → Map Text → List Text
unfolding names_in sort_texts
list_dir dir files = sort_texts (names_in dir files)

abbrev pub is_raucb : Text → Bool
is_raucb name = eqb (ext name) (text ".raucb")

-- The loop over the entries: whether a bundle is there, and whether a rest of a download stands
-- before it.
unfoldable pub scan : List Text → Bool × Bool
scan [] = (false, false)
scan (name ∷ names) =
    let others = scan names in
    if is_raucb name
    then (true, false)
    else if eqb (ext name) (text ".tmp")
    then (others.0, true)
    else others

abbrev pub must_recheck : Status → Bool
must_recheck running = true
must_recheck completed = true
must_recheck _ = false

-- The cached result, if it is to be returned.
unfoldable pub still_valid : Option UpgradeCheckResult → Host → Option UpgradeCheckResult
unfolding list_dir
still_valid none h = none
still_valid (some r) h =
    if must_recheck h.downloader.status
    then none
    else if r.is_downloaded && not (any is_raucb (list_dir (os_dir r.latest_version) h.files))
    then none
    else some r

-- The override by the state of the downloader.
abbrev pub with_downloader : Status → UpgradeCheckResult → UpgradeCheckResult
with_downloader running r = record r { is_downloading = true; is_paused = false }
with_downloader paused r = record r { is_paused = true }
with_downloader _ r = r

abbrev pub is_above : ℤ → Bool
is_above (pos (suc n)) = true
is_above _ = false

-- `none` for a panic of compareVersions. A result for a version that is not above is not cached.
abbrev pub judged :
    Option ℤ
    → UpgradeCheckResult
    → VersionInfo
    → Host
    → Option (UpgradeCheckResult × Option UpgradeCheckResult × Host)
judged none r v h = none
judged (some z) r v h =
    let found = scan (list_dir (os_dir v.version) h.files) in
    let r' =
      with_downloader h.downloader.status
        (record r { is_downloaded = found.0; is_paused = found.1 }) in
    let r'' = record r' { has_update = true } in
    if is_above z then some (r'', some r'', h) else some (r, none, h)

abbrev pub answered :
    Text
    → Option VersionInfo × Host
    → Option (UpgradeCheckResult × Option UpgradeCheckResult × Host)
answered version (none, h) = some (no_update version, some (no_update version), h)
answered version (some v, h) =
    judged (compare_versions v.version version)
      (record (no_update version) {
        latest_version = v.version;
        size = v.size;
        changelog = v.changelog;
      })
      v h

abbrev pub or_fresh :
    Text
    → Bool
    → Option UpgradeCheckResult
    → Option UpgradeCheckResult
    → Host
    → Option (UpgradeCheckResult × Option UpgradeCheckResult × Host)
or_fresh version local (some r) cache h = some (r, cache, h)
or_fresh version false none cache h = some (no_update version, some (no_update version), h)
or_fresh version true none cache h = answered version (check_cloud h)

unfoldable pub check_update :
    Text
    → Bool
    → Option UpgradeCheckResult
    → Host
    → Option (UpgradeCheckResult × Option UpgradeCheckResult × Host)
unfolding still_valid check_cloud scan list_dir compare_versions
check_update version local cache h = or_fresh version local (still_valid cache h) cache h
