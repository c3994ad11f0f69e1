-- ===== src/Updates/Examples.antt =====
-- Runs of the downloads and checks of service/system.go on concrete hosts.
use nimo_os.Base.{
  ◌≡◌, refl, ap, sym, not, ◌||◌, true, false, [], ◌∷◌, Option, none, some, ◌⊎◌, inl, inr, arith,
  any, ◌==◌,
}
use nimo_os.Text.{Text, eqb, text}
use nimo_os.Maps.{lookup}
use nimo_os.Updates.{
  idle, running, VersionInfo, Turn, ReadError, more, eof, broken, HttpResponse, Host,
}
use nimo_os.Updates.App.{app_bundle, run_app_download}
use nimo_os.Updates.Os.{os_bundle, run_download}
use nimo_os.Updates.Offered.{IsOffered, IsGenuine}
use nimo_os.Updates.Verified.{run_app_download-IsGenuine}
use nimo_os.Updates.VerifiedOs.{run_download-IsGenuine}
use nimo_os.Updates.Settled.{IsSettled, run_download-IsSettled}
use nimo_os.Updates.Check.{UpgradeCheckResult, check_update}
use nimo_os.Updates.Found.{check_update-run_download}
use nimo_os.Updates.Install.{copy_body, update_app_version}
use nimo_os.Updates.Installing.{offering, update_app_version-partial}
use nimo_os.Updates.Sound.{IsSound, IsCached, check_update-IsSound}
use nimo_os.Updates.Downloader.{Service, download_update, cancel_download, end_download}
use nimo_os.Updates.Single.{
  IsSingle, at_start, starts, idle_service, Uncancelled-IsSingle, end_download-orphans,
}

-- In the place of SHA-256, the bytes themselves.
abbrev hash : Text → Text
hash s = s

abbrev info : VersionInfo
info = record {
  version = text "2.0.0";
  changelog = [];
  download_url = text "/x";
  sha256 = text "AB";
  size = 2;
}

abbrev turn : Text → ReadError → Turn
turn s e = record { done = false; bytes = s; write_fails = none; read_error = e; ctx_err = false }

abbrev response : HttpResponse
response = record {
  http_status = 200;
  content_length = some 2;
  turns = turn (text "a") more ∷ turn (text "b") eof ∷ [];
}

abbrev host : Host
host = record {
  downloader = record { status = running; version = []; cancel = some 0; download_dir = [] };
  files = [];
  answers = some (true, some info) ∷ [];
  replies = some response ∷ [];
  faults = [];
  open_fails = false;
  published = [];
  reported = [];
}

-- The response brings what the hash asks for.
app_installed :
    lookup (app_bundle (text "2.0.0")) (run_app_download hash true host).files ≡ some (text "ab")
unfolding lookup run_app_download nimo_os.Maps.delete eqb nimo_os.Maps.put nimo_os.Text.before
app_installed = refl

run_app_download-IsGenuine_example :
    (lookup (app_bundle (text "2.0.0")) [] ≡ some (text "ab"))
    ⊎ IsGenuine hash host.answers (text "ab")
run_app_download-IsGenuine_example =
    run_app_download-IsGenuine hash true host refl (text "2.0.0") (text "ab") app_installed

os_installed :
    lookup (os_bundle (text "2.0.0")) (run_download hash true true false host).files
    ≡ some (text "ab")
unfolding lookup run_download eqb nimo_os.Maps.put nimo_os.Text.before
os_installed = refl

run_download-IsGenuine_example :
    (lookup (os_bundle (text "2.0.0")) [] ≡ some (text "ab"))
    ⊎ IsGenuine hash host.answers (text "ab")
run_download-IsGenuine_example =
    run_download-IsGenuine hash true true false host (text "2.0.0") (text "ab") os_installed

abbrev version_or : Option VersionInfo → Text
version_or none = []
version_or (some v) = v.version

only_info : (v : VersionInfo) → IsOffered v host.answers → v.version ≡ text "2.0.0"
only_info v (inl e) = ap version_or (sym e)
only_info v (inr e) = elim e [ ]

run_download-IsSettled_example : IsSettled (text "2.0.0") (run_download hash true true false host)
run_download-IsSettled_example =
    run_download-IsSettled hash (text "2.0.0") refl true true host only_info

abbrev checked : UpgradeCheckResult
checked = record {
  has_update = true;
  current_version = text "1.9.9";
  latest_version = text "2.0.0";
  is_downloaded = false;
  is_downloading = true;
  is_paused = false;
  changelog = [];
  size = 2;
}

check_update-IsSound_example : IsSound checked × IsCached (some checked)
unfolding check_update
check_update-IsSound_example =
    check_update-IsSound (text "1.9.9") true none host tt checked (some checked)
      (record host { answers = [] }) refl

abbrev broken_off : HttpResponse
broken_off = record response { turns = turn (text "a") broken ∷ [] }

update_app_version-partial_example :
    ((update_app_version false true true true (offering info info broken_off host)).1 ≡ none)
    × ((lookup
            (app_bundle (text "2.0.0"))
            (update_app_version false true true true (offering info info broken_off host)).0.files
          ≡ some (text "a"))
        × ((update_app_version false true true true
              (update_app_version false true true true (offering info info broken_off host)).0).1
            ≡ some (app_bundle (text "2.0.0"))))
unfolding copy_body lookup
update_app_version-partial_example =
    update_app_version-partial info info broken_off host refl refl refl refl

abbrev downloaded : Host
downloaded = run_download hash true true false host

abbrev found : UpgradeCheckResult
found = record checked { is_downloaded = true; is_downloading = false }

check_update-run_download_example : (not found.has_update || found.is_downloaded) ≡ true
unfolding check_update run_download lookup eqb nimo_os.Maps.put nimo_os.Text.before
    nimo_os.Text.drop_prefix nimo_os.OpQueue.insert_text nimo_os.Files.Naming.ext
check_update-run_download_example =
    check_update-run_download hash (text "2.0.0") host info (text "1.9.9") none refl only_info refl
      refl found (some found) (record downloaded { answers = [] }) refl

Uncancelled-IsSingle_example : IsSingle (download_update idle_service)
Uncancelled-IsSingle_example =
    Uncancelled-IsSingle (download_update idle_service) (starts idle_service at_start)

abbrev started : Service
started = download_update idle_service

abbrev restarted : Service
restarted = end_download 0 idle (download_update (cancel_download started))

end_download-orphans_example :
    (any (λ r. r == 1) restarted.live ≡ true)
    × (((cancel_download restarted).cancelled ≡ (cancel_download started).cancelled)
        × ((download_update restarted).live ≡ 2 ∷ restarted.live))
unfolding download_update
end_download-orphans_example = end_download-orphans started 0 idle (omega arith) refl
