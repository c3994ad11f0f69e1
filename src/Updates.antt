-- ===== src/Updates.antt =====
-- The downloads of upgrades, service/system.go: the state of a downloader, its host and its files.
--
-- Files are those below /var/lib/nimoos_data/upgrade, by the path behind it. What the network is to
-- bring comes with the host: the answers of the cloud to come, `none` for an error, and the replies
-- to the requests to come, `none` for a request that fails. `faults` says which of the creations,
-- renames and removals to come fail. The progress, a floating-point number, is not kept.
pub mod Transfer
pub mod App
pub mod Os
pub mod Files
pub mod Offered
pub mod Verified
pub mod VerifiedOs
pub mod Settled
pub mod Versions
pub mod Check
pub mod Sound
pub mod Downloader
pub mod Single
pub mod Found
pub mod Install
pub mod Installing
pub mod System
pub mod Chosen
pub mod Examples
use nimo_os.Base.{
  ℕ, ◌+◌, Bool, true, false, ◌&&◌, List, [], ◌∷◌, map, Option, none, some, ◌==◌, leb, any,
  if◌then◌else◌,
}
use nimo_os.Text.{Text, eqb, before}
use nimo_os.Maps.{Map, lookup, put, delete}

pub data Status : Type 0 where
  idle : Status
  running : Status
  paused : Status
  completed : Status
  failed : Status

-- `cancel` is the context that the cancel function cancels.
pub record DownloaderState : Type 0 where
  pub status : Status
  pub version : Text
  pub cancel : Option ℕ
  pub download_dir : Text

pub record VersionInfo : Type 0 where
  pub version : Text
  pub changelog : Text
  pub download_url : Text
  pub sha256 : Text
  pub size : ℕ

-- What one Body.Read does: the bytes, and whether more follow.
pub data ReadError : Type 0 where
  more : ReadError
  eof : ReadError
  broken : ReadError

-- One turn of the loop that reads: whether the context is done before it, what is read, how many of
-- the bytes are written if the write fails, and whether the context is done behind it.
pub record Turn : Type 0 where
  pub done : Bool
  pub bytes : Text
  pub write_fails : Option ℕ
  pub read_error : ReadError
  pub ctx_err : Bool

-- The content length is `none` where it is -1.
pub record HttpResponse : Type 0 where
  pub http_status : ℕ
  pub content_length : Option ℕ
  pub turns : List Turn

pub record Host : Type 0 where
  pub downloader : DownloaderState
  pub files : Map Text
  pub answers : List (Option (Bool × Option VersionInfo))
  pub replies : List (Option HttpResponse)
  pub faults : List Bool
  -- Whether os.Open of a file that is there fails.
  pub open_fails : Bool
  -- The versions of the events `downloaded`, and the errors told to the cloud.
  pub published : List Text
  pub reported : List Text

abbrev pub clears_cancel : Status → Bool
clears_cancel completed = true
clears_cancel failed = true
clears_cancel idle = true
clears_cancel _ = false

-- setDownloaderStatus and setAppDownloaderStatus
unfoldable pub with_status : Status → DownloaderState → DownloaderState
with_status s d = record d { status = s; cancel = if clears_cancel s then none else d.cancel }

unfoldable pub set_downloader_status : Status → Host → Host
unfolding with_status
set_downloader_status s h = record h { downloader = with_status s h.downloader }

abbrev pub first_or {ℓ} : {A : Type ℓ} → A → List A → A
first_or x [] = x
first_or x (y ∷ ys) = y

abbrev pub rest {ℓ} : {A : Type ℓ} → List A → List A
rest [] = []
rest (y ∷ ys) = ys

-- os.Remove, whose error the program ignores.
unfoldable pub remove_file : Text → Host → Host
remove_file p h = record h {
  files = if first_or false h.faults then h.files else delete p h.files;
  faults = rest h.faults;
}

-- os.Create and os.OpenFile: the file gets a content, unless it cannot be opened.
unfoldable pub create_file : Text → Text → Host → Host × Bool
create_file p c h =
    if first_or false h.faults
    then (record h { faults = rest h.faults }, false)
    else (record h { files = put p c h.files; faults = rest h.faults }, true)

abbrev pub renamed_to : Text → Text → Option Text → Host → Host × Bool
renamed_to p q none h = (h, false)
renamed_to p q (some c) h = (record h { files = put q c (delete p h.files) }, true)

-- os.Rename
unfoldable pub rename_file : Text → Text → Host → Host × Bool
rename_file p q h =
    let h' = record h { faults = rest h.faults } in
    if first_or false h.faults then (h', false) else renamed_to p q (lookup p h.files) h'

-- The first answer that has an update and a version.
abbrev pub offered : Option (Bool × Option VersionInfo) → Option VersionInfo
offered (some (true, some v)) = some v
offered _ = none

unfoldable pub check_cloud : Host → Option VersionInfo × Host
check_cloud h = (offered (first_or none h.answers), record h { answers = rest h.answers })

unfoldable pub do_request : Host → Option HttpResponse × Host
do_request h = (first_or none h.replies, record h { replies = rest h.replies })

abbrev pub report : Text → Host → Host
report e h = record h { reported = e ∷ h.reported }

abbrev pub publish : Text → Host → Host
publish v h = record h { published = v ∷ h.published }

-- Whether a path lies in a directory whose name passes a test.
abbrev pub is_in : (Text → Bool) → Text → Bool
is_in p path = any (λ c. c == b'/') path && p (before b'/' path)

-- os.RemoveAll of every directory whose name passes a test.
unfoldable pub remove_dirs : (Text → Bool) → Map Text → Map Text
remove_dirs p [] = []
remove_dirs p ((path, c) ∷ files) =
    let others = remove_dirs p files in if is_in p path then others else (path, c) ∷ others

unfoldable pub cleanup : (Text → Bool) → Host → Host
unfolding remove_dirs
cleanup p h = record h { files = remove_dirs p h.files }

abbrev lower : ℕ → ℕ
lower c = if leb b'A' c && leb c b'Z' then c + 32 else c

-- strings.EqualFold, where one of the strings is hexadecimal.
unfoldable pub equal_fold : Text → Text → Bool
equal_fold s t = eqb (map lower s) (map lower t)
