-- ===== src/Updates/Downloader.antt =====
-- DownloadUpdate, CancelDownload and the status of the downloader in service/system.go, as steps of
-- the goroutines. The application downloader has the same functions on a state of its own.
--
-- A run is the number of its context. `live` are the runs that have not ended yet, and `cancelled`
-- those whose context is cancelled.
use nimo_os.Base.{
  ℕ, suc, Bool, true, false, not, List, ◌∷◌, Option, none, some, ◌==◌, if◌then◌else◌, select,
}
use nimo_os.Updates.{Status, idle, running, DownloaderState, with_status}

pub record Service : Type 0 where
  pub downloader : DownloaderState
  pub live : List ℕ
  pub cancelled : List ℕ
  pub next : ℕ

abbrev pub is_running : Status → Bool
is_running running = true
is_running _ = false

-- DownloadUpdate and DownloadAppUpdate
unfoldable pub download_update : Service → Service
download_update s = if is_running s.downloader.status then s else record s {
  downloader = record s.downloader { status = running; cancel = some s.next };
  live = s.next ∷ s.live;
  next = suc s.next;
}

abbrev pub called : Option ℕ → List ℕ → List ℕ
called none cs = cs
called (some c) cs = c ∷ cs

-- CancelDownload and CancelAppDownload, with the cache left out.
unfoldable pub cancel_download : Service → Service
unfolding with_status
cancel_download s = record s {
  cancelled = called s.downloader.cancel s.cancelled;
  downloader = with_status idle s.downloader;
}

-- A run ends with setDownloaderStatus.
unfoldable pub end_download : ℕ → Status → Service → Service
unfolding with_status
end_download run status s = record s {
  downloader = with_status status s.downloader;
  live = select (λ r. not (r == run)) s.live;
}
