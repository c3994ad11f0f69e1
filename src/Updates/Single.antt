-- ===== src/Updates/Single.antt =====
-- How many downloads run at once in service/system.go.
use nimo_os.Base.{
  ℕ, suc, ◌≡◌, refl, ◌<◌, ◌⊎◌, inl, inr, true, false, not, [], ◌∷◌, none, some, arith, any, ◌==◌,
  select, subst,
}
use nimo_os.Updates.{Status, idle, running, paused, failed, completed, with_status, clears_cancel}
use nimo_os.Updates.Downloader.{Service, is_running, download_update, cancel_download, end_download}

abbrev pub idle_service : Service
idle_service = record {
  downloader = record { status = idle; version = []; cancel = none; download_dir = [] };
  live = [];
  cancelled = [];
  next = 0;
}

-- What happens as long as nobody cancels: a request for a download, and the end of a run.
pub data Uncancelled : Service → Type 0 where
  at_start : Uncancelled idle_service
  starts : (s : Service) → Uncancelled s → Uncancelled (download_update s)
  ends :
      (s : Service) (run : ℕ) (status : Status)
      → Uncancelled s
      → any (λ r. r == run) s.live ≡ true
      → is_running status ≡ false
      → Uncancelled (end_download run status s)

-- One run and its cancel function while the downloader is running, and no run otherwise.
abbrev pub IsSingle : Service → Type 0
IsSingle s =
    ((is_running s.downloader.status ≡ true)
      × ((run : ℕ) × ((s.live ≡ run ∷ []) × (s.downloader.cancel ≡ some run))))
    ⊎ ((is_running s.downloader.status ≡ false) × (s.live ≡ []))

download_update-IsSingle : (s : Service) → IsSingle s → IsSingle (download_update s)
unfolding download_update
download_update-IsSingle s (inl (e, k)) = rw e (inl (e, k))
download_update-IsSingle s (inr (e, k)) = rw (e, k) (inl (refl, (s.next, (refl, refl))))

ended :
    (run r : ℕ) → any (λ x. x == run) (r ∷ []) ≡ true → select (λ x. not (x == run)) (r ∷ []) ≡ []
ended run r h = ground arith

end_download-IsSingle :
    (s : Service) (run : ℕ) (status : Status)
    → any (λ r. r == run) s.live ≡ true
    → is_running status ≡ false
    → IsSingle s
    → IsSingle (end_download run status s)
unfolding end_download with_status
end_download-IsSingle s run status m f (inl (e, (r, (l, c)))) =
    inr (f, rw l (ended run r (subst (λ xs. any (λ x. x == run) xs ≡ true) l m)))
end_download-IsSingle s run status m f (inr (e, l)) = inr (f, rw l refl)

-- As long as no download is cancelled, at most one runs at a time: exactly one while the status is
-- running, which the stored cancel function cancels, and none otherwise.
pub Uncancelled-IsSingle : (s : Service) → Uncancelled s → IsSingle s
Uncancelled-IsSingle _ at_start = inr (refl, refl)
Uncancelled-IsSingle _ (starts s u) = download_update-IsSingle s (Uncancelled-IsSingle s u)
Uncancelled-IsSingle _ (ends s run status u m f) =
    end_download-IsSingle s run status m f (Uncancelled-IsSingle s u)

-- A download that is cancelled and started again before the first run has ended gets lost when that
-- run ends as idle, failed or completed: the second run goes on, no cancel function reaches it, so
-- that CancelDownload cancels nothing, and DownloadUpdate starts a third one beside it.
pub end_download-orphans :
    (s : Service) (run : ℕ) (status : Status)
    → run < s.next
    → clears_cancel status ≡ true
    → (any (λ r. r == s.next) (end_download run status (download_update (cancel_download s))).live
        ≡ true)
      × (((cancel_download
              (end_download run status (download_update (cancel_download s)))).cancelled
            ≡ (cancel_download s).cancelled)
          × ((download_update (end_download run status (download_update (cancel_download s)))).live
              ≡ suc s.next ∷ (end_download run status (download_update (cancel_download s))).live))
unfolding end_download with_status download_update cancel_download
end_download-orphans s run idle l c = (ground arith, (refl, ground arith))
end_download-orphans s run failed l c = (ground arith, (refl, ground arith))
end_download-orphans s run completed l c = (ground arith, (refl, ground arith))
end_download-orphans s run running l c = (ground arith, (ground arith, ground arith))
end_download-orphans s run paused l c = (ground arith, (ground arith, ground arith))
