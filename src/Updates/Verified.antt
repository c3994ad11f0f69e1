-- ===== src/Updates/Verified.antt =====
-- Which application bundles runAppDownload of service/system.go puts in place.
use nimo_os.Base.{
  ◌≡◌, refl, sym, ap, ◌∙◌, Bool, true, false, List, [], Option, none, some, ◌⊎◌, inl, inr,
  Bool-cases, arith, ◌==◌, ℕ, length,
}
use nimo_os.Updates.Offered.{IsOffered, offered-first, offered-rest, IsGenuine, last, last-append}
use nimo_os.Text.{Text, eqb, is_empty, text}
use nimo_os.Text.Laws.{eqb→eq}
use nimo_os.Maps.{Map, lookup, put}
use nimo_os.Updates.{
  Host, VersionInfo, HttpResponse, first_or, rest, offered, equal_fold, remove_file, create_file,
  rename_file, check_cloud, do_request, report,
}
use nimo_os.Updates.Transfer.{
  LoopEnd, at_eof, on_cancel, on_write, on_read, write_body, download_size,
}
use nimo_os.Updates.App.{
  app_dir, app_temp, app_bundle, installed, install_app, is_rejected, verify_app, is_incomplete,
  end_app, opened_app, store_app, retried_reply, retried, retry_app, first_reply, enter_app,
  download_app, picked_app, run_app_download, is_there, is_old_app,
}
use nimo_os.Updates.Files.{
  Only, Only-refl, Only-trans, remove_file-Only, create_file-Only, rename_file-Only,
  remove_dirs-Only, put-Only, create_file-open_fails, lookup-put_here,
}

same_last :
    (x y : Text) → app_temp x ≡ app_bundle y → last (text ".tmp") ≡ last (text "/bundle.tar.gz")
same_last x y e =
    sym (last-append (app_bundle x) b'.' (text "tmp"))
    ∙ ap last e
    ∙ last-append (app_dir y) b'/' (text "bundle.tar.gz")

temp-bundle : (x y : Text) → eqb (app_temp x) (app_bundle y) ≡ false
temp-bundle x y = elim (Bool-cases (eqb (app_temp x) (app_bundle y))) [
  | inl e ↦ ground (arith, same_last x y (eqb→eq _ _ e))
  | inr e ↦ e
]

module _ (sha256 : Text → Text) (answers : List (Option (Bool × Option VersionInfo))) where
  abbrev Good : Text → Type 0
  Good = IsGenuine sha256 answers

  installed-Only :
      (v : VersionInfo) (tmp : Text) (f : Map Text) (r : Host × Bool)
      → Only Good tmp f r.0.files
      → Only Good tmp f (installed sha256 v tmp r).files
  unfolding nimo_os.Updates.set_downloader_status nimo_os.Updates.cleanup
  installed-Only v tmp f (h, false) k =
      Only-trans Good tmp f h.files _ k (remove_file-Only Good tmp tmp h)
  installed-Only v tmp f (h, true) k =
      Only-trans Good tmp f h.files _ k (remove_dirs-Only Good tmp (is_old_app v.version) h.files)

  accepted :
      (v : VersionInfo) (c : Text) (h : Host)
      → h.open_fails ≡ false
      → is_rejected sha256 v c h ≡ false
      → equal_fold (sha256 c) v.sha256 ≡ true
  accepted v c h n g = ground arith

  verify_app-Only :
      (dir : Text) (v : VersionInfo) (c : Text) (h : Host)
      → IsOffered v answers
      → h.open_fails ≡ false
      → lookup (app_temp dir) h.files ≡ some c
      → Only Good (app_temp dir) h.files (verify_app sha256 dir v c h).files
  unfolding verify_app install_app nimo_os.Updates.set_downloader_status
  verify_app-Only dir v c h o n l = elim (Bool-cases (is_empty v.sha256)) [
    | inl e ↦ rw e (remove_file-Only Good _ _ (report (text "sha256_missing") h))
    | inr e ↦ elim (Bool-cases (is_rejected sha256 v c h)) [
      | inl g ↦ rw (e, g) (remove_file-Only Good _ _ (report (text "sha256_mismatch") h))
      | inr g ↦
          rw (e, g)
            (installed-Only v (app_temp dir) h.files (rename_file (app_temp dir) (app_bundle dir) h)
              (rename_file-Only Good (app_temp dir) (app_bundle dir) c h l
                (v, (o, accepted v c h n g))))
    ]
  ]

  end_app-Only :
      (dir : Text) (v : VersionInfo) (total : ℕ) (c : Text) (e : LoopEnd) (h : Host)
      → IsOffered v answers
      → h.open_fails ≡ false
      → lookup (app_temp dir) h.files ≡ some c
      → Only Good (app_temp dir) h.files (end_app sha256 dir v total c e h).files
  unfolding end_app nimo_os.Updates.set_downloader_status
  end_app-Only dir v total c at_eof h o n l =
      elim (Bool-cases (is_incomplete sha256 total (length c))) [
        | inl i ↦ rw i (remove_file-Only Good _ _ h)
        | inr i ↦ rw i (verify_app-Only dir v c h o n l)
      ]
  end_app-Only dir v total c on_cancel h o n l = remove_file-Only Good _ _ h
  end_app-Only dir v total c on_write h o n l = Only-refl Good _ h.files
  end_app-Only dir v total c on_read h o n l = Only-refl Good _ h.files

  opened_app-Only :
      (dir : Text) (v : VersionInfo) (r : HttpResponse) (f : Map Text) (o : Host × Bool)
      → IsOffered v answers
      → o.0.open_fails ≡ false
      → Only Good (app_temp dir) f o.0.files
      → Only Good (app_temp dir) f (opened_app sha256 dir v r o).files
  unfolding nimo_os.Updates.set_downloader_status
  opened_app-Only dir v r f (h, false) o n k = k
  opened_app-Only dir v r f (h, true) o n k =
      let c = (write_body r.turns).0 in
      Only-trans Good (app_temp dir) f h.files _ k (
        Only-trans Good (app_temp dir) h.files (put (app_temp dir) c h.files) _
          (put-Only Good (app_temp dir) c h.files)
          (end_app-Only dir v (download_size v r) c (write_body r.turns).1
            (record h { files = put (app_temp dir) c h.files }) o n
            (lookup-put_here (app_temp dir) c h.files)))

  store_app-Only :
      (dir : Text) (v : VersionInfo) (r : HttpResponse) (h : Host)
      → IsOffered v answers
      → h.open_fails ≡ false
      → Only Good (app_temp dir) h.files (store_app sha256 dir v r h).files
  unfolding store_app
  store_app-Only dir v r h o n =
      opened_app-Only dir v r h.files (create_file (app_temp dir) [] h) o
        (create_file-open_fails (app_temp dir) [] h ∙ n) (create_file-Only Good (app_temp dir) [] h)

  retried_reply-Only :
      (dir : Text) (v : VersionInfo) (r : Option HttpResponse × Host)
      → IsOffered v answers
      → r.1.open_fails ≡ false
      → Only Good (app_temp dir) r.1.files (retried_reply sha256 dir v r).files
  unfolding nimo_os.Updates.set_downloader_status
  retried_reply-Only dir v (none, h) o n = Only-refl Good _ h.files
  retried_reply-Only dir v (some r, h) o n = elim (Bool-cases (r.http_status == 200)) [
    | inl e ↦ rw e (store_app-Only dir v r h o n)
    | inr e ↦ rw e (Only-refl Good _ h.files)
  ]

  retried-Only :
      (dir : Text) (r : Option VersionInfo × Host)
      → ((v : VersionInfo) → r.0 ≡ some v → IsOffered v answers)
      → r.1.open_fails ≡ false
      → Only Good (app_temp dir) r.1.files (retried sha256 dir r).files
  unfolding nimo_os.Updates.set_downloader_status do_request
  retried-Only dir (none, h) o n = Only-refl Good _ h.files
  retried-Only dir (some v, h) o n = retried_reply-Only dir v (do_request h) (o v refl) n

  first_reply-Only :
      (v : VersionInfo) (r : Option HttpResponse × Host)
      → IsOffered v answers
      → ((w : VersionInfo) → offered (first_or none r.1.answers) ≡ some w → IsOffered w answers)
      → r.1.open_fails ≡ false
      → Only Good (app_temp v.version) r.1.files (first_reply sha256 v r).files
  unfolding nimo_os.Updates.set_downloader_status retry_app check_cloud
  first_reply-Only v (none, h) o w n = Only-refl Good _ h.files
  first_reply-Only v (some r, h) o w n = elim (Bool-cases (r.http_status == 200)) [
    | inl e ↦ rw e (store_app-Only v.version v r h o n)
    | inr e ↦ rw e (retried-Only v.version (check_cloud h) w n)
  ]

  download_app-Only :
      (v : VersionInfo) (h : Host)
      → IsOffered v answers
      → ((w : VersionInfo) → offered (first_or none h.answers) ≡ some w → IsOffered w answers)
      → h.open_fails ≡ false
      → Only Good (app_temp v.version) h.files (download_app sha256 v h).files
  unfolding download_app remove_file do_request nimo_os.Updates.set_downloader_status
  download_app-Only v h o w n =
      let h' = remove_file (app_temp v.version) (enter_app sha256 v h) in
      Only-trans Good (app_temp v.version) h.files h'.files _
        (remove_file-Only Good (app_temp v.version) (app_temp v.version) (enter_app sha256 v h))
        (elim (Bool-cases (is_there (lookup (app_bundle v.version) h'.files))) [
          | inl e ↦ rw e (Only-refl Good _ h'.files)
          | inr e ↦ rw e (first_reply-Only v (do_request (report (text "downloading") h')) o w n)
        ])

  picked_app-Only :
      (r : Option VersionInfo × Host)
      → ((v : VersionInfo) → r.0 ≡ some v → IsOffered v answers)
      → ((w : VersionInfo) → offered (first_or none r.1.answers) ≡ some w → IsOffered w answers)
      → r.1.open_fails ≡ false
      → (x c : Text) → lookup (app_bundle x) (picked_app sha256 r).files ≡ some c
      → (lookup (app_bundle x) r.1.files ≡ some c) ⊎ Good c
  unfolding nimo_os.Updates.set_downloader_status
  picked_app-Only (none, h) o w n x c l = inl l
  picked_app-Only (some v, h) o w n x c l =
      download_app-Only v h (o v refl) w n (app_bundle x) c (temp-bundle v.version x) l

-- If os.Open does not fail, a bundle that is in place behind a download was there before, or its
-- content has the SHA-256 of a version that the cloud offered, however the download goes: whichever
-- of the other calls fail, and whether the address had to be refreshed.
pub run_app_download-IsGenuine :
    (sha256 : Text → Text) (local : Bool) (h : Host)
    → h.open_fails ≡ false
    → (version content : Text)
    → lookup (app_bundle version) (run_app_download sha256 local h).files ≡ some content
    → (lookup (app_bundle version) h.files ≡ some content) ⊎ IsGenuine sha256 h.answers content
unfolding run_app_download check_cloud nimo_os.Updates.set_downloader_status
run_app_download-IsGenuine sha256 false h n x c l = inl l
run_app_download-IsGenuine sha256 true h n x c l =
    picked_app-Only sha256 h.answers (check_cloud h) (λ v e. offered-first v h.answers e)
      (λ w e. offered-rest w h.answers e) n x c l
