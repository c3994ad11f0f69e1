-- ===== src/Updates/VerifiedOs.antt =====
-- Which bundles of the system runDownload of service/system.go puts in place.
use mathlib.Core.List.{append_assoc}
use nimo_os.Base.{
  ◌≡◌, refl, sym, ap, ◌∙◌, Bool, true, false, List, ◌++◌, Option, none, some, ◌⊎◌, inl, inr,
  Bool-cases, arith,
}
use nimo_os.Text.{Text, eqb, text}
use nimo_os.Text.Laws.{eqb→eq}
use nimo_os.Maps.{Map, lookup, put}
use nimo_os.Updates.{
  Host, VersionInfo, HttpResponse, first_or, offered, equal_fold, create_file, rename_file,
  check_cloud, do_request, set_downloader_status, cleanup,
}
use nimo_os.Updates.Transfer.{LoopEnd, at_eof, on_cancel, on_write, on_read, write_body}
use nimo_os.Updates.App.{is_there}
use nimo_os.Updates.Os.{
  os_dir, os_temp, os_bundle, is_old_os, installed_os, verify_os, end_os, opened_os, kept_content,
  store_os, is_success, retried_reply_os, retried_os, retry_os, first_reply_os, enter_os,
  download_os, picked_os, run_download,
}
use nimo_os.Updates.Offered.{IsOffered, offered-first, offered-rest, IsGenuine, last, last-append}
use nimo_os.Updates.Files.{
  Only, if-Only, Only-refl, Only-trans, remove_file-Only, create_file-Only, rename_file-Only,
  remove_dirs-Only, put-Only, lookup-put_here,
}

same_last : (x y : Text) → os_temp x ≡ os_bundle y → last (text ".tmp") ≡ last (text ".raucb")
same_last x y e =
    sym (last-append (os_bundle x) b'.' (text "tmp"))
    ∙ ap last e
    ∙ ap last (sym (append_assoc (os_dir y) (text "/nimo_update_") (y ++ text ".raucb")))
    ∙ ap last (sym (append_assoc (os_dir y ++ text "/nimo_update_") y (text ".raucb")))
    ∙ last-append ((os_dir y ++ text "/nimo_update_") ++ y) b'.' (text "raucb")

temp-bundle : (x y : Text) → eqb (os_temp x) (os_bundle y) ≡ false
temp-bundle x y = elim (Bool-cases (eqb (os_temp x) (os_bundle y))) [
  | inl e ↦ ground (arith, same_last x y (eqb→eq _ _ e))
  | inr e ↦ e
]

module _ (sha256 : Text → Text) (answers : List (Option (Bool × Option VersionInfo))) where
  abbrev Good : Text → Type 0
  Good = IsGenuine sha256 answers

  installed_os-Only :
      (dir : Text) (v : VersionInfo) (f : Map Text) (r : Host × Bool)
      → Only Good (os_temp dir) f r.0.files
      → Only Good (os_temp dir) f (installed_os sha256 dir v r).files
  unfolding set_downloader_status cleanup
  installed_os-Only dir v f (h, false) k =
      Only-trans Good (os_temp dir) f h.files _ k
        (remove_file-Only Good (os_temp dir) (os_temp dir) h)
  installed_os-Only dir v f (h, true) k =
      Only-trans Good (os_temp dir) f h.files _ k
        (remove_dirs-Only Good (os_temp dir) (is_old_os v.version) h.files)

  end_os-Only :
      (dir : Text) (v : VersionInfo) (c : Text) (e : LoopEnd) (h : Host)
      → IsOffered v answers
      → lookup (os_temp dir) h.files ≡ some c
      → Only Good (os_temp dir) h.files (end_os sha256 dir v c e h).files
  unfolding end_os verify_os set_downloader_status
  end_os-Only dir v c at_eof h o l =
      if-Only Good (os_temp dir) h.open_fails h.files _ _
        (λ e. remove_file-Only Good (os_temp dir) (os_temp dir) h)
        (λ e.
          if-Only Good (os_temp dir) (equal_fold (sha256 c) v.sha256) h.files _ _
            (λ g.
              installed_os-Only dir v h.files (rename_file (os_temp dir) (os_bundle dir) h)
                (rename_file-Only Good (os_temp dir) (os_bundle dir) c h l (v, (o, g))))
            (λ g. remove_file-Only Good (os_temp dir) (os_temp dir) h))
  end_os-Only dir v c on_cancel h o l = remove_file-Only Good _ _ h
  end_os-Only dir v c on_write h o l = Only-refl Good _ h.files
  end_os-Only dir v c on_read h o l = Only-refl Good _ h.files

  opened_os-Only :
      (dir : Text) (v : VersionInfo) (old : Text) (r : HttpResponse) (f : Map Text)
      (o : Host × Bool)
      → IsOffered v answers
      → Only Good (os_temp dir) f o.0.files
      → Only Good (os_temp dir) f (opened_os sha256 dir v old r o).files
  unfolding set_downloader_status
  opened_os-Only dir v old r f (h, false) o k = k
  opened_os-Only dir v old r f (h, true) o k =
      let c = old ++ (write_body r.turns).0 in
      Only-trans Good (os_temp dir) f h.files _ k (
        Only-trans Good (os_temp dir) h.files (put (os_temp dir) c h.files) _
          (put-Only Good (os_temp dir) c h.files)
          (end_os-Only dir v c (write_body r.turns).1
            (record h { files = put (os_temp dir) c h.files }) o
            (lookup-put_here (os_temp dir) c h.files)))

  store_os-Only :
      (dir : Text) (v : VersionInfo) (r : HttpResponse) (h : Host)
      → IsOffered v answers
      → Only Good (os_temp dir) h.files (store_os sha256 dir v r h).files
  unfolding store_os
  store_os-Only dir v r h o =
      let c = kept_content sha256 dir r h in
      opened_os-Only dir v c r h.files (create_file (os_temp dir) c h) o
        (create_file-Only Good (os_temp dir) c h)

  retried_reply_os-Only :
      (dir : Text) (v : VersionInfo) (r : Option HttpResponse × Host)
      → IsOffered v answers
      → Only Good (os_temp dir) r.1.files (retried_reply_os sha256 dir v r).files
  unfolding set_downloader_status
  retried_reply_os-Only dir v (none, h) o = Only-refl Good _ h.files
  retried_reply_os-Only dir v (some r, h) o = elim (Bool-cases (is_success sha256 r)) [
    | inl e ↦ rw e (store_os-Only dir v r h o)
    | inr e ↦ rw e (Only-refl Good _ h.files)
  ]

  retried_os-Only :
      (dir : Text) (r : Option VersionInfo × Host)
      → ((v : VersionInfo) → r.0 ≡ some v → IsOffered v answers)
      → Only Good (os_temp dir) r.1.files (retried_os sha256 dir r).files
  unfolding set_downloader_status do_request
  retried_os-Only dir (none, h) o = Only-refl Good _ h.files
  retried_os-Only dir (some v, h) o = retried_reply_os-Only dir v (do_request h) (o v refl)

  first_reply_os-Only :
      (v : VersionInfo) (r : Option HttpResponse × Host)
      → IsOffered v answers
      → ((w : VersionInfo) → offered (first_or none r.1.answers) ≡ some w → IsOffered w answers)
      → Only Good (os_temp v.version) r.1.files (first_reply_os sha256 v r).files
  unfolding set_downloader_status retry_os check_cloud
  first_reply_os-Only v (none, h) o w = Only-refl Good _ h.files
  first_reply_os-Only v (some r, h) o w = elim (Bool-cases (is_success sha256 r)) [
    | inl e ↦ rw e (store_os-Only v.version v r h o)
    | inr e ↦ rw e (retried_os-Only v.version (check_cloud h) w)
  ]

  download_os-Only :
      (v : VersionInfo) (h : Host)
      → IsOffered v answers
      → ((w : VersionInfo) → offered (first_or none h.answers) ≡ some w → IsOffered w answers)
      → Only Good (os_temp v.version) h.files (download_os sha256 v h).files
  unfolding download_os do_request set_downloader_status
  download_os-Only v h o w = elim (Bool-cases (is_there (lookup (os_bundle v.version) h.files))) [
    | inl e ↦ rw e (Only-refl Good _ h.files)
    | inr e ↦ rw e (first_reply_os-Only v (do_request (enter_os sha256 v h)) o w)
  ]

  picked_os-Only :
      (r : Option VersionInfo × Host)
      → ((v : VersionInfo) → r.0 ≡ some v → IsOffered v answers)
      → ((w : VersionInfo) → offered (first_or none r.1.answers) ≡ some w → IsOffered w answers)
      → (x c : Text) → lookup (os_bundle x) (picked_os sha256 r).files ≡ some c
      → (lookup (os_bundle x) r.1.files ≡ some c) ⊎ Good c
  unfolding set_downloader_status
  picked_os-Only (none, h) o w x c l = inl l
  picked_os-Only (some v, h) o w x c l =
      download_os-Only v h (o v refl) w (os_bundle x) c (temp-bundle v.version x) l

-- A bundle of the system that is in place behind a download was there before, or its content, what
-- an earlier download left of it included, has the SHA-256 of a version that the cloud offered,
-- however the download goes and whichever calls fail.
pub run_download-IsGenuine :
    (sha256 : Text → Text) (local has_update is_downloaded : Bool) (h : Host)
    → (version content : Text)
    → lookup (os_bundle version) (run_download sha256 local has_update is_downloaded h).files
      ≡ some content
    → (lookup (os_bundle version) h.files ≡ some content) ⊎ IsGenuine sha256 h.answers content
unfolding run_download check_cloud set_downloader_status
run_download-IsGenuine sha256 false u d h x c l = inl l
run_download-IsGenuine sha256 true false d h x c l = inl l
run_download-IsGenuine sha256 true true true h x c l = inl l
run_download-IsGenuine sha256 true true false h x c l =
    picked_os-Only sha256 h.answers (check_cloud h) (λ v e. offered-first v h.answers e)
      (λ w e. offered-rest w h.answers e) x c l
