-- ===== src/Updates/Settled.antt =====
-- How runDownload of service/system.go ends.
use nimo_os.Base.{
  ℕ, ◌≡◌, refl, ap, subst, Bool, true, false, [], ◌∷◌, ◌++◌, Option, none, some, Bool-cases, arith,
  inl, inr, if◌then◌else◌, ◌==◌, not, any, ◌&&◌,
}
use nimo_os.Text.{Text, text, before}
use nimo_os.Text.Laws.{eqb_refl}
use nimo_os.Maps.{lookup, put, delete}
use nimo_os.Updates.{
  Status, idle, running, paused, completed, failed, Host, VersionInfo, HttpResponse, first_or, rest,
  offered, equal_fold, remove_file, create_file, rename_file, renamed_to, check_cloud, do_request,
  set_downloader_status, cleanup, is_in,
}
use nimo_os.Updates.Transfer.{LoopEnd, at_eof, on_cancel, on_write, on_read, write_body}
use nimo_os.Updates.App.{is_there}
use nimo_os.Updates.Os.{
  os_dir, os_temp, os_bundle, is_old_os, installed_os, verify_os, end_os, opened_os, kept_content,
  store_os, is_success, retried_reply_os, retried_os, retry_os, first_reply_os, enter_os,
  download_os, picked_os, run_download,
}
use nimo_os.Updates.Offered.{IsOffered, offered-first, offered-rest}
use nimo_os.Updates.Files.{lookup-put_here, lookup-remove_dirs}

abbrev pub is_absent {ℓ} : {A : Type ℓ} → Option A → Bool
is_absent none = true
is_absent (some x) = false

-- The downloader of a host is at rest: it is not running, its cancel function is gone unless it is
-- paused, and the bundle of a version is in place if the download is completed.
abbrev pub is_settled : Text → Status → Option ℕ → Option Text → Bool
is_settled x running cancel bundle = false
is_settled x paused cancel bundle = true
is_settled x idle cancel bundle = is_absent cancel
is_settled x failed cancel bundle = is_absent cancel
is_settled x completed cancel bundle = is_absent cancel && is_there bundle

abbrev pub IsSettled : Text → Host → Type 0
IsSettled x h =
    is_settled x h.downloader.status h.downloader.cancel (lookup (os_bundle x) h.files) ≡ true

-- A version that names one directory.
abbrev pub is_plain : Text → Bool
is_plain x = not (any (λ c. c == b'/') x)

pub before-append : (x s : Text) → is_plain x ≡ true → before b'/' (x ++ (b'/' ∷ s)) ≡ x
unfolding before
before-append [] s h = refl
before-append (c ∷ x) s h = ground (arith, before-append x s)

bundle-kept : (x : Text) → is_plain x ≡ true → is_in (is_old_os x) (os_bundle x) ≡ false
bundle-kept x h = ground (
  arith,
  ap (is_old_os x) (before-append (os_dir x) (text "nimo_update_" ++ (x ++ text ".raucb")) h),
  eqb_refl (os_dir x),
)

rename_file-there :
    (p q : Text) (h : Host)
    → (rename_file p q h).1 ≡ true
    → is_there (lookup q (rename_file p q h).0.files) ≡ true
unfolding rename_file
rename_file-there p q h = elim (Bool-cases (first_or false h.faults)) [
  | inl e ↦ rw e (λ k. cc)
  | inr e ↦ rw e (there (lookup p h.files))
]
  where
    there :
        (o : Option Text)
        → (renamed_to p q o (record h { faults = rest h.faults })).1 ≡ true
        → is_there (lookup q (renamed_to p q o (record h { faults = rest h.faults })).0.files)
          ≡ true
    there none e = cc
    there (some c) e = rw (lookup-put_here q c (delete p h.files)) refl

module _ (sha256 : Text → Text) (x : Text) (plain : is_plain x ≡ true) where
  failed-IsSettled : (h : Host) → IsSettled x (set_downloader_status failed h)
  unfolding set_downloader_status
  failed-IsSettled h = refl

  if-IsSettled :
      (b : Bool) (h k : Host) → IsSettled x h → IsSettled x k → IsSettled x (if b then h else k)
  if-IsSettled true h k l m = l
  if-IsSettled false h k l m = m

  installed_os-IsSettled :
      (dir : Text) (v : VersionInfo) (r : Host × Bool)
      → v.version ≡ x
      → (r.1 ≡ true → is_there (lookup (os_bundle x) r.0.files) ≡ true)
      → IsSettled x (installed_os sha256 dir v r)
  unfolding set_downloader_status cleanup
  installed_os-IsSettled dir v (h, false) e k = failed-IsSettled (remove_file (os_temp dir) h)
  installed_os-IsSettled dir v (h, true) e k =
      rw (e, lookup-remove_dirs (is_old_os x) (os_bundle x) h.files, bundle-kept x plain) (k refl)

  end_os-IsSettled :
      (dir : Text) (v : VersionInfo) (c : Text) (e : LoopEnd) (h : Host)
      → dir ≡ x
      → v.version ≡ x
      → IsSettled x (end_os sha256 dir v c e h)
  unfolding end_os verify_os set_downloader_status
  end_os-IsSettled dir v c at_eof h d o = if-IsSettled h.open_fails _ _ refl (
      if-IsSettled (equal_fold (sha256 c) v.sha256) _ _
        (installed_os-IsSettled dir v (rename_file (os_temp dir) (os_bundle dir) h) o (
          subst
            (λ y.
              (rename_file (os_temp dir) (os_bundle dir) h).1 ≡ true
              → is_there
                  (lookup (os_bundle y) (rename_file (os_temp dir) (os_bundle dir) h).0.files)
                ≡ true)
            d (rename_file-there (os_temp dir) (os_bundle dir) h)))
        refl)
  end_os-IsSettled dir v c on_cancel h d o = refl
  end_os-IsSettled dir v c on_write h d o = refl
  end_os-IsSettled dir v c on_read h d o = refl

  opened_os-IsSettled :
      (dir : Text) (v : VersionInfo) (old : Text) (r : HttpResponse) (o : Host × Bool)
      → dir ≡ x
      → v.version ≡ x
      → IsSettled x (opened_os sha256 dir v old r o)
  opened_os-IsSettled dir v old r (h, false) d e = failed-IsSettled h
  opened_os-IsSettled dir v old r (h, true) d e =
      end_os-IsSettled dir v (old ++ (write_body r.turns).0) (write_body r.turns).1
        (record h { files = put (os_temp dir) (old ++ (write_body r.turns).0) h.files }) d e

  store_os-IsSettled :
      (dir : Text) (v : VersionInfo) (r : HttpResponse) (h : Host)
      → dir ≡ x
      → v.version ≡ x
      → IsSettled x (store_os sha256 dir v r h)
  unfolding store_os
  store_os-IsSettled dir v r h d e =
      opened_os-IsSettled dir v (kept_content sha256 dir r h) r
        (create_file (os_temp dir) (kept_content sha256 dir r h) h) d e

  retried_reply_os-IsSettled :
      (dir : Text) (v : VersionInfo) (r : Option HttpResponse × Host)
      → dir ≡ x
      → v.version ≡ x
      → IsSettled x (retried_reply_os sha256 dir v r)
  retried_reply_os-IsSettled dir v (none, h) d e = failed-IsSettled h
  retried_reply_os-IsSettled dir v (some r, h) d e =
      if-IsSettled (is_success sha256 r) _ _ (store_os-IsSettled dir v r h d e) (failed-IsSettled h)

  retried_os-IsSettled :
      (dir : Text) (r : Option VersionInfo × Host)
      → dir ≡ x
      → ((v : VersionInfo) → r.0 ≡ some v → v.version ≡ x)
      → IsSettled x (retried_os sha256 dir r)
  retried_os-IsSettled dir (none, h) d e = failed-IsSettled h
  retried_os-IsSettled dir (some v, h) d e =
      retried_reply_os-IsSettled dir v (do_request h) d (e v refl)

  first_reply_os-IsSettled :
      (v : VersionInfo) (r : Option HttpResponse × Host)
      → v.version ≡ x
      → ((w : VersionInfo) → offered (first_or none r.1.answers) ≡ some w → w.version ≡ x)
      → IsSettled x (first_reply_os sha256 v r)
  unfolding retry_os check_cloud
  first_reply_os-IsSettled v (none, h) e w = failed-IsSettled h
  first_reply_os-IsSettled v (some r, h) e w =
      if-IsSettled (is_success sha256 r) _ _ (store_os-IsSettled v.version v r h e e)
        (retried_os-IsSettled v.version (check_cloud h) e w)

  download_os-IsSettled :
      (v : VersionInfo) (h : Host)
      → v.version ≡ x
      → ((w : VersionInfo) → offered (first_or none h.answers) ≡ some w → w.version ≡ x)
      → IsSettled x (download_os sha256 v h)
  unfolding download_os do_request set_downloader_status
  download_os-IsSettled v h e w =
      elim (Bool-cases (is_there (lookup (os_bundle v.version) h.files))) [
        | inl t ↦ rw t (subst (λ y. is_there (lookup (os_bundle y) h.files) ≡ true) e t)
        | inr t ↦ rw t (first_reply_os-IsSettled v (do_request (enter_os sha256 v h)) e w)
      ]

  picked_os-IsSettled :
      (r : Option VersionInfo × Host)
      → ((v : VersionInfo) → r.0 ≡ some v → v.version ≡ x)
      → ((w : VersionInfo) → offered (first_or none r.1.answers) ≡ some w → w.version ≡ x)
      → IsSettled x (picked_os sha256 r)
  picked_os-IsSettled (none, h) o w = failed-IsSettled h
  picked_os-IsSettled (some v, h) o w = download_os-IsSettled v h (o v refl) w

  -- If the cloud offers one version throughout, whose name has no slash, and CheckUpdate did not
  -- find it downloaded, then runDownload ends with the downloader at rest, whatever fails: it is not
  -- running, its cancel function is gone unless it is paused, and if it is completed the bundle of
  -- the version is in place.
  pub run_download-IsSettled :
      (local has_update : Bool) (h : Host)
      → ((v : VersionInfo) → IsOffered v h.answers → v.version ≡ x)
      → IsSettled x (run_download sha256 local has_update false h)
  unfolding run_download check_cloud
  run_download-IsSettled false u h o = failed-IsSettled h
  run_download-IsSettled true false h o = failed-IsSettled h
  run_download-IsSettled true true h o =
      picked_os-IsSettled (check_cloud h) (λ v e. o v (offered-first v h.answers e))
        (λ w e. o w (offered-rest w h.answers e))
