-- ===== src/Updates/Os.antt =====
-- runDownload of service/system.go: the download of a bundle of the system, which may be resumed.
use nimo_os.Base.{Bool, true, false, not, ◌||◌, [], ◌++◌, Option, none, some, ◌==◌, if◌then◌else◌}
use nimo_os.Text.{Text, eqb, text}
use nimo_os.Maps.{lookup, put}
use nimo_os.Updates.{
  completed, failed, idle, paused, VersionInfo, HttpResponse, Host, set_downloader_status,
  remove_file, create_file, rename_file, check_cloud, do_request, report, publish, cleanup,
  equal_fold,
}
use nimo_os.Updates.Transfer.{LoopEnd, at_eof, on_cancel, on_write, on_read, write_body}
use nimo_os.Updates.App.{is_there}

abbrev pub os_dir : Text → Text
os_dir v = text "v" ++ v

abbrev pub os_bundle : Text → Text
os_bundle v = os_dir v ++ (text "/nimo_update_" ++ (v ++ text ".raucb"))

abbrev pub os_temp : Text → Text
os_temp v = os_bundle v ++ text ".tmp"

abbrev pub is_old_os : Text → Text → Bool
is_old_os v name = not (eqb name (os_dir v))

module _ (sha256 : Text → Text) where
  abbrev pub discard_os : Text → Host → Host
  discard_os dir h = set_downloader_status failed (remove_file (os_temp dir) h)

  abbrev pub installed_os : Text → VersionInfo → Host × Bool → Host
  installed_os dir v (h, false) = discard_os dir h
  installed_os dir v (h, true) =
      set_downloader_status completed (publish v.version (cleanup (is_old_os v.version) h))

  unfoldable pub verify_os : Text → VersionInfo → Text → Host → Host
  unfolding rename_file remove_file set_downloader_status cleanup equal_fold
  verify_os dir v content h =
      if h.open_fails
      then discard_os dir h
      else if equal_fold (sha256 content) v.sha256
      then installed_os dir v (rename_file (os_temp dir) (os_bundle dir) h)
      else set_downloader_status failed
          (report (text "sha256_mismatch") (remove_file (os_temp dir) h))

  unfoldable pub end_os : Text → VersionInfo → Text → LoopEnd → Host → Host
  unfolding verify_os remove_file set_downloader_status
  end_os dir v content at_eof h = verify_os dir v content h
  end_os dir v content on_cancel h = set_downloader_status idle (remove_file (os_temp dir) h)
  end_os dir v content on_write h = set_downloader_status failed h
  end_os dir v content on_read h = set_downloader_status paused h

  abbrev pub appended_os : Text → VersionInfo → Text → Text × LoopEnd → Host → Host
  appended_os dir v old (content, e) h =
      end_os dir v (old ++ content) e
        (record h { files = put (os_temp dir) (old ++ content) h.files })

  abbrev pub opened_os : Text → VersionInfo → Text → HttpResponse → Host × Bool → Host
  opened_os dir v old r (h, false) = set_downloader_status failed h
  opened_os dir v old r (h, true) = appended_os dir v old (write_body r.turns) h

  abbrev pub content_of : Option Text → Text
  content_of none = []
  content_of (some c) = c

  -- O_APPEND for the status 206, and O_TRUNC for 200.
  abbrev pub kept_content : Text → HttpResponse → Host → Text
  kept_content dir r h =
      if r.http_status == 206 then content_of (lookup (os_temp dir) h.files) else []

  unfoldable pub store_os : Text → VersionInfo → HttpResponse → Host → Host
  unfolding create_file end_os set_downloader_status write_body
  store_os dir v r h =
      opened_os dir v (kept_content dir r h) r (create_file (os_temp dir) (kept_content dir r h) h)

  abbrev pub is_success : HttpResponse → Bool
  is_success r = (r.http_status == 200) || (r.http_status == 206)

  abbrev pub retried_reply_os : Text → VersionInfo → Option HttpResponse × Host → Host
  retried_reply_os dir v (none, h) = set_downloader_status failed h
  retried_reply_os dir v (some r, h) =
      if is_success r then store_os dir v r h else set_downloader_status failed h

  abbrev pub retried_os : Text → Option VersionInfo × Host → Host
  retried_os dir (none, h) = set_downloader_status failed h
  retried_os dir (some v, h) = retried_reply_os dir v (do_request h)

  unfoldable pub retry_os : Text → Host → Host
  unfolding check_cloud do_request store_os set_downloader_status
  retry_os dir h = retried_os dir (check_cloud h)

  abbrev pub first_reply_os : VersionInfo → Option HttpResponse × Host → Host
  first_reply_os v (none, h) = set_downloader_status failed h
  first_reply_os v (some r, h) =
      if is_success r then store_os v.version v r h else retry_os v.version h

  abbrev pub enter_os : VersionInfo → Host → Host
  enter_os v h = report (text "downloading") (record h {
    downloader = record h.downloader { version = v.version; download_dir = os_dir v.version };
  })

  unfoldable pub download_os : VersionInfo → Host → Host
  unfolding set_downloader_status do_request store_os retry_os
  download_os v h =
      if is_there (lookup (os_bundle v.version) h.files)
      then set_downloader_status completed (publish v.version (enter_os v h))
      else first_reply_os v (do_request (enter_os v h))

  abbrev pub picked_os : Option VersionInfo × Host → Host
  picked_os (none, h) = set_downloader_status failed h
  picked_os (some v, h) = download_os v h

  -- `local`: whether readLocalVersionInfo succeeds; the other flags are those of CheckUpdate.
  unfoldable pub run_download : Bool → Bool → Bool → Host → Host
  unfolding check_cloud download_os set_downloader_status
  run_download local has_update is_downloaded h =
      if not local || not has_update
      then set_downloader_status failed h
      else if is_downloaded
      then set_downloader_status completed h
      else picked_os (check_cloud h)
