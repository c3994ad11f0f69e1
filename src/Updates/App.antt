-- ===== src/Updates/App.antt =====
-- runAppDownload of service/system.go: the download of an application bundle.
use nimo_os.Base.{
  ℕ, Bool, true, false, not, ◌&&◌, [], ◌++◌, Option, none, some, ◌==◌, length, if◌then◌else◌,
}
use nimo_os.Text.{Text, eqb, is_empty, has_prefix, text}
use nimo_os.Maps.{lookup, put}
use nimo_os.Updates.{
  completed, failed, idle, VersionInfo, HttpResponse, Host, set_downloader_status, remove_file,
  create_file, rename_file, check_cloud, do_request, report, publish, cleanup, equal_fold,
}
use nimo_os.Updates.Transfer.{
  LoopEnd, at_eof, on_cancel, on_write, on_read, write_body, download_size,
}

abbrev pub app_dir : Text → Text
app_dir v = text "app_v" ++ v

abbrev pub app_bundle : Text → Text
app_bundle v = app_dir v ++ text "/bundle.tar.gz"

abbrev pub app_temp : Text → Text
app_temp v = app_bundle v ++ text ".tmp"

abbrev pub is_old_app : Text → Text → Bool
is_old_app v name = not (eqb name (app_dir v)) && has_prefix name (text "app_v")

abbrev pub is_there : Option Text → Bool
is_there none = false
is_there (some c) = true

-- `sha256` gives the hexadecimal SHA-256 of a content.
module _ (sha256 : Text → Text) where
  -- What is left behind where a check fails.
  abbrev pub discard : Text → Host → Host
  discard tmp h = set_downloader_status failed (remove_file tmp h)

  -- `dir` is the version whose directory holds the files, `v` the one that the cloud offered last.
  abbrev pub installed : VersionInfo → Text → Host × Bool → Host
  installed v tmp (h, false) = discard tmp h
  installed v tmp (h, true) =
      set_downloader_status completed (publish v.version (cleanup (is_old_app v.version) h))

  unfoldable pub install_app : Text → VersionInfo → Host → Host
  unfolding rename_file remove_file set_downloader_status cleanup
  install_app dir v h = installed v (app_temp dir) (rename_file (app_temp dir) (app_bundle dir) h)

  -- os.Open and the comparison with the hash: a file that cannot be opened is not compared.
  abbrev pub is_rejected : VersionInfo → Text → Host → Bool
  is_rejected v content h = not h.open_fails && not (equal_fold (sha256 content) v.sha256)

  unfoldable pub verify_app : Text → VersionInfo → Text → Host → Host
  unfolding install_app remove_file set_downloader_status equal_fold
  verify_app dir v content h =
      if is_empty v.sha256
      then discard (app_temp dir) (report (text "sha256_missing") h)
      else if is_rejected v content h
      then discard (app_temp dir) (report (text "sha256_mismatch") h)
      else install_app dir v h

  abbrev pub is_incomplete : ℕ → ℕ → Bool
  is_incomplete total written = not (total == 0) && not (written == total)

  unfoldable pub end_app : Text → VersionInfo → ℕ → Text → LoopEnd → Host → Host
  unfolding verify_app remove_file set_downloader_status
  end_app dir v total content at_eof h =
      if is_incomplete total (length content)
      then discard (app_temp dir) h
      else verify_app dir v content h
  end_app dir v total content on_cancel h =
      set_downloader_status idle (remove_file (app_temp dir) h)
  end_app dir v total content on_write h = set_downloader_status failed h
  end_app dir v total content on_read h = set_downloader_status failed h

  abbrev pub written_app : Text → VersionInfo → ℕ → Text × LoopEnd → Host → Host
  written_app dir v total (content, e) h =
      end_app dir v total content e (record h { files = put (app_temp dir) content h.files })

  abbrev pub opened_app : Text → VersionInfo → HttpResponse → Host × Bool → Host
  opened_app dir v r (h, false) = set_downloader_status failed h
  opened_app dir v r (h, true) = written_app dir v (download_size v r) (write_body r.turns) h

  unfoldable pub store_app : Text → VersionInfo → HttpResponse → Host → Host
  unfolding create_file end_app set_downloader_status download_size write_body
  store_app dir v r h = opened_app dir v r (create_file (app_temp dir) [] h)

  abbrev pub retried_reply : Text → VersionInfo → Option HttpResponse × Host → Host
  retried_reply dir v (none, h) = set_downloader_status failed h
  retried_reply dir v (some r, h) =
      if r.http_status == 200 then store_app dir v r h else set_downloader_status failed h

  abbrev pub retried : Text → Option VersionInfo × Host → Host
  retried dir (none, h) = set_downloader_status failed h
  retried dir (some v, h) = retried_reply dir v (do_request h)

  -- The address is refreshed, and the request made once more.
  unfoldable pub retry_app : Text → Host → Host
  unfolding check_cloud do_request store_app set_downloader_status
  retry_app dir h = retried dir (check_cloud h)

  abbrev pub first_reply : VersionInfo → Option HttpResponse × Host → Host
  first_reply v (none, h) = set_downloader_status failed h
  first_reply v (some r, h) =
      if r.http_status == 200 then store_app v.version v r h else retry_app v.version h

  abbrev pub enter_app : VersionInfo → Host → Host
  enter_app v h = record h {
    downloader = record h.downloader { version = v.version; download_dir = app_dir v.version };
  }

  unfoldable pub download_app : VersionInfo → Host → Host
  unfolding remove_file set_downloader_status do_request store_app retry_app
  download_app v h =
      let h' = remove_file (app_temp v.version) (enter_app v h) in
      if is_there (lookup (app_bundle v.version) h'.files)
      then set_downloader_status completed h'
      else first_reply v (do_request (report (text "downloading") h'))

  abbrev pub picked_app : Option VersionInfo × Host → Host
  picked_app (none, h) = set_downloader_status failed h
  picked_app (some v, h) = download_app v h

  -- `local`: whether readLocalVersionInfo succeeds.
  unfoldable pub run_app_download : Bool → Host → Host
  unfolding check_cloud download_app set_downloader_status
  run_app_download false h = set_downloader_status failed h
  run_app_download true h = picked_app (check_cloud h)
