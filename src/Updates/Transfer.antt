-- ===== src/Updates/Transfer.antt =====
-- The loop that writes a response to the temporary file, in runDownload and runAppDownload of
-- service/system.go.
use nimo_os.Base.{ℕ, Bool, List, [], ◌∷◌, ◌++◌, Option, none, some, ◌==◌, take, if◌then◌else◌}
use nimo_os.Text.{Text}
use nimo_os.Updates.{Turn, ReadError, more, eof, broken, VersionInfo, HttpResponse}

-- How the loop ends.
pub data LoopEnd : Type 0 where
  at_eof : LoopEnd
  on_cancel : LoopEnd
  on_write : LoopEnd
  on_read : LoopEnd

abbrev pub after_read : ReadError → Bool → Text → Text × LoopEnd → Text × LoopEnd
after_read more ctx_err bytes r = (bytes ++ r.0, r.1)
after_read eof ctx_err bytes r = (bytes, at_eof)
after_read broken ctx_err bytes r = (bytes, if ctx_err then on_cancel else on_read)

-- A read of no bytes writes nothing.
abbrev pub after_write : Option ℕ → Text → Text × LoopEnd → Text × LoopEnd
after_write (some n) (c ∷ bytes) r = (take n (c ∷ bytes), on_write)
after_write _ bytes r = r

-- What is written, and how the loop ends; behind the last turn the body is at its end.
unfoldable pub write_body : List Turn → Text × LoopEnd
write_body [] = ([], at_eof)
write_body (t ∷ ts) =
    let r = write_body ts in
    if t.done
    then ([], on_cancel)
    else after_write t.write_fails t.bytes (after_read t.read_error t.ctx_err t.bytes r)

abbrev pub or_zero : Option ℕ → ℕ
or_zero none = 0
or_zero (some n) = n

-- totalSize before the loop of runAppDownload.
unfoldable pub download_size : VersionInfo → HttpResponse → ℕ
download_size v r = if v.size == 0 then or_zero r.content_length else v.size
