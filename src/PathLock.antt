-- ===== src/PathLock.antt =====
-- service/pathlock/pathlock.go: a lock for each cleaned path, made on demand and dropped with its
-- last user.
--
-- A call of LockWrite or LockRead is a session, from acquire to release. Pointers to entries are
-- numbers: `locks` is the map, `waiters` the field of every entry. sync.RWMutex of the Go library
-- admits a writer when nobody holds it and a reader when no writer does.
pub mod Steps
pub mod Invariant
pub mod Exclusion
pub mod Examples
use nimo_os.Base.{
  ℕ, suc, ◌+◌, ◌-◌, Bool, true, false, not, ◌&&◌, List, [], ◌∷◌, ◌++◌, Option, none, some, count,
  ◌==◌, if◌then◌else◌,
}
use nimo_os.Text.{Text, eqb}
use nimo_os.FilePath.{clean}
use nimo_os.Maps.{Map, lookup, put, delete}

pub data Mode : Type 0 where
  write read : Mode

-- Between acquire and the grant of the lock, with the lock, and between the unlock and release.
pub data Phase : Type 0 where
  waiting holding unlocked : Phase

pub record Session : Type 0 where
  pub path : Text
  pub entry : ℕ
  pub mode : Mode
  pub phase : Phase

pub record Manager : Type 0 where
  pub locks : Map ℕ
  pub waiters : ℕ → ℕ
  pub next_entry : ℕ

abbrev pub no_locks : Manager
no_locks = record { locks = []; waiters = λ e. 0; next_entry = 0 }

abbrev pub set_waiters : ℕ → ℕ → (ℕ → ℕ) → ℕ → ℕ
set_waiters e n waiters d = if e == d then n else waiters d

unfoldable pub acquire_entry : Text → Option ℕ → Manager → Manager × ℕ
acquire_entry key none m = (
  record {
    locks = put key m.next_entry m.locks;
    waiters = set_waiters m.next_entry 1 m.waiters;
    next_entry = suc m.next_entry;
  },
  m.next_entry,
)
acquire_entry key (some e) m = (record m { waiters = set_waiters e (m.waiters e + 1) m.waiters }, e)

unfoldable pub acquire : Text → Manager → Manager × ℕ
unfolding acquire_entry
acquire path m = acquire_entry (clean path) (lookup (clean path) m.locks) m

unfoldable pub release : Text → ℕ → Manager → Manager
release path e m =
    let m' = record m { waiters = set_waiters e (m.waiters e - 1) m.waiters } in
    if m'.waiters e == 0 then record m' { locks = delete (clean path) m'.locks } else m'
