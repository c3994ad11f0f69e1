-- ===== src/PathLock/Steps.antt =====
-- The goroutines that lock paths: the state is the manager and the sessions, and a step is one
-- critical section or one grant of a lock.
use nimo_os.Base.{ℕ, ◌≡◌, Bool, true, false, ◌&&◌, List, [], ◌∷◌, ◌++◌, count, ◌==◌}
use nimo_os.Text.{Text}
use nimo_os.PathLock.{
  Mode, write, read, Phase, waiting, holding, unlocked, Session, Manager, no_locks, acquire,
  release,
}

abbrev pub is_writing : Session → Bool
is_writing s = holds s.mode s.phase
  where
    holds : Mode → Phase → Bool
    holds write holding = true
    holds _ _ = false

abbrev pub is_reading : Session → Bool
is_reading s = holds s.mode s.phase
  where
    holds : Mode → Phase → Bool
    holds read holding = true
    holds _ _ = false

-- How many sessions hold an entry for writing, and how many for reading.
abbrev pub writers : ℕ → List Session → ℕ
writers e = count (λ s. s.entry == e && is_writing s)

abbrev pub readers : ℕ → List Session → ℕ
readers e = count (λ s. s.entry == e && is_reading s)

pub record World : Type 0 where
  pub manager : Manager
  pub sessions : List Session

abbrev pub session : Text → ℕ → Mode → Phase → Session
session p e m ph = record { path = p; entry = e; mode = m; phase = ph }

abbrev pub world : Manager → List Session → World
world m ss = record { manager = m; sessions = ss }

pub data Step : World → World → Type 0 where
  start :
      (path : Text) (mode : Mode) (m : Manager) (ss : List Session)
      → Step
          (world m ss)
          (world (acquire path m).0 (session path (acquire path m).1 mode waiting ∷ ss))
  grant_write :
      (path : Text) (e : ℕ) (m : Manager) (xs ys : List Session)
      → writers e (xs ++ session path e write waiting ∷ ys) ≡ 0
      → readers e (xs ++ session path e write waiting ∷ ys) ≡ 0
      → Step
          (world m (xs ++ session path e write waiting ∷ ys))
          (world m (xs ++ session path e write holding ∷ ys))
  grant_read :
      (path : Text) (e : ℕ) (m : Manager) (xs ys : List Session)
      → writers e (xs ++ session path e read waiting ∷ ys) ≡ 0
      → Step
          (world m (xs ++ session path e read waiting ∷ ys))
          (world m (xs ++ session path e read holding ∷ ys))
  unlock :
      (path : Text) (e : ℕ) (mode : Mode) (m : Manager) (xs ys : List Session)
      → Step
          (world m (xs ++ session path e mode holding ∷ ys))
          (world m (xs ++ session path e mode unlocked ∷ ys))
  finish :
      (path : Text) (e : ℕ) (mode : Mode) (m : Manager) (xs ys : List Session)
      → Step
          (world m (xs ++ session path e mode unlocked ∷ ys))
          (world (release path e m) (xs ++ ys))

pub data IsReachable : World → Type 0 where
  initial : IsReachable (world no_locks [])
  step : (v w : World) → IsReachable v → Step v w → IsReachable w
