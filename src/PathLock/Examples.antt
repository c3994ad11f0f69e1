-- ===== src/PathLock/Examples.antt =====
-- The theorems on the locks with two goroutines on one path.
use nimo_os.Base.{ℕ, ◌≡◌, ◌⊎◌, refl, [], ◌∷◌}
use nimo_os.Text.{text, eqb}
use nimo_os.Maps.{lookup, put, delete}
use nimo_os.PathLock.{write, read, waiting, holding, Manager, no_locks, acquire, acquire_entry}
use nimo_os.PathLock.Invariant.{IsManaged, reachable-IsManaged}
use nimo_os.PathLock.Steps.{World, world, session, Step, IsReachable}
use nimo_os.PathLock.Exclusion.{path_writers, path_readers, reachable-IsExclusive}

abbrev first_call : Manager × ℕ
first_call = acquire (text "/DATA/a") no_locks

abbrev second_call : Manager × ℕ
second_call = acquire (text "/DATA/./a") first_call.0

-- The first goroutine writes, the second waits on another spelling of the path.
abbrev contended : World
contended = world second_call.0 (
    session (text "/DATA/./a") second_call.1 read waiting
    ∷ session (text "/DATA/a") first_call.1 write holding
    ∷ [])

contended-IsReachable : IsReachable contended
unfolding acquire acquire_entry lookup put delete eqb
contended-IsReachable =
    IsReachable.step (world first_call.0 (session (text "/DATA/a") first_call.1 write holding ∷ []))
      contended
      (IsReachable.step
        (world first_call.0 (session (text "/DATA/a") first_call.1 write waiting ∷ []))
        (world first_call.0 (session (text "/DATA/a") first_call.1 write holding ∷ []))
        (IsReachable.step (world no_locks [])
          (world first_call.0 (session (text "/DATA/a") first_call.1 write waiting ∷ []))
          IsReachable.initial (Step.start (text "/DATA/a") write no_locks []))
        (Step.grant_write (text "/DATA/a") first_call.1 first_call.0 [] [] refl refl))
      (Step.start (text "/DATA/./a") read first_call.0
        (session (text "/DATA/a") first_call.1 write holding ∷ []))

reachable-IsExclusive_example :
    (path_writers (text "/DATA/a") contended.sessions ≡ 0)
    ⊎ ((path_writers (text "/DATA/a") contended.sessions ≡ 1)
        × (path_readers (text "/DATA/a") contended.sessions ≡ 0))
reachable-IsExclusive_example =
    reachable-IsExclusive contended (text "/DATA/a") contended-IsReachable

reachable-IsManaged_example : IsManaged contended
reachable-IsManaged_example = reachable-IsManaged contended contended-IsReachable
