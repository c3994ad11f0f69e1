-- ===== src/PathLock/Exclusion.antt =====
-- Two goroutines never hold the lock of one cleaned path if one of them writes.
use nimo_os.Base.{
  ℕ, ◌+◌, ◌≡◌, ◌⊎◌, refl, Bool, ◌&&◌, List, [], ◌∷◌, ◌++◌, Option, none, some, arith, All, count,
  count-append, inl, ◌==◌, if◌then◌else◌,
}
use nimo_os.Text.{Text, eqb}
use nimo_os.Text.Laws.{eqb_iff}
use nimo_os.FilePath.{clean}
use nimo_os.Maps.{Map, lookup}
use nimo_os.PathLock.{Mode, write, read, waiting, holding, unlocked, Session, acquire}
use nimo_os.PathLock.Steps.{
  writers, readers, is_writing, is_reading, World, session, Step, IsReachable,
}
use nimo_os.PathLock.Invariant.{IsMapped, IsManaged, reachable-IsManaged}

-- Nobody writes under the entry, or one session does and nobody reads.
abbrev pub IsExclusiveOn : ℕ → List Session → Type 0
IsExclusiveOn e ss = (writers e ss ≡ 0) ⊎ ((writers e ss ≡ 1) × (readers e ss ≡ 0))

abbrev one_if : Bool → ℕ
one_if b = if b then 1 else 0

writers-append :
    (d : ℕ) (s : Session) (xs ys : List Session)
    → writers d (xs ++ s ∷ ys)
      ≡ writers d xs + (one_if (s.entry == d && is_writing s) + writers d ys)
writers-append d s xs ys = count-append (λ s. s.entry == d && is_writing s) xs (s ∷ ys)

readers-append :
    (d : ℕ) (s : Session) (xs ys : List Session)
    → readers d (xs ++ s ∷ ys)
      ≡ readers d xs + (one_if (s.entry == d && is_reading s) + readers d ys)
readers-append d s xs ys = count-append (λ s. s.entry == d && is_reading s) xs (s ∷ ys)

module _ (path : Text) (e : ℕ) (xs ys : List Session) (d : ℕ) where
  grant_write-exclusive :
      writers e (xs ++ session path e write waiting ∷ ys) ≡ 0
      → readers e (xs ++ session path e write waiting ∷ ys) ≡ 0
      → IsExclusiveOn d (xs ++ session path e write waiting ∷ ys)
      → IsExclusiveOn d (xs ++ session path e write holding ∷ ys)
  grant_write-exclusive a b h = ground (
    arith,
    writers-append d (session path e write waiting) xs ys,
    writers-append d (session path e write holding) xs ys,
    readers-append d (session path e write waiting) xs ys,
    readers-append d (session path e write holding) xs ys,
    writers-append e (session path e write waiting) xs ys,
    readers-append e (session path e write waiting) xs ys,
  )

  grant_read-exclusive :
      writers e (xs ++ session path e read waiting ∷ ys) ≡ 0
      → IsExclusiveOn d (xs ++ session path e read waiting ∷ ys)
      → IsExclusiveOn d (xs ++ session path e read holding ∷ ys)
  grant_read-exclusive a h = ground (
    arith,
    writers-append d (session path e read waiting) xs ys,
    writers-append d (session path e read holding) xs ys,
    readers-append d (session path e read waiting) xs ys,
    readers-append d (session path e read holding) xs ys,
  )

  unlock-exclusive :
      (mode : Mode)
      → IsExclusiveOn d (xs ++ session path e mode holding ∷ ys)
      → IsExclusiveOn d (xs ++ session path e mode unlocked ∷ ys)
  unlock-exclusive write h = ground (
    arith,
    writers-append d (session path e write holding) xs ys,
    writers-append d (session path e write unlocked) xs ys,
    readers-append d (session path e write holding) xs ys,
    readers-append d (session path e write unlocked) xs ys,
  )
  unlock-exclusive read h = ground (
    arith,
    writers-append d (session path e read holding) xs ys,
    writers-append d (session path e read unlocked) xs ys,
    readers-append d (session path e read holding) xs ys,
    readers-append d (session path e read unlocked) xs ys,
  )

  finish-exclusive :
      (mode : Mode)
      → IsExclusiveOn d (xs ++ session path e mode unlocked ∷ ys)
      → IsExclusiveOn d (xs ++ ys)
  finish-exclusive write h = ground (
    arith,
    writers-append d (session path e write unlocked) xs ys,
    readers-append d (session path e write unlocked) xs ys,
    count-append (λ s. s.entry == d && is_writing s) xs ys,
    count-append (λ s. s.entry == d && is_reading s) xs ys,
  )
  finish-exclusive read h = ground (
    arith,
    writers-append d (session path e read unlocked) xs ys,
    readers-append d (session path e read unlocked) xs ys,
    count-append (λ s. s.entry == d && is_writing s) xs ys,
    count-append (λ s. s.entry == d && is_reading s) xs ys,
  )

start-exclusive :
    (path : Text) (e : ℕ) (mode : Mode) (ss : List Session) (d : ℕ)
    → IsExclusiveOn d ss
    → IsExclusiveOn d (session path e mode waiting ∷ ss)
start-exclusive path e write ss d h = ground arith
start-exclusive path e read ss d h = ground arith

step-exclusive :
    (v w : World)
    → Step v w
    → ((d : ℕ) → IsExclusiveOn d v.sessions)
    → (d : ℕ) → IsExclusiveOn d w.sessions
step-exclusive _ _ (Step.start path mode m ss) h d =
    start-exclusive path (acquire path m).1 mode ss d (h d)
step-exclusive _ _ (Step.grant_write path e m xs ys a b) h d =
    grant_write-exclusive path e xs ys d a b (h d)
step-exclusive _ _ (Step.grant_read path e m xs ys a) h d =
    grant_read-exclusive path e xs ys d a (h d)
step-exclusive _ _ (Step.unlock path e mode m xs ys) h d =
    unlock-exclusive path e xs ys d mode (h d)
step-exclusive _ _ (Step.finish path e mode m xs ys) h d =
    finish-exclusive path e xs ys d mode (h d)

reachable-exclusive : (w : World) → IsReachable w → (d : ℕ) → IsExclusiveOn d w.sessions
reachable-exclusive _ IsReachable.initial d = inl refl
reachable-exclusive _ (IsReachable.step v w r s) d =
    step-exclusive v w s (reachable-exclusive v r) d

-- The sessions on a path that hold the lock for writing, and for reading.
abbrev pub path_writers : Text → List Session → ℕ
path_writers path = count (λ s. eqb (clean s.path) path && is_writing s)

abbrev pub path_readers : Text → List Session → ℕ
path_readers path = count (λ s. eqb (clean s.path) path && is_reading s)

module _ (locks : Map ℕ)
    (distinct : (k j : Text) (e : ℕ)
      → lookup k locks ≡ some e
      → lookup j locks ≡ some e
      → k ≡ j) where
  entry-path :
      (path : Text) (e : ℕ) (s : Session)
      → lookup path locks ≡ some e
      → IsMapped locks s
      → (s.entry == e) ≡ eqb (clean s.path) path
  entry-path path e s k h =
      ground (arith, eqb_iff (clean s.path) path, distinct (clean s.path) path e)

  path_writers-entry :
      (path : Text) (e : ℕ) (ss : List Session)
      → lookup path locks ≡ some e
      → All (IsMapped locks) ss
      → (path_writers path ss ≡ writers e ss) × (path_readers path ss ≡ readers e ss)
  path_writers-entry path e [] k h = (refl, refl)
  path_writers-entry path e (s ∷ ss) k h =
      let (a, b) = path_writers-entry path e ss k h.1 in
      rw (entry-path path e s k h.0, a, b) (refl, refl)

  path_writers-absent :
      (path : Text) (ss : List Session)
      → lookup path locks ≡ none
      → All (IsMapped locks) ss
      → path_writers path ss ≡ 0
  path_writers-absent path [] k h = refl
  path_writers-absent path (s ∷ ss) k h =
      ground (arith, path_writers-absent path ss k h.1, eqb_iff (clean s.path) path, h.0)

-- However the goroutines interleave, for every cleaned path nobody holds its lock for writing, or
-- one goroutine does and nobody holds it for reading, however the callers spelled the path.
pub reachable-IsExclusive :
    (w : World) (path : Text)
    → IsReachable w
    → (path_writers path w.sessions ≡ 0)
      ⊎ ((path_writers path w.sessions ≡ 1) × (path_readers path w.sessions ≡ 0))
reachable-IsExclusive w path r = found (lookup path w.manager.locks) refl
  where
    managed : IsManaged w
    managed = reachable-IsManaged w r

    found :
        (o : Option ℕ)
        → lookup path w.manager.locks ≡ o
        → (path_writers path w.sessions ≡ 0)
          ⊎ ((path_writers path w.sessions ≡ 1) × (path_readers path w.sessions ≡ 0))
    found none k =
        inl (path_writers-absent w.manager.locks managed.distinct path w.sessions k managed.mapped)
    found (some e) k =
        let (a, b) =
          path_writers-entry w.manager.locks managed.distinct path e w.sessions k managed.mapped in
        rw (a, b) (reachable-exclusive w r e)
