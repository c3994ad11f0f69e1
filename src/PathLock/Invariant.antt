-- ===== src/PathLock/Invariant.antt =====
-- A session's entry is the one that the map has for its path, as long as the session lasts.
use nimo_os.Base.{
  ℕ, ◌+◌, ◌-◌, ◌<◌, ◌≡◌, refl, List, [], ◌∷◌, ◌++◌, Option, none, some, arith, All, All-append,
  count, count-append, Bool-cases, inl, inr, ◌==◌, if◌then◌else◌,
}
use nimo_os.Text.{Text}
use nimo_os.Text.Laws.{eqb_iff, eqb_refl}
use nimo_os.FilePath.{clean}
use nimo_os.Maps.{Map, lookup, put, delete}
use nimo_os.Maps.Laws.{lookup-put, lookup-delete}
use nimo_os.PathLock.{
  Mode, write, read, Phase, waiting, holding, unlocked, Session, Manager, no_locks, set_waiters,
  acquire_entry, acquire, release,
}
use nimo_os.PathLock.Steps.{World, world, session, Step, IsReachable}

abbrev pub users : ℕ → List Session → ℕ
users e = count (λ s. s.entry == e)

abbrev pub IsMapped : Map ℕ → Session → Type 0
IsMapped locks s = lookup (clean s.path) locks ≡ some s.entry

pub record IsManaged (w : World) : Type 0 where
  pub mapped : All (IsMapped w.manager.locks) w.sessions
  pub counted : (e : ℕ) → w.manager.waiters e ≡ users e w.sessions
  pub distinct :
      (k j : Text) (e : ℕ)
      → lookup k w.manager.locks ≡ some e
      → lookup j w.manager.locks ≡ some e
      → k ≡ j
  pub made : (k : Text) (e : ℕ) → lookup k w.manager.locks ≡ some e → e < w.manager.next_entry

initial-IsManaged : IsManaged (world no_locks [])
unfolding lookup
initial-IsManaged = record {
  mapped = tt;
  counted = λ e. refl;
  distinct = λ k j e h g. cc;
  made = λ k e h. cc;
}

users-next :
    (locks : Map ℕ) (next : ℕ) (ss : List Session)
    → All (IsMapped locks) ss
    → ((k : Text) (e : ℕ) → lookup k locks ≡ some e → e < next)
    → users next ss ≡ 0
users-next locks next [] h k = refl
users-next locks next (s ∷ ss) h k =
    ground (arith, users-next locks next ss h.1 k, k (clean s.path) s.entry h.0)

IsMapped-put :
    (key : Text) (e : ℕ) (locks : Map ℕ) (ss : List Session)
    → lookup key locks ≡ none
    → All (IsMapped locks) ss
    → All (IsMapped (put key e locks)) ss
IsMapped-put key e locks [] n h = tt
IsMapped-put key e locks (s ∷ ss) n h = (
  ground (arith, lookup-put (clean s.path) key e locks, eqb_iff key (clean s.path), h.0),
  IsMapped-put key e locks ss n h.1,
)

start-IsManaged :
    (path : Text) (mode : Mode) (m : Manager) (ss : List Session)
    → IsManaged (world m ss)
    → IsManaged (world (acquire path m).0 (session path (acquire path m).1 mode waiting ∷ ss))
unfolding acquire
start-IsManaged path mode m ss h = found (lookup (clean path) m.locks) refl
  where
    found :
        (o : Option ℕ)
        → lookup (clean path) m.locks ≡ o
        → IsManaged (
            world
              (acquire_entry (clean path) o m).0
              (session path (acquire_entry (clean path) o m).1 mode waiting ∷ ss))
    found none k =
        unfold acquire_entry in
        record {
          mapped = (
            ground (
              arith,
              lookup-put (clean path) (clean path) m.next_entry m.locks,
              eqb_refl (clean path),
            ),
            IsMapped-put (clean path) m.next_entry m.locks ss k h.mapped,
          );
          counted =
              λ e. ground (arith, h.counted e, users-next m.locks m.next_entry ss h.mapped h.made);
          distinct = λ i j e a b. ground (
            arith,
            lookup-put i (clean path) m.next_entry m.locks,
            lookup-put j (clean path) m.next_entry m.locks,
            eqb_iff (clean path) i,
            eqb_iff (clean path) j,
            h.distinct i j e,
            h.made i e,
            h.made j e,
          );
          made =
              λ i e a. ground (arith, lookup-put i (clean path) m.next_entry m.locks, h.made i e);
        }
    found (some e) k =
        unfold acquire_entry in
        record {
          mapped = (k, h.mapped);
          counted = λ d. ground (arith, h.counted d, h.counted e);
          distinct = h.distinct;
          made = h.made;
        }

module _ (P : Session → Type 0) where
  before_it : (xs ys : List Session) → All P (xs ++ ys) → All P xs
  before_it [] ys h = tt
  before_it (x ∷ xs) ys h = (h.0, before_it xs ys h.1)

  behind_it : (xs ys : List Session) → All P (xs ++ ys) → All P ys
  behind_it [] ys h = h
  behind_it (x ∷ xs) ys h = behind_it xs ys h.1

phase-IsManaged :
    (path : Text) (e : ℕ) (mode : Mode) (ph ph' : Phase) (m : Manager) (xs ys : List Session)
    → IsManaged (world m (xs ++ session path e mode ph ∷ ys))
    → IsManaged (world m (xs ++ session path e mode ph' ∷ ys))
phase-IsManaged path e mode ph ph' m xs ys h = record {
  mapped =
      let rest = behind_it (IsMapped m.locks) xs (session path e mode ph ∷ ys) h.mapped in
      All-append (IsMapped m.locks) xs (session path e mode ph' ∷ ys)
        (before_it (IsMapped m.locks) xs (session path e mode ph ∷ ys) h.mapped) (rest.0, rest.1);
  counted = λ d. ground (
    arith,
    h.counted d,
    count-append (λ s. s.entry == d) xs (session path e mode ph ∷ ys),
    count-append (λ s. s.entry == d) xs (session path e mode ph' ∷ ys),
  );
  distinct = h.distinct;
  made = h.made;
}

IsMapped-delete :
    (key : Text) (e : ℕ) (locks : Map ℕ) (ss : List Session)
    → users e ss ≡ 0
    → lookup key locks ≡ some e
    → All (IsMapped locks) ss
    → All (IsMapped (delete key locks)) ss
IsMapped-delete key e locks [] n k h = tt
IsMapped-delete key e locks (s ∷ ss) n k h = (
  ground (arith, lookup-delete (clean s.path) key locks, eqb_iff key (clean s.path), h.0),
  IsMapped-delete key e locks ss (ground arith) k h.1,
)

users-without :
    (path : Text) (e : ℕ) (mode : Mode) (d : ℕ) (xs ys : List Session)
    → users d (xs ++ session path e mode unlocked ∷ ys)
      ≡ users d (xs ++ ys) + (if e == d then 1 else 0)
users-without path e mode d xs ys = ground (
  arith,
  count-append (λ s. s.entry == d) xs (session path e mode unlocked ∷ ys),
  count-append (λ s. s.entry == d) xs ys,
)

finish-IsManaged :
    (path : Text) (e : ℕ) (mode : Mode) (m : Manager) (xs ys : List Session)
    → IsManaged (world m (xs ++ session path e mode unlocked ∷ ys))
    → IsManaged (world (release path e m) (xs ++ ys))
unfolding release
finish-IsManaged path e mode m xs ys h =
    elim (Bool-cases (set_waiters e (m.waiters e - 1) m.waiters e == 0)) [
      | inl z ↦ rw z (record {
        mapped =
            IsMapped-delete (clean path) e m.locks (xs ++ ys)
              (ground (arith, h.counted e, users-without path e mode e xs ys)) own others;
        counted = left;
        distinct = λ k j d a b. ground (
          arith,
          lookup-delete k (clean path) m.locks,
          lookup-delete j (clean path) m.locks,
          h.distinct k j d,
        );
        made = λ k d a. ground (arith, lookup-delete k (clean path) m.locks, h.made k d);
      })
      | inr z ↦
          rw z (record { mapped = others; counted = left; distinct = h.distinct; made = h.made })
    ]
  where
    own : lookup (clean path) m.locks ≡ some e
    own = (behind_it (IsMapped m.locks) xs (session path e mode unlocked ∷ ys) h.mapped).0

    others : All (IsMapped m.locks) (xs ++ ys)
    others =
        All-append (IsMapped m.locks) xs ys
          (before_it (IsMapped m.locks) xs (session path e mode unlocked ∷ ys) h.mapped)
          (behind_it (IsMapped m.locks) xs (session path e mode unlocked ∷ ys) h.mapped).1

    left : (d : ℕ) → set_waiters e (m.waiters e - 1) m.waiters d ≡ users d (xs ++ ys)
    left d = ground (arith, h.counted d, h.counted e, users-without path e mode d xs ys)

step-IsManaged : (v w : World) → Step v w → IsManaged v → IsManaged w
step-IsManaged _ _ (Step.start path mode m ss) h = start-IsManaged path mode m ss h
step-IsManaged _ _ (Step.grant_write path e m xs ys a b) h =
    phase-IsManaged path e write waiting holding m xs ys h
step-IsManaged _ _ (Step.grant_read path e m xs ys a) h =
    phase-IsManaged path e read waiting holding m xs ys h
step-IsManaged _ _ (Step.unlock path e mode m xs ys) h =
    phase-IsManaged path e mode holding unlocked m xs ys h
step-IsManaged _ _ (Step.finish path e mode m xs ys) h = finish-IsManaged path e mode m xs ys h

-- However the goroutines interleave, while a session lasts the map has its entry under its cleaned
-- path, no entry stands under two paths, and the counter of every entry is the number of its
-- sessions.
pub reachable-IsManaged : (w : World) → IsReachable w → IsManaged w
reachable-IsManaged _ IsReachable.initial = initial-IsManaged
reachable-IsManaged _ (IsReachable.step v w r s) = step-IsManaged v w s (reachable-IsManaged v r)
