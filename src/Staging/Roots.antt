-- ===== src/Staging/Roots.antt =====
-- Which mount the bytes of an upload are kept on.
use nimo_os.Base.{
  ℕ, suc, ◌<◌, ◌≤◌, ◌≡◌, true, false, not, ◌&&◌, ◌||◌, List, [], ◌∷◌, none, some, arith, All,
  All-weaken, any, length, Bool-cases, inl, inr, leb, if◌then◌else◌,
}
use nimo_os.Text.{Text, eqb}
use nimo_os.Text.Laws.{eqb_iff, eqb_refl}
use nimo_os.FilePath.{clean}
use nimo_os.Staging.{
  MountEntry, is_local_volume_fs_type, is_over, Best, is_longer, best_mount, root_or_legacy,
  resolve_staging_root,
}

abbrev rank : Best → ℕ
rank none = 0
rank (some (mp, fs)) = suc (length mp)

module _ (target : Text) where
  abbrev better : MountEntry → Best → Best
  better m best =
      if is_over (clean m.mountpoint) target && is_longer (clean m.mountpoint) best
      then some (clean m.mountpoint, m.fs_type)
      else best

  rank-better : (m : MountEntry) (best : Best) → rank best ≤ rank (better m best)
  rank-better m none = ground arith
  rank-better m (some (b, f)) = ground arith

  rank-over :
      (m : MountEntry) (best : Best)
      → is_over (clean m.mountpoint) target ≡ true
      → length (clean m.mountpoint) < rank (better m best)
  rank-over m none h = ground arith
  rank-over m (some (b, f)) h = ground arith

  rank-best_mount :
      (ms : List MountEntry) (best : Best) → rank best ≤ rank (best_mount target ms best)
  unfolding best_mount
  rank-best_mount [] best = omega arith
  rank-best_mount (m ∷ ms) best =
      omega (arith, rank-better m best, rank-best_mount ms (better m best))

  best_mount-longest :
      (ms : List MountEntry) (best : Best)
      → All
          (λ m.
            is_over (clean m.mountpoint) target ≡ true
            → length (clean m.mountpoint) < rank (best_mount target ms best))
          ms
  unfolding best_mount
  best_mount-longest [] best = tt
  best_mount-longest (m ∷ ms) best = (
    (λ h. omega (arith, rank-over m best h, rank-best_mount ms (better m best))),
    best_mount-longest ms (better m best),
  )

  -- The mount point and the type are those of an entry that is over the target.
  abbrev IsEntry : List MountEntry → Best → Type 0
  IsEntry ms none = Unit
  IsEntry ms (some (mp, fs)) =
      (is_over mp target ≡ true)
      × (any (λ m. eqb (clean m.mountpoint) mp && eqb m.fs_type fs) ms ≡ true)

  IsEntry-better :
      (m : MountEntry) (all : List MountEntry) (best : Best)
      → any (λ n. eqb (clean n.mountpoint) (clean m.mountpoint) && eqb n.fs_type m.fs_type) all
        ≡ true
      → IsEntry all best
      → IsEntry all (better m best)
  IsEntry-better m all best k h = elim (Bool-cases (is_over (clean m.mountpoint) target)) [
    | inl e ↦ elim (Bool-cases (is_longer (clean m.mountpoint) best)) [
      | inl l ↦ rw (e, l) (e, k)
      | inr l ↦ rw (e, l) h
    ]
    | inr e ↦ rw e h
  ]

  abbrev AreIn : List MountEntry → List MountEntry → Type 0
  AreIn all = All λ m.
      any (λ n. eqb (clean n.mountpoint) (clean m.mountpoint) && eqb n.fs_type m.fs_type) all ≡ true

  AreIn-self : (ms : List MountEntry) → AreIn ms ms
  AreIn-self [] = tt
  AreIn-self (m ∷ ms) = (
    ground (arith, eqb_refl (clean m.mountpoint), eqb_refl m.fs_type),
    All-weaken _ _ ms (λ n h. ground (arith, h)) (AreIn-self ms),
  )

  best_mount-IsEntry :
      (all ms : List MountEntry) (best : Best)
      → AreIn all ms
      → IsEntry all best
      → IsEntry all (best_mount target ms best)
  unfolding best_mount
  best_mount-IsEntry all [] best k h = h
  best_mount-IsEntry all (m ∷ ms) best k h =
      best_mount-IsEntry all ms (better m best) k.1 (IsEntry-better m all best k.0 h)

-- Where resolveStagingRoot does not fall back, the root is the mount point of an entry with a local
-- filesystem that is at or above the target, and no entry at or above the target has a longer one.
pub resolve_staging_root-longest :
    (target : Text) (mounts : List MountEntry)
    → (resolve_staging_root target mounts).1 ≡ false
    → (is_over (resolve_staging_root target mounts).0 (clean target) ≡ true)
      × (any
            (λ m.
              eqb (clean m.mountpoint) (resolve_staging_root target mounts).0
              && is_local_volume_fs_type m.fs_type)
            mounts
          ≡ true)
      × All
          (λ m.
            (not (is_over (clean m.mountpoint) (clean target))
              || leb (length (clean m.mountpoint)) (length (resolve_staging_root target mounts).0))
            ≡ true)
          mounts
unfolding resolve_staging_root
resolve_staging_root-longest target mounts h =
    chosen (best_mount (clean target) mounts none)
      (best_mount-IsEntry (clean target) mounts mounts none (AreIn-self (clean target) mounts) tt)
      (best_mount-longest (clean target) mounts none) h
  where
    with_type :
        (mp fs : Text) (ms : List MountEntry)
        → is_local_volume_fs_type fs ≡ true
        → any (λ m. eqb (clean m.mountpoint) mp && eqb m.fs_type fs) ms ≡ true
        → any (λ m. eqb (clean m.mountpoint) mp && is_local_volume_fs_type m.fs_type) ms ≡ true
    with_type mp fs [] l k = cc k
    with_type mp fs (m ∷ ms) l k = ground (arith, eqb_iff m.fs_type fs, with_type mp fs ms l)

    chosen :
        (best : Best)
        → IsEntry (clean target) mounts best
        → All
            (λ m.
              is_over (clean m.mountpoint) (clean target) ≡ true
              → length (clean m.mountpoint) < rank best)
            mounts
        → (root_or_legacy best).1 ≡ false
        → (is_over (root_or_legacy best).0 (clean target) ≡ true)
          × (any
                (λ m.
                  eqb (clean m.mountpoint) (root_or_legacy best).0
                  && is_local_volume_fs_type m.fs_type)
                mounts
              ≡ true)
          × All
              (λ m.
                (not (is_over (clean m.mountpoint) (clean target))
                  || leb (length (clean m.mountpoint)) (length (root_or_legacy best).0))
                ≡ true)
              mounts
    chosen none e l k = unfold root_or_legacy in ground arith
    chosen (some (mp, fs)) e l k = elim (Bool-cases (is_local_volume_fs_type fs)) [
      | inl t ↦
          unfold root_or_legacy in
          rw t
            (e.0, with_type mp fs mounts t e.1, All-weaken _ _ mounts (λ m f. ground (arith, f)) l)
      | inr t ↦ unfold root_or_legacy in ground arith
    ]
