-- ===== src/Files/Height.antt =====
-- The fuel of CopyDirContents. What is supposed here is strong: the same height has to fall from
-- every directory to the ones in it, on all disks and whatever the copy does to them meanwhile.
use nimo_os.Base.{
  ℕ, zero, suc, ◌<◌, ◌≡◌, refl, ap, Bool, true, false, List, [], ◌∷◌, Option, none, some, arith,
  All, ◌&&◌, if◌then◌else◌,
}
use nimo_os.Text.{Text, eqb, text}
use nimo_os.FilePath.{join_path}
use nimo_os.Files.{FileSystem}
use nimo_os.Files.Copying.{
  unless_error, after_cp, copy_entries, copy_listed, copy_by_hand, copy_stat, copy_entry,
  copy_dir_contents,
}

module _ (s : FileSystem) where
  open s use {World}

  -- Whatever the disks do meanwhile, a directory that is listed lies higher than the directories
  -- in it.
  abbrev pub IsHeight : (Text → ℕ) → Type 0
  IsHeight height =
      (d : Text) (w : World) (fds : List (Text × Bool))
      → s.read_dir d w ≡ some fds
      → All (λ fd. fd.1 ≡ true → height (join_path d fd.0) < height d) fds

  unless_error_agree :
      (r : World × Bool) (f g : World → World × Bool)
      → ((v : World) → f v ≡ g v)
      → unless_error r f ≡ unless_error r g
  unfolding unless_error
  unless_error_agree (v, true) f g h = refl
  unless_error_agree (v, false) f g h = h v

  after_cp_agree :
      (r : World × Bool) (f g : World → World × Bool)
      → ((v : World) → f v ≡ g v)
      → after_cp s f r ≡ after_cp s g r
  unfolding after_cp
  after_cp_agree (v, false) f g h = refl
  after_cp_agree (v, true) f g h = rw (h v) refl

  abbrev Copy : Type 0
  Copy = Text → Text → Bool → World → World × Bool

  module _ (f g : Copy) where
    -- Two ways to copy that agree on the listed entries of a directory.
    abbrev Agree : Text → List (Text × Bool) → Type 0
    Agree src = All (λ fd.
        (b : Text) (w : World) → f (join_path src fd.0) b fd.1 w ≡ g (join_path src fd.0) b fd.1 w)

    copy_entries-Agree :
        (src dst : Text) (fds : List (Text × Bool)) (w : World)
        → Agree src fds
        → copy_entries s f src dst fds w ≡ copy_entries s g src dst fds w
    unfolding copy_entries
    copy_entries-Agree src dst [] w h = refl
    copy_entries-Agree src dst ((name, is_dir) ∷ fds) w (h, hs) = rw (h (join_path dst name) w) (
        ap (λ x. if s.ctx_err w then (w, true) else x)
          (unless_error_agree (g (join_path src name) (join_path dst name) is_dir w) _ _
            (λ v. copy_entries-Agree src dst fds v hs)))

    module _ (src dst : Text)
        (h : (v : World) (fds : List (Text × Bool))
          → s.read_dir src v ≡ some fds
          → Agree src fds) where
      copy_listed_agree :
          (o : Option (List (Text × Bool))) (w : World)
          → s.read_dir src w ≡ o
          → copy_listed s f src dst o w ≡ copy_listed s g src dst o w
      unfolding copy_listed
      copy_listed_agree none w e = refl
      copy_listed_agree (some fds) w e = copy_entries-Agree src dst fds w (h w fds e)

      copy_by_hand_agree : (w : World) → copy_by_hand s f src dst w ≡ copy_by_hand s g src dst w
      unfolding copy_by_hand
      copy_by_hand_agree w =
          unless_error_agree (s.mkdir_all dst w) _ _
            (λ v. copy_listed_agree (s.read_dir src v) v refl)

      copy_stat_agree :
          (style : Text) (o : Option Bool) (w : World)
          → copy_stat s f src dst style o w ≡ copy_stat s g src dst style o w
      unfolding copy_stat
      copy_stat_agree style none w = refl
      copy_stat_agree style (some false) w = refl
      copy_stat_agree style (some true) w =
          ap
            (λ x.
              if s.exists dst w && eqb style (text "skip")
              then (w, false)
              else if s.ctx_err w
              then (w, true)
              else x)
            (after_cp_agree (s.cp_dir src dst w) _ _ copy_by_hand_agree)

  module _ (height : Text → ℕ) (falls : IsHeight height) where
    copy_entry-Agree :
        (m n : ℕ) (style src : Text)
        → height src < suc m
        → height src < suc n
        → ((a b : Text) (w : World)
            → height a < m
            → height a < n
            → copy_dir_contents s m a b style w ≡ copy_dir_contents s n a b style w)
        → (fds : List (Text × Bool))
        → All (λ fd. fd.1 ≡ true → height (join_path src fd.0) < height src) fds
        → Agree
            (copy_entry s (copy_dir_contents s m) style)
            (copy_entry s (copy_dir_contents s n) style)
            src
            fds
    copy_entry-Agree m n style src hm hn same [] l = tt
    copy_entry-Agree m n style src hm hn same ((name, true) ∷ fds) (l, ls) = (
      λ b w.
          unfold copy_entry in
          same (join_path src name) b w (omega (arith, l refl, hm)) (omega (arith, l refl, hn)),
      copy_entry-Agree m n style src hm hn same fds ls,
    )
    copy_entry-Agree m n style src hm hn same ((name, false) ∷ fds) (l, ls) =
        (λ b w. unfold copy_entry in refl, copy_entry-Agree m n style src hm hn same fds ls)

    -- Where a height falls from each directory to those in it, on whichever disks, what
    -- CopyDirContents does and comes back with is the same for every fuel above that of the source.
    pub copy_dir_contents-fuel :
        (m n : ℕ) (src dst style : Text) (w : World)
        → height src < m
        → height src < n
        → copy_dir_contents s m src dst style w ≡ copy_dir_contents s n src dst style w
    unfolding copy_dir_contents
    copy_dir_contents-fuel zero n src dst style w hm hn = elim hm [ ]
    copy_dir_contents-fuel (suc m) zero src dst style w hm hn = elim hn [ ]
    copy_dir_contents-fuel (suc m) (suc n) src dst style w hm hn =
        copy_stat_agree (copy_entry s (copy_dir_contents s m) style)
          (copy_entry s (copy_dir_contents s n) style) src dst
          (λ v fds e.
            copy_entry-Agree m n style src hm hn
              (λ a b u km kn. copy_dir_contents-fuel m n a b style u km kn) fds (falls src v fds e))
          style (s.stat_dir src w) w
