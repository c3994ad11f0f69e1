-- ===== src/Files/Outside.antt =====
-- What a copy leaves alone: every file that is there outside its destination.
use nimo_os.Base.{
  ℕ, zero, suc, ◌≡◌, refl, ◌∙◌, Bool, true, false, ◌&&◌, List, [], ◌∷◌, Option, none, some, arith,
  Bool-cases, inl, inr, All,
}
use nimo_os.Text.{Text, eqb, text}
use nimo_os.FilePath.{covers, join_path}
use nimo_os.FilePath.Laws.{IsPlain}
use nimo_os.FilePath.Joining.{IsPlace, join_path-IsPlace, covers-join_path, covers_trans}
use nimo_os.Files.{FileSystem, IsLawful, Outside}
use nimo_os.Files.Copying.{
  unless_error, after_cp, copy_file, copy_entries, copy_listed, copy_by_hand, copy_stat, copy_entry,
  copy_dir_contents,
}

module _ (s : FileSystem) where
  open s use {World, Node, node}

  -- Every file or directory outside a path is still there as it was.
  abbrev pub Keeps : Text → World → World → Type 0
  Keeps p w w' = (q : Text) (n : Node) → covers p q ≡ false → node q w ≡ some n → node q w' ≡ some n

  pub Keeps-refl : (p : Text) (w : World) → Keeps p w w
  Keeps-refl p w q n c h = h

  pub Keeps-trans : (p : Text) (u v w : World) → Keeps p u v → Keeps p v w → Keeps p u w
  Keeps-trans p u v w h k q n c e = k q n c (h q n c e)

  pub Outside-Keeps : (p : Text) (w w' : World) → Outside s p w w' → Keeps p w w'
  Outside-Keeps p w w' h q n c e = h q c ∙ e

  pub Keeps-above : (p d : Text) (w w' : World) → covers p d ≡ true → Keeps d w w' → Keeps p w w'
  Keeps-above p d w w' a h q n c e = h q n (ground (arith, covers_trans p d q a)) e

  pub unless_error-Keeps :
      (p : Text) (w : World) (r : World × Bool) (k : World → World × Bool)
      → Keeps p w r.0
      → ((v : World) → Keeps p v (k v).0)
      → Keeps p w (unless_error r k).0
  unfolding unless_error
  unless_error-Keeps p w (v, true) k h i = h
  unless_error-Keeps p w (v, false) k h i = Keeps-trans p w v (k v).0 h (i v)

  after_cp-Keeps :
      (p : Text) (w : World) (r : World × Bool) (k : World → World × Bool)
      → Keeps p w r.0
      → ((v : World) → Keeps p v (k v).0)
      → Keeps p w (after_cp s k r).0
  unfolding after_cp
  after_cp-Keeps p w (v, false) k h i = h
  after_cp-Keeps p w (v, true) k h i = elim (Bool-cases (s.ctx_err v)) [
    | inl e ↦ rw e h
    | inr e ↦ rw e (Keeps-trans p w v (k v).0 h (i v))
  ]

  module _ (laws : IsLawful s) where
    copy_file-Keeps :
        (src dst style : Text) (w : World) → Keeps dst w (copy_file s src dst style w).0
    unfolding copy_file
    copy_file-Keeps src dst style w =
        elim (Bool-cases (s.exists dst w && eqb style (text "skip"))) [
          | inl e ↦ rw e (Keeps-refl dst w)
          | inr e ↦ elim (Bool-cases (s.ctx_err w)) [
            | inl f ↦ rw (e, f) (Keeps-refl dst w)
            | inr f ↦
                rw (e, f)
                  (after_cp-Keeps dst w (s.cp_file src dst w) (s.copy_bytes src dst)
                    (Outside-Keeps dst w _ (laws.cp_file_outside src dst w))
                    (λ v. Outside-Keeps dst v _ (laws.copy_bytes_outside src dst v)))
          ]
        ]

    -- `copy` keeps what is outside the entry that it copies to.
    abbrev KeepsEntry : (Text → Text → Bool → World → World × Bool) → Type 0
    KeepsEntry copy =
        (a b : Text) (is_dir : Bool) (w : World) → IsPlace b → Keeps b w (copy a b is_dir w).0

    module _ (copy : Text → Text → Bool → World → World × Bool) (keep : KeepsEntry copy)
        (src dst : Text) (place : IsPlace dst) where
      copy_entries-Keeps :
          (fds : List (Text × Bool)) (w : World)
          → All (λ fd. IsPlain fd.0) fds
          → Keeps dst w (copy_entries s copy src dst fds w).0
      unfolding copy_entries
      copy_entries-Keeps [] w h = Keeps-refl dst w
      copy_entries-Keeps ((name, is_dir) ∷ fds) w (h, hs) = elim (Bool-cases (s.ctx_err w)) [
        | inl e ↦ rw e (Keeps-refl dst w)
        | inr e ↦ rw e (
            unless_error-Keeps dst w (copy (join_path src name) (join_path dst name) is_dir w)
              (copy_entries s copy src dst fds)
              (Keeps-above dst (join_path dst name) w _ (covers-join_path dst name place h) (
                keep (join_path src name) (join_path dst name) is_dir w
                  (join_path-IsPlace dst name place h)))
              (λ v. copy_entries-Keeps fds v hs))
      ]

      copy_listed-Keeps :
          (o : Option (List (Text × Bool))) (w : World)
          → s.read_dir src w ≡ o
          → Keeps dst w (copy_listed s copy src dst o w).0
      unfolding copy_listed
      copy_listed-Keeps none w e = Keeps-refl dst w
      copy_listed-Keeps (some fds) w e = copy_entries-Keeps fds w (laws.read_dir_plain src w fds e)

      copy_by_hand-Keeps : (w : World) → Keeps dst w (copy_by_hand s copy src dst w).0
      unfolding copy_by_hand
      copy_by_hand-Keeps w =
          unless_error-Keeps dst w (s.mkdir_all dst w)
            (λ v. copy_listed s copy src dst (s.read_dir src v) v) (laws.mkdir_all_outside dst w)
            (λ v. copy_listed-Keeps (s.read_dir src v) v refl)

      copy_stat-Keeps :
          (style : Text) (o : Option Bool) (w : World)
          → Keeps dst w (copy_stat s copy src dst style o w).0
      unfolding copy_stat
      copy_stat-Keeps style none w = Keeps-refl dst w
      copy_stat-Keeps style (some false) w = copy_file-Keeps src dst style w
      copy_stat-Keeps style (some true) w =
          elim (Bool-cases (s.exists dst w && eqb style (text "skip"))) [
            | inl e ↦ rw e (Keeps-refl dst w)
            | inr e ↦ elim (Bool-cases (s.ctx_err w)) [
              | inl f ↦ rw (e, f) (Keeps-refl dst w)
              | inr f ↦
                  rw (e, f)
                    (after_cp-Keeps dst w (s.cp_dir src dst w) (copy_by_hand s copy src dst)
                      (Outside-Keeps dst w _ (laws.cp_dir_outside src dst w)) copy_by_hand-Keeps)
            ]
          ]

    copy_entry-Keeps :
        (copy_dir : Text → Text → Text → World → World × Bool) (style : Text)
        → ((a b : Text) (w : World) → IsPlace b → Keeps b w (copy_dir a b style w).0)
        → KeepsEntry (copy_entry s copy_dir style)
    unfolding copy_entry
    copy_entry-Keeps copy_dir style keep a b true w h = keep a b w h
    copy_entry-Keeps copy_dir style keep a b false w h = copy_file-Keeps a b style w

    -- However the copy ends, whatever is there outside its destination stays as it is.
    pub copy_dir_contents-Keeps :
        (fuel : ℕ) (src dst style : Text) (w : World)
        → IsPlace dst
        → Keeps dst w (copy_dir_contents s fuel src dst style w).0
    unfolding copy_dir_contents
    copy_dir_contents-Keeps zero src dst style w h = Keeps-refl dst w
    copy_dir_contents-Keeps (suc fuel) src dst style w h =
        copy_stat-Keeps (copy_entry s (copy_dir_contents s fuel) style)
          (copy_entry-Keeps (copy_dir_contents s fuel) style
            (λ a b v p. copy_dir_contents-Keeps fuel a b style v p))
          src dst h style (s.stat_dir src w) w
