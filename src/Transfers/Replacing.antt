-- ===== src/Transfers/Replacing.antt =====
-- What a replacement leaves of what it replaces.
use mathlib.Core.List.{append_assoc}
use nimo_os.Base.{◌≡◌, refl, ap, ◌∙◌, false, [], ◌∷◌, ◌++◌, Option, none, some}
use nimo_os.Text.{Text}
use nimo_os.FilePath.{covers}
use nimo_os.FilePath.Joining.{covers-extend}
use nimo_os.Files.{FileSystem, IsLawful, IsBelow, RenameError}
use nimo_os.Transfers.{
  Moved, renamed, copied, failed, Replaced, replaced, kept, put_back, after_op, staged_aside,
  replacing, replace_conflict,
}

abbrev pub or_else : Text → Text → Text
or_else [] q = q
or_else (c ∷ p) q = c ∷ p

-- What lies at or below the path aside is not at or below the destination.
pub aside-apart : (dst t r : Text) → covers dst ((dst ++ (b'.' ∷ t)) ++ r) ≡ false
aside-apart dst t r =
    ap (covers dst) (append_assoc dst (b'.' ∷ t) r) ∙ covers-extend dst b'.' (t ++ r)

parked : (dst t : Text) → or_else (dst ++ (b'.' ∷ t)) dst ≡ dst ++ (b'.' ∷ t)
parked [] t = refl
parked (c ∷ dst) t = refl

module _ (s : FileSystem) where
  open s use {World, node}

  -- Every file or directory at or below one path in a world is at or below another one in a later
  -- world.
  abbrev pub Holds : Text → World → Text → World → Type 0
  Holds a w b w' =
      (r : Text) (n : s.Node) → IsBelow r → node (a ++ r) w ≡ some n → node (b ++ r) w' ≡ some n

  -- An operation that leaves alone what is at or below a path.
  abbrev pub Spares : Text → (World → World × Moved) → Type 0
  Spares p do_op = (w : World) → Holds p w p (do_op w).0

  Holds-trans : (a b c : Text) (u v w : World) → Holds a u b v → Holds b v c w → Holds a u c w
  Holds-trans a b c u v w h k r n x e = k r n x (h r n x e)

  -- Behind an error what was at the destination is at the parked path, or back where it was if no
  -- path is parked. Behind a success all is as the operation left it, but for the copy aside.
  abbrev pub IsKept : Text → (World → World × Moved) → World → World → Replaced → Type 0
  IsKept dst do_op w w' (replaced used_rename) =
      (q : Text)
      → covers (replacing s dst w) q ≡ false
      → node q w' ≡ node q (do_op (s.rename dst (replacing s dst w) w).0).0
  IsKept dst do_op w w' (kept p) = Holds dst w (or_else p dst) w'

  module _ (laws : IsLawful s) where
    put_back-IsKept :
        (dst t : Text) (do_op : World → World × Moved) (w u : World) (o : Option RenameError)
        → Holds dst w (dst ++ (b'.' ∷ t)) u
        → (s.rename (dst ++ (b'.' ∷ t)) dst u).1 ≡ o
        → IsKept dst do_op w
            (put_back s (dst ++ (b'.' ∷ t)) ((s.rename (dst ++ (b'.' ∷ t)) dst u).0, o)).0
            (put_back s (dst ++ (b'.' ∷ t)) ((s.rename (dst ++ (b'.' ∷ t)) dst u).0, o)).1
    unfolding put_back
    put_back-IsKept dst t do_op w u none h e =
        Holds-trans dst (dst ++ (b'.' ∷ t)) dst w u _ h
          (λ r n b k. laws.rename_moves (dst ++ (b'.' ∷ t)) dst u e r b ∙ k)
    put_back-IsKept dst t do_op w u (some x) h e = rw (parked dst t) (λ r n b k.
        laws.rename_fails (dst ++ (b'.' ∷ t)) dst u x e ((dst ++ (b'.' ∷ t)) ++ r) ∙ h r n b k)

    after_op-IsKept :
        (dst : Text) (do_op : World → World × Moved) (w u : World) (m : Moved)
        → Holds dst w (replacing s dst w) u
        → ((q : Text) → node q u ≡ node q (do_op (s.rename dst (replacing s dst w) w).0).0)
        → IsKept dst do_op w
            (after_op s dst (replacing s dst w) (u, m)).0
            (after_op s dst (replacing s dst w) (u, m)).1
    unfolding after_op
    after_op-IsKept dst do_op w u failed h e =
        put_back-IsKept dst _ do_op w (s.remove_all dst u).0 _
          (λ r n b k. laws.remove_all_outside dst u _ (aside-apart dst _ r) ∙ h r n b k) refl
    after_op-IsKept dst do_op w u renamed h e =
        λ q c. laws.remove_all_outside (replacing s dst w) u q c ∙ e q
    after_op-IsKept dst do_op w u copied h e =
        λ q c. laws.remove_all_outside (replacing s dst w) u q c ∙ e q

    staged_aside-IsKept :
        (dst : Text) (do_op : World → World × Moved) (w : World) (o : Option RenameError)
        → Spares (replacing s dst w) do_op
        → (s.rename dst (replacing s dst w) w).1 ≡ o
        → IsKept dst do_op w
            (staged_aside s dst
              (replacing s dst w)
              do_op
              ((s.rename dst (replacing s dst w) w).0, o)).0
            (staged_aside s dst
              (replacing s dst w)
              do_op
              ((s.rename dst (replacing s dst w) w).0, o)).1
    unfolding staged_aside
    staged_aside-IsKept dst do_op w (some x) spare e =
        λ r n b k. laws.rename_fails dst (replacing s dst w) w x e (dst ++ r) ∙ k
    staged_aside-IsKept dst do_op w none spare e =
        after_op-IsKept dst do_op w _ (do_op (s.rename dst (replacing s dst w) w).0).1
          (Holds-trans dst (replacing s dst w) (replacing s dst w) w _ _
            (λ r n b k. laws.rename_moves dst (replacing s dst w) w e r b ∙ k) (spare _))
          (λ q. refl)

    -- A replacement never loses what it is to replace. Whichever of its steps fails, everything that
    -- was at or below the destination is at the parked path that it reports, or, if it reports none,
    -- back at the destination; supposed that the operation leaves the path aside alone. Behind a
    -- success every other path is as the operation left it.
    pub replace_conflict-IsKept :
        (dst : Text) (do_op : World → World × Moved) (w : World)
        → Spares (replacing s dst w) do_op
        → IsKept dst do_op w (replace_conflict s dst do_op w).0 (replace_conflict s dst do_op w).1
    unfolding replace_conflict
    replace_conflict-IsKept dst do_op w spare =
        staged_aside-IsKept dst do_op w (s.rename dst (replacing s dst w) w).1 spare refl
