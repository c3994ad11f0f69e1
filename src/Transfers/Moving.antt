-- ===== src/Transfers/Moving.antt =====
-- What a move leaves on the disks.
use nimo_os.Base.{
  ℕ, ◌≡◌, refl, ◌∙◌, Bool, true, false, ◌++◌, Option, none, some, arith, Bool-cases, inl, inr, ◌==◌,
}
use nimo_os.Text.{Text}
use nimo_os.FilePath.{covers}
use nimo_os.FilePath.Joining.{IsPlace}
use nimo_os.Files.{FileSystem, IsLawful, IsBelow, RenameError, cross_device, other}
use nimo_os.Files.Copying.{copy_dir_contents}
use nimo_os.Files.Outside.{Keeps, Keeps-trans, Outside-Keeps, copy_dir_contents-Keeps}
use nimo_os.Transfers.{
  Moved, renamed, copied, failed, compare_sizes, copied_over, after_rename, move_item,
}

module _ (s : FileSystem) where
  open s use {World, Node, node}

  -- A source that was copied is removed behind a copy without an error, when both sizes are known
  -- and equal.
  abbrev pub IsVerified : Text → Text → World → Type 0
  IsVerified from dst w' =
      (u : World) × (n : ℕ) × (s.size_of from u ≡ some n)
      × (s.size_of dst u ≡ some n)
      × (w' ≡ (s.remove_all from u).0)

  -- What a move from one path to another makes of a world, by its result.
  abbrev pub IsMove : Text → Text → World → World → Moved → Type 0
  IsMove from dst w w' renamed = (r : Text) → IsBelow r → node (dst ++ r) w' ≡ node (from ++ r) w
  IsMove from dst w w' copied = IsVerified from dst w'
  IsMove from dst w w' failed = Keeps s dst w w'

  -- Outside two paths every file or directory is still there as it was.
  abbrev pub KeepsBoth : Text → Text → World → World → Type 0
  KeepsBoth a b w w' =
      (q : Text) (n : Node)
      → covers a q ≡ false
      → covers b q ≡ false
      → node q w ≡ some n
      → node q w' ≡ some n

  abbrev pub IsSafe : Text → Text → World → World × Moved → Type 0
  IsSafe from dst w r = IsMove from dst w r.0 r.1 × KeepsBoth from dst w r.0

  Keeps-IsSafe :
      (from dst : Text) (w w' : World) → Keeps s dst w w' → IsSafe from dst w (w', failed)
  Keeps-IsSafe from dst w w' h = (h, λ q n a b e. h q n b e)

  module _ (laws : IsLawful s) where
    remove-Keeps :
        (dst : Text) (w u : World) → Keeps s dst w u → Keeps s dst w (s.remove_all dst u).0
    remove-Keeps dst w u h =
        Keeps-trans s dst w u _ h (Outside-Keeps s dst u _ (laws.remove_all_outside dst u))

    compare_sizes-IsSafe :
        (from dst : Text) (w u : World) (a b : Option ℕ)
        → s.size_of from u ≡ a
        → s.size_of dst u ≡ b
        → Keeps s dst w u
        → IsSafe from dst w (compare_sizes s from dst a b u)
    unfolding compare_sizes
    compare_sizes-IsSafe from dst w u none b ea eb h =
        Keeps-IsSafe from dst w _ (remove-Keeps dst w u h)
    compare_sizes-IsSafe from dst w u (some n) none ea eb h =
        Keeps-IsSafe from dst w _ (remove-Keeps dst w u h)
    compare_sizes-IsSafe from dst w u (some n) (some m) ea eb h = elim (Bool-cases (m == n)) [
      | inl e ↦ rw e (
        (u, n, ea, ground arith, refl),
        λ q c a b k. laws.remove_all_outside from u q a ∙ h q c b k,
      )
      | inr e ↦ rw e (Keeps-IsSafe from dst w _ (remove-Keeps dst w u h))
    ]

    copied_over-IsSafe :
        (from dst : Text) (w : World) (r : World × Bool)
        → Keeps s dst w r.0
        → IsSafe from dst w (copied_over s from dst r)
    unfolding copied_over
    copied_over-IsSafe from dst w (u, true) h = elim (Bool-cases (s.ctx_err u)) [
      | inl e ↦ rw e (Keeps-IsSafe from dst w _ (remove-Keeps dst w u h))
      | inr e ↦ rw e (Keeps-IsSafe from dst w u h)
    ]
    copied_over-IsSafe from dst w (u, false) h =
        compare_sizes-IsSafe from dst w u (s.size_of from u) (s.size_of dst u) refl refl h

    -- `u` is the world behind the purge of the thumbnail.
    after_rename-IsSafe :
        (fuel : ℕ) (from dst style : Text) (w u : World) (o : Option RenameError)
        → IsPlace dst
        → ((q : Text) → node q u ≡ node q w)
        → (s.rename from dst u).1 ≡ o
        → IsSafe from dst w (after_rename s fuel from dst style ((s.rename from dst u).0, o))
    unfolding after_rename
    after_rename-IsSafe fuel from dst style w u none place same e = (
      λ r b. laws.rename_moves from dst u e r b ∙ same (from ++ r),
      λ q n a b k. laws.rename_outside from dst u q a b ∙ same q ∙ k,
    )
    after_rename-IsSafe fuel from dst style w u (some other) place same e =
        Keeps-IsSafe from dst w _ (λ q n a k. laws.rename_fails from dst u other e q ∙ same q ∙ k)
    after_rename-IsSafe fuel from dst style w u (some cross_device) place same e =
        copied_over-IsSafe from dst w
          (copy_dir_contents s fuel from dst style (s.rename from dst u).0)
          (Keeps-trans s dst w (s.rename from dst u).0 _
            (λ q n a k. laws.rename_fails from dst u cross_device e q ∙ same q ∙ k)
            (copy_dir_contents-Keeps s laws fuel from dst style (s.rename from dst u).0 place))

    -- Whether it renames, copies or fails, a move changes nothing that is there outside its source
    -- and its destination. One that fails leaves the source too, if it lies outside the
    -- destination; one that renames has everything at the destination that was at the source; and
    -- one that copies removes the source last, behind a copy of the same size.
    pub move_item-IsSafe :
        (fuel : ℕ) (from dst style : Text) (w : World)
        → IsPlace dst
        → IsSafe from dst w (move_item s fuel from dst style w)
    unfolding move_item
    move_item-IsSafe fuel from dst style w place =
        after_rename-IsSafe fuel from dst style w (s.purge_thumb from w)
          (s.rename from dst (s.purge_thumb from w)).1 place (laws.purge_thumb_same from w) refl
