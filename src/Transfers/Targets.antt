-- ===== src/Transfers/Targets.antt =====
-- Where an item lands: at its destination, or at a free name beside it.
use nimo_os.Base.{
  ℕ, zero, suc, ◌≡◌, refl, sym, ap, subst, ◌∙◌, true, false, ◌∷◌, ◌++◌, Option, none, some, arith,
  Bool-cases, inl, inr,
}
use nimo_os.Text.{Text}
use nimo_os.FilePath.{slash, covers, base}
use nimo_os.FilePath.Laws.{IsPlain}
use nimo_os.FilePath.Joining.{IsPlace, join_path-place, join_path-IsPlace}
use nimo_os.Files.{FileSystem, IsLawful}
use nimo_os.Files.Naming.{numbered, get_no_duplicate_file_name, name_at, duplicate_name}
use nimo_os.Files.Naming.Candidates.{duplicate_name-join, numbered-IsPlain}
use nimo_os.Transfers.{claim, or_again, op_dest_path, resolve_rename_target}

-- The destination of a task is a cleaned absolute path other than the root directory, and the last
-- element of the source is a name.
pub record IsItem (to from : Text) : Type 0 where
  pub place : IsPlace to
  pub named : IsPlain (base from)

pub op_dest_path-IsPlace : (to from : Text) → IsItem to from → IsPlace (op_dest_path from to)
unfolding op_dest_path
op_dest_path-IsPlace to from h = join_path-IsPlace to (base from) h.place h.named

pub name_at-form :
    (candidate : ℕ → Text) (o : Option ℕ) (p : Text)
    → name_at candidate o ≡ some p
    → (i : ℕ) × (p ≡ candidate i)
unfolding name_at
name_at-form candidate none p e = cc e
name_at-form candidate (some i) p e = (i, cc e)

module _ (s : FileSystem) where
  open s use {World, Node, node}

  -- A candidate of the search for a free name is a place in the same directory.
  module _ (fuel : ℕ) (to from : Text) (h : IsItem to from) where
    entry-IsPlace : (n : Text) → IsPlain n → IsPlace (to ++ (slash ∷ n))
    entry-IsPlace n k =
        subst IsPlace (join_path-place to n h.place k) (join_path-IsPlace to n h.place k)

    candidate-IsPlace : (i : ℕ) → IsPlace (duplicate_name (op_dest_path from to) i)
    unfolding op_dest_path
    candidate-IsPlace i =
        subst IsPlace
          (sym (
            ap (λ x. duplicate_name x i) (join_path-place to (base from) h.place h.named)
            ∙ duplicate_name-join to (base from) h.place h.named i))
          (entry-IsPlace (numbered (base from) i) (numbered-IsPlain (base from) i h.named.0))

    pub get_no_duplicate-IsPlace :
        (p : Text) (w : World)
        → get_no_duplicate_file_name s fuel (op_dest_path from to) w ≡ some p
        → IsPlace p
    unfolding get_no_duplicate_file_name
    get_no_duplicate-IsPlace p w e = elim (Bool-cases (s.exists (op_dest_path from to) w)) [
      | inl x ↦
          let (i, k) = name_at-form (duplicate_name (op_dest_path from to)) _ p (rw x at e) in
          subst IsPlace (sym k) (candidate-IsPlace i)
      | inr x ↦ subst IsPlace (cc (rw x at e)) (op_dest_path-IsPlace to from h)
    ]

  -- Every file or directory of a kind is still there as it was.
  abbrev pub Stays : (Text → Type 0) → World → World → Type 0
  Stays P w w' = (q : Text) (n : Node) → P q → node q w ≡ some n → node q w' ≡ some n

  pub Stays-trans : (P : Text → Type 0) (u v w : World) → Stays P u v → Stays P v w → Stays P u w
  Stays-trans P u v w h k q n x e = k q n x (h q n x e)

  module _ (laws : IsLawful s) where
    -- What is new is nothing that was there.
    pub new-Stays :
        (P : Text → Type 0) (dst : Text) (w w' : World)
        → s.not_exist dst w ≡ true
        → ((q : Text) (n : Node)
            → P q
            → covers dst q ≡ false
            → node q w ≡ some n
            → node q w' ≡ some n)
        → Stays P w w'
    new-Stays P dst w w' new h q n x e = elim (Bool-cases (covers dst q)) [
      | inl c ↦ ground (arith, laws.absent dst w new q c)
      | inr c ↦ h q n x c e
    ]

    -- The target of a rename: it does not exist, and what was there before the search still is.
    abbrev pub IsTarget : World → World × Option Text → Type 0
    IsTarget w (w', none) = Stays (λ q. Unit) w w'
    IsTarget w (w', some p) = Stays (λ q. Unit) w w' × IsPlace p × (s.not_exist p w' ≡ true)

    claim-IsTarget :
        (w : World) (o : Option Text) (again : World → World × Option Text)
        → ((p : Text) → o ≡ some p → IsPlace p)
        → ((u : World) → IsTarget u (again u))
        → IsTarget w (or_again s (claim s o w) again)
    claim-IsTarget w none again place ih = ih w
    claim-IsTarget w (some p) again place ih = elim (Bool-cases (s.not_exist p (s.interfere p w))) [
      | inl e ↦ rw e ((λ q n x k. laws.interfere_keeps p w q n k), place p refl, e)
      | inr e ↦ rw e (later (again (s.interfere p w)) (ih (s.interfere p w)))
    ]
      where
        later : (r : World × Option Text) → IsTarget (s.interfere p w) r → IsTarget w r
        later (u, none) h = λ q n x k. h q n x (laws.interfere_keeps p w q n k)
        later (u, some p') (h, k, l) = (λ q n x e. h q n x (laws.interfere_keeps p w q n e), k, l)

    pub resolve_rename_target-IsTarget :
        (n fuel : ℕ) (dst : Text) (w : World)
        → ((p : Text) (u : World) → get_no_duplicate_file_name s fuel dst u ≡ some p → IsPlace p)
        → IsTarget w (resolve_rename_target s n fuel dst w)
    unfolding resolve_rename_target
    resolve_rename_target-IsTarget zero fuel dst w place = λ q n x e. e
    resolve_rename_target-IsTarget (suc n) fuel dst w place =
        claim-IsTarget w (get_no_duplicate_file_name s fuel dst w)
          (resolve_rename_target s n fuel dst) (λ p e. place p w e)
          (λ u. resolve_rename_target-IsTarget n fuel dst u place)
