-- ===== src/Transfers/Kept.antt =====
-- What is to be replaced is never lost: the conflict branches of FileOperate with replaceConflict.
use nimo_os.Base.{ℕ, ◌≡◌, refl, subst, Bool, true, false, [], ◌∷◌, ◌++◌, none, Bool-cases, inl, inr}
use nimo_os.Text.{Text, eqb, text}
use nimo_os.Text.Laws.{eqb→eq}
use nimo_os.FilePath.{covers}
use nimo_os.FilePath.Joining.{IsPlace}
use nimo_os.Files.{FileSystem, IsLawful, IsBelow}
use nimo_os.Files.Copying.{copy_dir_contents, copy_dir}
use nimo_os.Files.Outside.{copy_dir_contents-Keeps}
use nimo_os.OpQueue.{FileItem, FileOperate}
use nimo_os.Transfers.{Moved, Replaced, replaced, kept, move_item, op_dest_path, replacing}
use nimo_os.Transfers.Items.{
  ItemOutcome, after_replace, as_moved, move_conflict, copy_conflict, move_step, copy_step,
  operate_item, is_replacing,
}
use nimo_os.Transfers.Moving.{move_item-IsSafe}
use nimo_os.Transfers.Replacing.{
  Holds, Spares, IsKept, or_else, aside-apart, replace_conflict-IsKept,
}
use nimo_os.Transfers.Targets.{IsItem, op_dest_path-IsPlace}

replacing-not-skip : (style : Text) → is_replacing style ≡ true → eqb style (text "skip") ≡ false
unfolding eqb
replacing-not-skip style h = elim (Bool-cases (eqb style (text "skip"))) [
  | inl e ↦ cc (subst (λ x. is_replacing x ≡ true) (eqb→eq style (text "skip") e) h)
  | inr e ↦ e
]

module _ (s : FileSystem) (laws : IsLawful s) where
  open s use {World}

  -- No path at or below another one lies at or below a source.
  abbrev pub IsClear : Text → Text → Type 0
  IsClear from p = (r : Text) → IsBelow r → covers from (p ++ r) ≡ false

  move-Spares :
      (fuel : ℕ) (from dst style : Text) (w : World)
      → IsPlace dst
      → IsClear from (replacing s dst w)
      → Spares s (replacing s dst w) (move_item s fuel from dst style)
  move-Spares fuel from dst style w place clear u r n b k =
      (move_item-IsSafe s laws fuel from dst style u place).1 _ n (clear r b) (aside-apart dst _ r)
        k

  as_moved-world : (r : World × Bool) → (as_moved s r).0 ≡ r.0
  unfolding as_moved
  as_moved-world (w, true) = refl
  as_moved-world (w, false) = refl

  copy-Spares :
      (fuel : ℕ) (from dst style : Text) (w : World)
      → IsPlace dst
      → Spares s (replacing s dst w) (λ u. as_moved s (copy_dir_contents s fuel from dst style u))
  copy-Spares fuel from dst style w place u r n b k =
      rw (as_moved-world (copy_dir_contents s fuel from dst style u))
        (copy_dir_contents-Keeps s laws fuel from dst style u place _ n (aside-apart dst _ r) k)

  -- Where nothing landed, what was at the destination is at the parked path of the item, or there.
  abbrev IsHeld : Text → World → World × ItemOutcome → Type 0
  IsHeld dst w r = r.1.landed ≡ none → Holds s dst w (or_else r.1.item.parked_path dst) r.0

  after_replace-IsHeld :
      (dst : Text) (do_op : World → World × Moved) (v : FileItem) (w : World) (r : World × Replaced)
      → v.parked_path ≡ []
      → IsKept s dst do_op w r.0 r.1
      → IsHeld dst w (after_replace s dst v r)
  unfolding after_replace
  after_replace-IsHeld dst do_op v w (u, replaced true) p h l = cc l
  after_replace-IsHeld dst do_op v w (u, replaced false) p h l = cc l
  after_replace-IsHeld dst do_op v w (u, kept []) p h l = rw p h
  after_replace-IsHeld dst do_op v w (u, kept (c ∷ q)) p h l = h

  module _ (attempts fuel : ℕ) (t : FileOperate) (harsh : is_replacing t.style ≡ true)
      (v : FileItem) (h : IsItem t.to v.from) (fresh : v.parked_path ≡ []) (w : World)
      (taken : s.not_exist (op_dest_path v.from t.to) w ≡ false) where
    move_step-IsHeld :
        IsClear v.from (replacing s (op_dest_path v.from t.to) w)
        → IsHeld (op_dest_path v.from t.to) w (move_step s attempts fuel t v w)
    unfolding move_step move_conflict
    move_step-IsHeld clear =
        rw (taken, replacing-not-skip t.style harsh, harsh)
          (after_replace-IsHeld (op_dest_path v.from t.to)
            (move_item s fuel v.from (op_dest_path v.from t.to) t.style) v w _ fresh
            (replace_conflict-IsKept s laws (op_dest_path v.from t.to)
              (move_item s fuel v.from (op_dest_path v.from t.to) t.style) w
              (move-Spares fuel v.from (op_dest_path v.from t.to) t.style w
                (op_dest_path-IsPlace t.to v.from h) clear)))

    copy_step-IsHeld : IsHeld (op_dest_path v.from t.to) w (copy_step s attempts fuel t v w)
    unfolding copy_step copy_conflict copy_dir op_dest_path
    copy_step-IsHeld =
        rw (taken, replacing-not-skip t.style harsh, harsh)
          (after_replace-IsHeld (op_dest_path v.from t.to)
            (λ u. as_moved s (copy_dir s fuel v.from t.to t.style u)) v w _ fresh
            (replace_conflict-IsKept s laws (op_dest_path v.from t.to)
              (λ u. as_moved s (copy_dir s fuel v.from t.to t.style u)) w
              (copy-Spares fuel v.from (op_dest_path v.from t.to) t.style w
                (op_dest_path-IsPlace t.to v.from h))))

    operate_item-IsHeld :
        (eqb t.op_type (text "move") ≡ true
          → IsClear v.from (replacing s (op_dest_path v.from t.to) w))
        → IsHeld (op_dest_path v.from t.to) w (operate_item s attempts fuel t v w)
    unfolding operate_item
    operate_item-IsHeld clear = elim (Bool-cases (eqb t.op_type (text "move"))) [
      | inl e ↦ rw e (move_step-IsHeld (clear e))
      | inr e ↦ elim (Bool-cases (eqb t.op_type (text "copy"))) [
        | inl f ↦ rw (e, f) copy_step-IsHeld
        | inr f ↦ rw (e, f) (λ l r n b k. rw fresh k)
      ]
    ]

    -- A move or a copy that replaces what stands at its destination does not lose it where the item
    -- does not land, whichever step failed or was cancelled: every file and directory at or below the
    -- destination is there again, or at the parked path that the item reports. This is so under these
    -- conditions: the style is "replace" or "overwrite", something stands at the destination, and the
    -- item reports no parked path before. To is a cleaned absolute path other than the root
    -- directory, and the last element of From is a plain name. And for a move, no path at or below
    -- the one that the destination is staged at lies at or below From.
    pub operate_item-Holds :
        (eqb t.op_type (text "move") ≡ true
          → IsClear v.from (replacing s (op_dest_path v.from t.to) w))
        → (operate_item s attempts fuel t v w).1.landed ≡ none
        → Holds s
            (op_dest_path v.from t.to)
            w
            (or_else
              (operate_item s attempts fuel t v w).1.item.parked_path
              (op_dest_path v.from t.to))
            (operate_item s attempts fuel t v w).0
    operate_item-Holds = operate_item-IsHeld
