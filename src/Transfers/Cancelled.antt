-- ===== src/Transfers/Cancelled.antt =====
-- When a run of FileOperate counts as cancelled.
use nimo_os.Base.{
  ℕ, suc, ◌<◌, ◌≤◌, ◌≡◌, refl, Bool, true, false, List, [], ◌∷◌, Option, none, some, arith, length,
  Bool-cases, inl, inr, if◌then◌else◌,
}
use nimo_os.Text.{Text, eqb, text}
use nimo_os.Files.{FileSystem, IsLawful}
use nimo_os.Files.Copying.{copy_dir_contents, copy_dir}
use nimo_os.OpQueue.{FileItem, FileOperate}
use nimo_os.Transfers.{
  Moved, renamed, copied, failed, Replaced, replaced, kept, move_item, op_dest_path,
  replace_conflict, resolve_rename_target,
}
use nimo_os.Transfers.Items.{
  ItemOutcome, Run, after_item, after_move, after_copy, after_replace, as_moved, move_aside,
  copy_aside, move_conflict, copy_conflict, move_step, copy_step, operate_item, operate_items,
  is_replacing, add_landed, with_outcome, next, finish,
}

landed_bound : (p : Option Text) (ps : List Text) → length (add_landed p ps) ≤ suc (length ps)
landed_bound none ps = omega arith
landed_bound (some p) ps = omega arith

module _ (s : FileSystem) (laws : IsLawful s) where
  open s use {World, ctx_err}

  -- The loop breaks only under a cancelled context, and for an item that did not land.
  record IsStop (r : World × ItemOutcome) : Type 0 where
    stops : r.1.stop ≡ true → (ctx_err r.0 ≡ true) × (r.1.landed ≡ none)

  if-IsStop :
      (b : Bool) (x y : World × ItemOutcome) → IsStop x → IsStop y → IsStop (if b then x else y)
  if-IsStop true x y h k = h
  if-IsStop false x y h k = k

  next-IsStop : (w : World) (v : FileItem) → IsStop (w, next v)
  next-IsStop w v = record { stops = λ e. cc e }

  after_move-IsStop :
      (dst : Text) (v : FileItem) (r : World × Moved) → IsStop (after_move s dst v r)
  unfolding after_move
  after_move-IsStop dst v (w, renamed) = record { stops = λ e. cc e }
  after_move-IsStop dst v (w, copied) = record { stops = λ e. cc e }
  after_move-IsStop dst v (w, failed) = record { stops = λ e. (e, refl) }

  after_replace-IsStop :
      (dst : Text) (v : FileItem) (r : World × Replaced) → IsStop (after_replace s dst v r)
  unfolding after_replace
  after_replace-IsStop dst v (w, replaced true) = record { stops = λ e. cc e }
  after_replace-IsStop dst v (w, replaced false) = record { stops = λ e. cc e }
  after_replace-IsStop dst v (w, kept p) = record { stops = λ e. (e, refl) }

  after_copy-IsStop : (dst : Text) (v : FileItem) (r : World × Bool) → IsStop (after_copy s dst v r)
  unfolding after_copy
  after_copy-IsStop dst v (w, false) = record { stops = λ e. cc e }
  after_copy-IsStop dst v (w, true) = record { stops = λ e. rw e (laws.cancel_stays dst w e, refl) }

  module _ (attempts fuel : ℕ) (t : FileOperate) where
    move_aside-IsStop :
        (v : FileItem) (r : World × Option Text) → IsStop (move_aside s attempts fuel t v r)
    unfolding move_aside
    move_aside-IsStop v (w, none) = next-IsStop w v
    move_aside-IsStop v (w, some p) = after_move-IsStop p v (move_item s fuel v.from p t.style w)

    copy_aside-IsStop :
        (v : FileItem) (r : World × Option Text) → IsStop (copy_aside s attempts fuel t v r)
    unfolding copy_aside
    copy_aside-IsStop v (w, none) = next-IsStop w v
    copy_aside-IsStop v (w, some p) =
        after_copy-IsStop p v (copy_dir_contents s fuel v.from p t.style w)

    operate_item-IsStop : (v : FileItem) (w : World) → IsStop (operate_item s attempts fuel t v w)
    unfolding operate_item move_step copy_step move_conflict copy_conflict
    operate_item-IsStop v w =
        if-IsStop (eqb t.op_type (text "move")) (move_step s attempts fuel t v w) _ moves (
          if-IsStop (eqb t.op_type (text "copy")) (copy_step s attempts fuel t v w) (w, next v)
            copies (next-IsStop w v))
      where
        dst : Text
        dst = op_dest_path v.from t.to

        moves : IsStop (move_step s attempts fuel t v w)
        moves =
            if-IsStop (s.not_exist dst w)
              (after_move s dst v (move_item s fuel v.from dst t.style w))
              (move_conflict s attempts fuel t v dst w)
              (after_move-IsStop dst v (move_item s fuel v.from dst t.style w))
              (if-IsStop (eqb t.style (text "skip")) (w, finish v) _
                (next-IsStop w (record v { finished = true }))
                (if-IsStop (is_replacing t.style)
                  (after_replace s dst v
                    (replace_conflict s dst (move_item s fuel v.from dst t.style) w))
                  _
                  (after_replace-IsStop dst v
                    (replace_conflict s dst (move_item s fuel v.from dst t.style) w))
                  (if-IsStop (eqb t.style (text "rename"))
                    (move_aside s attempts fuel t v (resolve_rename_target s attempts fuel dst w))
                    (w, finish v)
                    (move_aside-IsStop v (resolve_rename_target s attempts fuel dst w))
                    (next-IsStop w (record v { finished = true })))))

        copies : IsStop (copy_step s attempts fuel t v w)
        copies =
            if-IsStop (s.not_exist dst w)
              (after_copy s dst v (copy_dir s fuel v.from t.to t.style w))
              (copy_conflict s attempts fuel t v dst w)
              (after_copy-IsStop dst v (copy_dir s fuel v.from t.to t.style w))
              (if-IsStop (eqb t.style (text "skip")) (w, next v) _ (next-IsStop w v)
                (if-IsStop (is_replacing t.style)
                  (after_replace s dst v (
                    replace_conflict s dst (λ u. as_moved s (copy_dir s fuel v.from t.to t.style u))
                      w))
                  _
                  (after_replace-IsStop dst v (
                    replace_conflict s dst (λ u. as_moved s (copy_dir s fuel v.from t.to t.style u))
                      w))
                  (if-IsStop (eqb t.style (text "rename"))
                    (copy_aside s attempts fuel t v (resolve_rename_target s attempts fuel dst w))
                    (w, next v) (copy_aside-IsStop v (resolve_rename_target s attempts fuel dst w))
                    (next-IsStop w v))))

    -- Where a run counts as cancelled, its context is cancelled and fewer items landed than it had;
    -- never more items land than there are.
    abbrev pub IsCancelled : List FileItem → World × Run → Type 0
    IsCancelled vs r =
        (length r.1.created ≤ length vs)
        × (r.1.cancelled ≡ true → (ctx_err r.0 ≡ true) × (length r.1.created < length vs))

    after_item-IsCancelled :
        (is_move : Bool) (v : FileItem) (vs : List FileItem) (r : World × ItemOutcome)
        (rest : World → World × Run)
        → IsStop r
        → IsCancelled vs (rest r.0)
        → IsCancelled (v ∷ vs) (after_item s is_move v vs r rest)
    unfolding after_item with_outcome
    after_item-IsCancelled is_move v vs (u, o) rest h k = elim (Bool-cases o.stop) [
      | inl e ↦ rw (e, (h.stops e).1) (omega arith, λ c. ((h.stops e).0, omega arith))
      | inr e ↦ rw e (
        omega (arith, landed_bound o.landed (rest u).1.created, k.0),
        λ c. ((k.1 c).0, omega (arith, landed_bound o.landed (rest u).1.created, (k.1 c).1)),
      )
    ]

    -- A run that counts as cancelled has a cancelled context, and left an item undone: fewer paths
    -- were created than there are items. So a run in which every item landed counts as finished,
    -- however late its context is cancelled.
    pub operate_items-IsCancelled :
        (vs : List FileItem) (w : World) → IsCancelled vs (operate_items s attempts fuel t vs w)
    unfolding operate_items
    operate_items-IsCancelled [] w = (omega arith, λ c. cc c)
    operate_items-IsCancelled (v ∷ vs) w = elim (Bool-cases (ctx_err w)) [
      | inl e ↦ rw e (omega arith, λ c. (e, omega arith))
      | inr e ↦ rw e (
          after_item-IsCancelled (eqb t.op_type (text "move")) v vs
            (operate_item s attempts fuel t v w) (operate_items s attempts fuel t vs)
            (operate_item-IsStop v w) (operate_items-IsCancelled vs _))
    ]
