-- ===== src/Transfers/Items.antt =====
-- The items of a move or a copy: the loop of FileOperate of service/file.go, with what it does where
-- the destination exists.
use nimo_os.Base.{ℕ, Bool, true, false, ◌||◌, List, [], ◌∷◌, Option, none, some, if◌then◌else◌}
use nimo_os.Text.{Text, eqb, is_empty, text}
use nimo_os.Files.{FileSystem}
use nimo_os.Files.Copying.{copy_dir_contents, copy_dir}
use nimo_os.OpQueue.{FileItem, FileOperate}
use nimo_os.Transfers.{
  Moved, renamed, copied, failed, Replaced, replaced, kept, op_dest_path, move_item,
  replace_conflict, resolve_rename_target,
}

-- What the loop does behind an item: `item` is temp.Item[i] as it is left, `landed` the path that
-- is appended to createdPaths, `stop` the break with cancelled = true.
pub record ItemOutcome : Type 0 where
  pub item : FileItem
  pub landed : Option Text
  pub stop : Bool

abbrev pub next : FileItem → ItemOutcome
next v = record { item = v; landed = none; stop = false }

abbrev pub finish : FileItem → ItemOutcome
finish v = next (record v { finished = true })

abbrev pub stop_if : Bool → FileItem → ItemOutcome
stop_if cancelled v = record { item = v; landed = none; stop = cancelled }

-- After a move or a copy that succeeded: a rename marks the item.
abbrev pub land : Moved → Text → FileItem → ItemOutcome
land renamed dst v = record {
  item = record v { finished = true; processed_size = v.size };
  landed = some dst;
  stop = false;
}
land copied dst v = record { item = v; landed = some dst; stop = false }
land failed dst v = next v

abbrev pub park : Text → FileItem → FileItem
park p v = if is_empty p then v else record v { parked_path = p }

abbrev pub is_replacing : Text → Bool
is_replacing style = eqb style (text "replace") || eqb style (text "overwrite")

module _ (s : FileSystem) where
  open s use {World, ctx_err, remove_all, not_exist}

  unfoldable pub after_move : Text → FileItem → World × Moved → World × ItemOutcome
  after_move dst v (w, renamed) = (w, land renamed dst v)
  after_move dst v (w, copied) = (w, land copied dst v)
  after_move dst v (w, failed) = (w, stop_if (ctx_err w) v)

  unfoldable pub after_copy : Text → FileItem → World × Bool → World × ItemOutcome
  after_copy dst v (w, false) = (w, land copied dst v)
  after_copy dst v (w, true) =
      (if ctx_err w then (remove_all dst w).0 else w, stop_if (ctx_err w) v)

  unfoldable pub after_replace : Text → FileItem → World × Replaced → World × ItemOutcome
  after_replace dst v (w, replaced true) = (w, land renamed dst v)
  after_replace dst v (w, replaced false) = (w, land copied dst v)
  after_replace dst v (w, kept p) = (w, stop_if (ctx_err w) (park p v))

  -- The copy as the operation of replaceConflict.
  unfoldable pub as_moved : World × Bool → World × Moved
  as_moved (w, true) = (w, failed)
  as_moved (w, false) = (w, copied)

  -- The attempts, the fuel, and the task with its type, its destination and its style.
  module _ (attempts fuel : ℕ) (t : FileOperate) where
    unfoldable pub move_aside : FileItem → World × Option Text → World × ItemOutcome
    unfolding after_move move_item
    move_aside v (w, none) = (w, next v)
    move_aside v (w, some dst) = after_move dst v (move_item s fuel v.from dst t.style w)

    unfoldable pub move_conflict : FileItem → Text → World → World × ItemOutcome
    unfolding after_replace replace_conflict move_item move_aside resolve_rename_target
    move_conflict v dst w =
        if eqb t.style (text "skip")
        then (w, finish v)
        else if is_replacing t.style
        then after_replace dst v (replace_conflict s dst (move_item s fuel v.from dst t.style) w)
        else if eqb t.style (text "rename")
        then move_aside v (resolve_rename_target s attempts fuel dst w)
        else (w, finish v)

    unfoldable pub move_step : FileItem → World → World × ItemOutcome
    unfolding move_conflict after_move move_item op_dest_path
    move_step v w =
        let dst = op_dest_path v.from t.to in
        if not_exist dst w
        then after_move dst v (move_item s fuel v.from dst t.style w)
        else move_conflict v dst w

    unfoldable pub copy_aside : FileItem → World × Option Text → World × ItemOutcome
    unfolding after_copy copy_dir_contents
    copy_aside v (w, none) = (w, next v)
    copy_aside v (w, some dst) = after_copy dst v (copy_dir_contents s fuel v.from dst t.style w)

    unfoldable pub copy_conflict : FileItem → Text → World → World × ItemOutcome
    unfolding after_replace replace_conflict as_moved copy_dir copy_aside resolve_rename_target
    copy_conflict v dst w =
        if eqb t.style (text "skip")
        then (w, next v)
        else if is_replacing t.style
        then after_replace dst v
            (replace_conflict s dst (λ w'. as_moved (copy_dir s fuel v.from t.to t.style w')) w)
        else if eqb t.style (text "rename")
        then copy_aside v (resolve_rename_target s attempts fuel dst w)
        else (w, next v)

    unfoldable pub copy_step : FileItem → World → World × ItemOutcome
    unfolding copy_conflict after_copy copy_dir op_dest_path
    copy_step v w =
        let dst = op_dest_path v.from t.to in
        if not_exist dst w
        then after_copy dst v (copy_dir s fuel v.from t.to t.style w)
        else copy_conflict v dst w

    unfoldable pub operate_item : FileItem → World → World × ItemOutcome
    unfolding move_step copy_step
    operate_item v w =
        if eqb t.op_type (text "move")
        then move_step v w
        else if eqb t.op_type (text "copy")
        then copy_step v w
        else (w, next v)

-- What the loop of FileOperate leaves: the items, createdPaths, movedPairs and cancelled.
pub record Run : Type 0 where
  pub items : List FileItem
  pub created : List Text
  pub moved : List (Text × Text)
  pub cancelled : Bool

abbrev pub stopped_at : List FileItem → Run
stopped_at vs = record { items = vs; created = []; moved = []; cancelled = true }

abbrev pub add_landed : Option Text → List Text → List Text
add_landed none ps = ps
add_landed (some p) ps = p ∷ ps

abbrev pub add_moved : Bool → Text → Option Text → List (Text × Text) → List (Text × Text)
add_moved true from (some p) ps = (from, p) ∷ ps
add_moved true from none ps = ps
add_moved false from o ps = ps

unfoldable pub with_outcome : Bool → Text → ItemOutcome → Run → Run
with_outcome is_move from o run = record {
  items = o.item ∷ run.items;
  created = add_landed o.landed run.created;
  moved = add_moved is_move from o.landed run.moved;
  cancelled = run.cancelled;
}

module _ (s : FileSystem) where
  open s use {World, ctx_err}

  -- `rest` is the loop over the items behind this one.
  unfoldable pub after_item :
      Bool → FileItem → List FileItem → World × ItemOutcome → (World → World × Run) → World × Run
  unfolding with_outcome
  after_item is_move v vs (w, o) rest =
      let r = rest w in
      if o.stop
      then (w, with_outcome is_move v.from o (stopped_at vs))
      else (r.0, with_outcome is_move v.from o r.1)

  unfoldable pub operate_items : ℕ → ℕ → FileOperate → List FileItem → World → World × Run
  unfolding after_item operate_item
  operate_items attempts fuel t [] w =
      (w, record { items = []; created = []; moved = []; cancelled = false })
  operate_items attempts fuel t (v ∷ vs) w =
      let r =
        after_item (eqb t.op_type (text "move")) v vs (operate_item s attempts fuel t v w)
          (operate_items attempts fuel t vs) in
      if ctx_err w then (w, stopped_at (v ∷ vs)) else r
