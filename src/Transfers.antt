-- ===== src/Transfers.antt =====
-- service/file.go: the run of a queued move or copy, FileOperate, and what it is made of.
--
-- The calls to the operating system and the context are those of Files.FileSystem. Here are moveItem,
-- replaceConflict and resolveRenameTarget. FileOperate itself is in three parts, between which the
-- queue may change: `start_operate` with its guards and beginRun and `finish_operate` behind the
-- loop (Transfers.Tasks), and `operate_items` with its loop (Transfers.Items). The path locks that
-- it holds meanwhile are those of PathLock.
pub mod Items
pub mod Tasks
pub mod Moving
pub mod Replacing
pub mod Kept
pub mod Targets
pub mod Keeping
pub mod Cancelled
pub mod Finishing
pub mod Examples
use nimo_os.Base.{
  ℕ, zero, suc, Bool, true, false, List, [], ◌∷◌, ◌++◌, Option, none, some, ◌==◌, if◌then◌else◌,
}
use nimo_os.Text.{Text, text}
use nimo_os.FilePath.{base, join_path}
use nimo_os.Files.{FileSystem, RenameError, cross_device, other}
use nimo_os.Files.Copying.{copy_dir_contents}
use nimo_os.Files.Naming.{get_no_duplicate_file_name}

unfoldable pub op_dest_path : Text → Text → Text
op_dest_path from to = join_path to (base from)

-- The results of moveItem, (usedRename, nil), (false, nil) and (false, err), and of a copy, which
-- is one of the last two.
pub data Moved : Type 0 where
  renamed : Moved
  copied : Moved
  failed : Moved

-- The results of replaceConflict: a nil error, with the usedRename that the operation has set, or an
-- error with the parked path.
pub data Replaced : Type 0 where
  replaced : Bool → Replaced
  kept : Text → Replaced

module _ (s : FileSystem) where
  open s use {World, ctx_err, size_of, rename, remove_all, not_exist}

  -- Behind the copy of a move across filesystems: the sizes of the source and of the destination.
  unfoldable pub compare_sizes : Text → Text → Option ℕ → Option ℕ → World → World × Moved
  compare_sizes from dst none d w = ((remove_all dst w).0, failed)
  compare_sizes from dst (some n) none w = ((remove_all dst w).0, failed)
  compare_sizes from dst (some n) (some m) w =
      if m == n then ((remove_all from w).0, copied) else ((remove_all dst w).0, failed)

  unfoldable pub copied_over : Text → Text → World × Bool → World × Moved
  unfolding compare_sizes
  copied_over from dst (w, true) = (if ctx_err w then (remove_all dst w).0 else w, failed)
  copied_over from dst (w, false) = compare_sizes from dst (size_of from w) (size_of dst w) w

  unfoldable pub after_rename : ℕ → Text → Text → Text → World × Option RenameError → World × Moved
  unfolding copied_over
  after_rename fuel from dst style (w, none) = (w, renamed)
  after_rename fuel from dst style (w, some other) = (w, failed)
  after_rename fuel from dst style (w, some cross_device) =
      copied_over from dst (copy_dir_contents s fuel from dst style w)

  unfoldable pub move_item : ℕ → Text → Text → Text → World → World × Moved
  unfolding after_rename
  move_item fuel from dst style w =
      after_rename fuel from dst style (rename from dst (s.purge_thumb from w))

  unfoldable pub put_back : Text → World × Option RenameError → World × Replaced
  put_back tmp (w, none) = (w, kept [])
  put_back tmp (w, some e) = (w, kept tmp)

  unfoldable pub after_op : Text → Text → World × Moved → World × Replaced
  unfolding put_back
  after_op dst tmp (w, failed) = put_back tmp (rename tmp dst (remove_all dst w).0)
  after_op dst tmp (w, renamed) = ((remove_all tmp w).0, replaced true)
  after_op dst tmp (w, copied) = ((remove_all tmp w).0, replaced false)

  unfoldable pub staged_aside :
      Text → Text → (World → World × Moved) → World × Option RenameError → World × Replaced
  unfolding after_op
  staged_aside dst tmp do_op (w, some e) = (w, kept [])
  staged_aside dst tmp do_op (w, none) = after_op dst tmp (do_op w)

  abbrev pub replacing : Text → World → Text
  replacing dst w = dst ++ (text ".nimoos-replacing-" ++ s.fresh w)

  unfoldable pub replace_conflict : Text → (World → World × Moved) → World → World × Replaced
  unfolding staged_aside
  replace_conflict dst do_op w =
      staged_aside dst (replacing dst w) do_op (rename dst (replacing dst w) w)

  -- One attempt for a free name: `none` where another process has taken it meanwhile.
  abbrev pub claim : Option Text → World → World × Option Text
  claim none w = (w, none)
  claim (some p) w = let w' = s.interfere p w in (w', if not_exist p w' then some p else none)

  abbrev pub or_again : World × Option Text → (World → World × Option Text) → World × Option Text
  or_again (w, some p) again = (w, some p)
  or_again (w, none) again = again w

  -- The attempts that are left, maxRenameCandidateAttempts at first.
  unfoldable pub resolve_rename_target : ℕ → ℕ → Text → World → World × Option Text
  resolve_rename_target zero fuel dst w = (w, none)
  resolve_rename_target (suc n) fuel dst w =
      or_again (claim (get_no_duplicate_file_name s fuel dst w) w)
        (resolve_rename_target n fuel dst)
