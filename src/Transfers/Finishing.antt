-- ===== src/Transfers/Finishing.antt =====
-- The end of a cancelled run of FileOperate: what it tells, in which states, and what it leaves.
use nimo_os.Base.{◌≡◌, false, not, List, ◌∷◌, none, some, first}
use nimo_os.Text.{Text, eqb, elem}
use nimo_os.OpQueue.{FileOperate, OpQueue, mark_op_finished, exec_op_file}
use nimo_os.Maps.{lookup, delete, put, remove}
use nimo_os.Transfers.Items.{Run}
use nimo_os.Transfers.Tasks.{Event, notify, exec_next, outcome_of, finish_operate}

module _ (k : Text) (t : FileOperate) (run : Run) (q : OpQueue) where
  -- The queue behind markOpFinished, and behind the removal of a cancelled task.
  marked : OpQueue
  marked = mark_op_finished k (record q { file_queue = put k (outcome_of t run) q.file_queue })

  cleared : OpQueue
  cleared = record marked { file_queue = delete k marked.file_queue }

-- What a cancelled run tells first, and what it leaves. `before` is the state in which the
-- notification is sent, `after` the one in which ExecOpFile is started.
pub record IsRetired (k : Text) (t : FileOperate) (run : Run) (q : OpQueue) : Type 0 where
  pub before : OpQueue
  pub after : OpQueue
  pub told :
      (rest : List (Event × OpQueue)) × ((finish_operate k t run q).1
        ≡ (notify k (outcome_of t run), before) ∷ ((exec_next, after) ∷ rest))
  pub stored_before : lookup k before.file_queue ≡ some (outcome_of t run)
  pub queued_before : before.ids ≡ q.ids
  pub stored_after : lookup k after.file_queue ≡ none
  pub queued_after : elem k after.ids ≡ false
  pub next_after : exec_op_file after ≡ first (λ i. not (eqb i k)) q.ids
  pub stored : lookup k (finish_operate k t run q).0.file_queue ≡ none
  pub queued : (finish_operate k t run q).0.ids ≡ remove k q.ids
  pub context : lookup k (finish_operate k t run q).0.ctx_of ≡ none
