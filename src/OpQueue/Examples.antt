-- ===== src/OpQueue/Examples.antt =====
-- The theorems of the queue in states that two tasks reach.
use nimo_os.Base.{◌≡◌, refl, true, false, [], ◌∷◌, some}
use nimo_os.Text.{text, eqb, elem}
use nimo_os.OpQueue.{
  FileOperate, OpQueue, empty_queue, file_operate_fingerprint, enqueue_op, begin_run, cancel_op,
  clear_queue, cancel_contexts, cancel_loaded, cancel_known, release_queue_slot_locked,
  release_fingerprint, op_finished, is_cancelled, task, mark_op_finished,
}
use nimo_os.Maps.{lookup, delete, put, remove}
use nimo_os.OpQueue.Steps.{Step, IsReachable}
use nimo_os.OpQueue.Fingerprints.{IsTrackedQueue}
use nimo_os.OpQueue.Duplicates.{reachable-IsTracked}
use nimo_os.OpQueue.Late.{begin_run-late}
use nimo_os.OpQueue.Between.{clear_queue-orphans}

abbrev move : FileOperate
move = record {
  op_type = text "move";
  item =
      record { from = text "/a"; finished = false; size = 1; processed_size = 0; parked_path = [] }
      ∷ [];
  total_size = 1;
  processed_size = 0;
  to = text "/b";
  style = [];
  finished = false;
  cancelled = false;
}

abbrev copy : FileOperate
copy = record move { op_type = text "copy" }

abbrev one : OpQueue
one = (enqueue_op (text "x") move empty_queue).0

abbrev two : OpQueue
two = (enqueue_op (text "y") copy one).0

abbrev cancelled_two : OpQueue
cancelled_two = cancel_op (text "y") two

one-IsReachable : IsReachable one
unfolding lookup
one-IsReachable =
    IsReachable.step empty_queue one IsReachable.start (
      Step.enqueue (text "x") move empty_queue
        (record { no_fingerprint = refl; no_context = refl }))

two-IsReachable : IsReachable two
unfolding enqueue_op put delete lookup elem eqb file_operate_fingerprint
two-IsReachable =
    IsReachable.step one two one-IsReachable
      (Step.enqueue (text "y") copy one (record { no_fingerprint = refl; no_context = refl }))

cancelled_two-IsReachable : IsReachable cancelled_two
cancelled_two-IsReachable =
    IsReachable.step two cancelled_two two-IsReachable (Step.cancel (text "y") two)

reachable-IsTracked_example : IsTrackedQueue two
reachable-IsTracked_example = reachable-IsTracked two two-IsReachable

begin_run-late_example : is_cancelled (task 1) cancelled_two ≡ true
unfolding enqueue_op put delete lookup elem eqb file_operate_fingerprint remove cancel_op
    cancel_loaded cancel_known op_finished release_queue_slot_locked release_fingerprint begin_run
begin_run-late_example =
    begin_run-late (text "y") 1 cancelled_two cancelled_two-IsReachable refl refl

abbrev finished_two : OpQueue
finished_two = mark_op_finished (text "x") two

clear_queue-orphans_example :
    let admitted = (enqueue_op (text "y") copy (cancel_contexts one)).0 in
    let started = begin_run (text "y") admitted in
    let cleared = clear_queue started.0 in
    (started.1 ≡ some (task one.next_ctx))
    × (elem (text "y") cleared.ids ≡ false)
    × (cancel_op (text "y") cleared ≡ cleared)
    × (is_cancelled (task one.next_ctx) cleared ≡ false)
unfolding enqueue_op elem eqb file_operate_fingerprint put delete
clear_queue-orphans_example = clear_queue-orphans (text "y") copy one refl refl refl
