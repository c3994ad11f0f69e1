-- ===== src/OpQueue/Polling.antt =====
-- The pass of service/notify.go over the queue: a finished task is taken out of FileQueue and out of
-- the queue. The notifications themselves are output.
use nimo_os.Base.{Bool, true, false, ◌&&◌, ◌||◌, List, [], ◌∷◌, Option, none, some, ltb, leb}
use nimo_os.Text.{Text}
use nimo_os.OpQueue.{FileOperate, OpQueue, op_finished, dequeue_op}
use nimo_os.Maps.{lookup, delete}

-- The second result of buildFileNotifyTask.
abbrev pub is_finished : FileOperate → Bool → Bool
is_finished t marked =
    t.finished || marked || (ltb 0 t.total_size && leb t.total_size t.processed_size)

abbrev pub is_loaded_finished : Option FileOperate → Bool → Bool
is_loaded_finished none marked = false
is_loaded_finished (some t) marked = is_finished t marked

unfoldable pub is_done : Text → OpQueue → Bool
unfolding op_finished
is_done id q = is_loaded_finished (lookup id q.file_queue) (op_finished id q)

unfoldable pub retire : Text → OpQueue → OpQueue
retire id q = dequeue_op id (record q { file_queue = delete id q.file_queue })

abbrev pub retire_if : Bool → Text → OpQueue → OpQueue
retire_if true id q = retire id q
retire_if false id q = q

-- The loop over the ids that PeekOps returned.
unfoldable pub poll_ids : List Text → OpQueue → OpQueue
poll_ids [] q = q
poll_ids (v ∷ vs) q = poll_ids vs (retire_if (is_done v q) v q)

unfoldable pub poll : OpQueue → OpQueue
poll q = poll_ids q.ids q
