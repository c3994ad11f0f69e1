-- ===== src/Transfers/Tasks.antt =====
-- A run of FileOperate of service/file.go against the queue: its guards, and what it does behind the
-- loop over the items.
use nimo_os.Base.{true, ◌||◌, List, [], ◌∷◌, ◌++◌, Option, none, some, ltb, if◌then◌else◌}
use nimo_os.Text.{Text}
use nimo_os.OpQueue.{
  FileOperate, OpQueue, Context, op_finished, mark_op_finished, begin_run, end_run, dequeue_op,
}
use nimo_os.Maps.{lookup, delete, put}
use nimo_os.Transfers.Items.{Run}

-- What FileOperate tells others: the notification of a cancelled task, `go ExecOpFile()`,
-- `go PublishMediaCreated`, and RewriteSharePathPrefix of a moved item.
pub data Event : Type 0 where
  notify : Text → FileOperate → Event
  exec_next : Event
  publish_created : List Text → Event
  rewrite_shares : Text → Text → Event

abbrev pub publish : List Text → List Event
publish [] = []
publish (p ∷ ps) = publish_created (p ∷ ps) ∷ []

abbrev pub rewrite : List (Text × Text) → List Event
rewrite [] = []
rewrite ((from, to) ∷ ps) = rewrite_shares from to ∷ rewrite ps

-- The events, each with the state of the queue in which it is told.
abbrev pub told_in : OpQueue → List Event → List (Event × OpQueue)
told_in q [] = []
told_in q (e ∷ es) = (e, q) ∷ told_in q es

abbrev pub is_known : Option Context → FileOperate → Option (FileOperate × Context)
is_known none t = none
is_known (some c) t = some (t, c)

abbrev pub start_known :
    Text → Option FileOperate → OpQueue → OpQueue × Option (FileOperate × Context)
start_known k none q = (q, none)
start_known k (some t) q =
    if t.finished || ltb 0 t.processed_size || op_finished k q
    then (q, none)
    else let (q', c) = begin_run k q in (q', is_known c t)

-- The guards of FileOperate and beginRun: `none` if it returns at once.
unfoldable pub start_operate : Text → OpQueue → OpQueue × Option (FileOperate × Context)
start_operate k q = start_known k (lookup k q.file_queue) q

abbrev pub outcome_of : FileOperate → Run → FileOperate
outcome_of t run = record t {
  item = run.items;
  finished = true;
  cancelled = if run.cancelled then true else t.cancelled;
}

-- Behind the loop, with the deferred endRun at the end. Next to the state that it leaves, what it tells,
-- one event after the other, each with the state at this moment.
unfoldable pub finish_operate :
    Text → FileOperate → Run → OpQueue → OpQueue × List (Event × OpQueue)
finish_operate k t run q =
    let t' = outcome_of t run in
    let q1 = mark_op_finished k (record q { file_queue = put k t' q.file_queue }) in
    let q2 = dequeue_op k (record q1 { file_queue = delete k q1.file_queue }) in
    let told = publish run.created ++ rewrite run.moved in
    if run.cancelled
    then (end_run k q2, (notify k t', q1) ∷ ((exec_next, q2) ∷ told_in q2 told))
    else (end_run k q1, told_in q1 told)
