-- ===== src/OpQueue.antt =====
-- service/file.go: the queue of file operations (move, copy) with its duplicate check and its
-- cancellation. A whole call is one step on the state. `FileQueue` is a sync.Map
-- beside it.
--
-- A context is a number; `cancelled` holds the numbers whose
-- cancel function was called, since a goroutine keeps its context after the maps have dropped it.
pub mod Steps
pub mod Fingerprints
pub mod Duplicates
pub mod Cancelling
pub mod Guarded
pub mod Late
pub mod Between
pub mod Polling
pub mod Examples
use nimo_os.Base.{
  ℕ, suc, ◌+◌, Bool, true, false, not, ◌&&◌, ◌||◌, List, [], ◌∷◌, ◌++◌, map, Option, none, some,
  any, select, first, length, leb, ltb, ◌==◌, if◌then◌else◌,
}
use nimo_os.Text.{Text, eqb, is_empty, elem, join, text}
use nimo_os.Maps.{Map, lookup, delete, put, remove}

-- model/file.go
pub record FileItem : Type 0 where
  pub from : Text
  pub finished : Bool
  pub size : ℕ
  pub processed_size : ℕ
  pub parked_path : Text

pub record FileOperate : Type 0 where
  pub op_type : Text
  pub item : List FileItem
  pub total_size : ℕ
  pub processed_size : ℕ
  pub to : Text
  pub style : Text
  pub finished : Bool
  pub cancelled : Bool

pub record OpQueue : Type 0 where
  pub ids : List Text
  pub fingerprint_of : Map Text
  pub active_fingerprints : List Text
  pub ctx_of : Map ℕ
  pub cancel_of : Map ℕ
  pub running : Text
  pub finished : List Text
  pub cancelled : List ℕ
  pub next_ctx : ℕ
  pub file_queue : Map FileOperate

abbrev pub empty_queue : OpQueue
empty_queue = record {
  ids = [];
  fingerprint_of = [];
  active_fingerprints = [];
  ctx_of = [];
  cancel_of = [];
  running = [];
  finished = [];
  cancelled = [];
  next_ctx = 0;
  file_queue = [];
}

abbrev is_known {ℓ} : {V : Type ℓ} → Option V → Bool
is_known none = false
is_known (some v) = true

unfoldable pub mark_op_finished : Text → OpQueue → OpQueue
unfolding lookup
mark_op_finished id q =
    if is_known (lookup id q.file_queue)
    then record q { finished = id ∷ remove id q.finished }
    else q

unfoldable pub op_finished : Text → OpQueue → Bool
op_finished id q = elem id q.finished

-- The order of bytes, as sort.Strings has it.
unfoldable pub text_le : Text → Text → Bool
text_le [] t = true
text_le (c ∷ s) [] = false
text_le (c ∷ s) (d ∷ t) = ltb c d || (c == d && text_le s t)

unfoldable pub insert_text : Text → List Text → List Text
insert_text s [] = s ∷ []
insert_text s (t ∷ ts) = if text_le s t then s ∷ t ∷ ts else t ∷ insert_text s ts

unfoldable pub sort_texts : List Text → List Text
sort_texts [] = []
sort_texts (s ∷ ss) = insert_text s (sort_texts ss)

abbrev nul : ℕ
nul = 0

unfoldable pub file_operate_fingerprint : FileOperate → Text
file_operate_fingerprint t =
    t.op_type ++ (nul ∷ (t.to ++ (nul ∷ join nul (sort_texts (map (λ i. i.from) t.item)))))

-- The new queue, isFirst and duplicate.
unfoldable pub enqueue_op : Text → FileOperate → OpQueue → OpQueue × Bool × Bool
enqueue_op id t q =
    let fp = file_operate_fingerprint t in
    if elem fp q.active_fingerprints then (q, false, true) else (
      record q {
        file_queue = put id t q.file_queue;
        ids = q.ids ++ id ∷ [];
        fingerprint_of = put id fp q.fingerprint_of;
        active_fingerprints = fp ∷ q.active_fingerprints;
        ctx_of = put id q.next_ctx q.ctx_of;
        cancel_of = put id q.next_ctx q.cancel_of;
        next_ctx = suc q.next_ctx;
      },
      length (q.ids ++ id ∷ []) == 1,
      false,
    )

unfoldable pub release_fingerprint : Text → Option Text → OpQueue → OpQueue
release_fingerprint id none q = q
release_fingerprint id (some fp) q = record q {
  fingerprint_of = delete id q.fingerprint_of;
  active_fingerprints = remove fp q.active_fingerprints;
}

unfoldable pub release_queue_slot_locked : Text → OpQueue → OpQueue
unfolding release_fingerprint
release_queue_slot_locked id q =
    let q' =
      release_fingerprint id (lookup id q.fingerprint_of) (record q { ids = remove id q.ids }) in
    record q' { finished = remove id q'.finished }

unfoldable pub dequeue_op : Text → OpQueue → OpQueue
unfolding release_fingerprint
dequeue_op id q =
    let q' =
      release_fingerprint id (lookup id q.fingerprint_of) (record q { ids = remove id q.ids }) in
    record q' {
      ctx_of = delete id q'.ctx_of;
      cancel_of = delete id q'.cancel_of;
      finished = remove id q'.finished;
      running = if eqb q'.running id then [] else q'.running;
    }

pub peek_ops : OpQueue → List Text
peek_ops q = q.ids

unfoldable pub clear_ops : OpQueue → OpQueue
clear_ops q = record q {
  ids = [];
  fingerprint_of = [];
  active_fingerprints = [];
  finished = [];
  running = [];
}

-- The context that a run works under: one of the queue's, or context.Background().
pub data Context : Type 0 where
  background : Context
  task : ℕ → Context

abbrev context_of : Option ℕ → Context
context_of none = background
context_of (some c) = task c

-- ctx.Err() != nil
abbrev pub is_cancelled : Context → OpQueue → Bool
is_cancelled background q = false
is_cancelled (task c) q = any (λ d. d == c) q.cancelled

-- `none` if the task is already running.
unfoldable pub begin_run : Text → OpQueue → OpQueue × Option Context
begin_run id q =
    if eqb q.running id
    then (q, none)
    else (record q { running = id }, some (context_of (lookup id q.ctx_of)))

unfoldable pub end_run : Text → OpQueue → OpQueue
end_run id q = if eqb q.running id then record q { running = [] } else q

-- The part of CancelOp under the lock, the cancel call and the removal behind it.
unfoldable pub cancel_known : Text → Option ℕ → OpQueue → OpQueue
cancel_known id none q = q
cancel_known id (some c) q =
    if eqb q.running id
    then record q { cancelled = c ∷ q.cancelled }
    else let q' = release_queue_slot_locked id q in
      record q' { cancelled = c ∷ q'.cancelled; file_queue = delete id q'.file_queue }

unfoldable pub cancel_loaded : Text → Option FileOperate → OpQueue → OpQueue
cancel_loaded id none q = q
cancel_loaded id (some t) q =
    if t.finished
    then q
    else if op_finished id q
    then q
    else cancel_known id (lookup id q.cancel_of) q

unfoldable pub cancel_op : Text → OpQueue → OpQueue
unfolding cancel_loaded cancel_known release_queue_slot_locked op_finished
cancel_op id q = cancel_loaded id (lookup id q.file_queue) q

-- The numbers of the contexts that have a cancel function.
abbrev pub contexts : Map ℕ → List ℕ
contexts [] = []
contexts ((id, c) ∷ m) = c ∷ contexts m

-- The first critical section of CancelAllOps, and what comes behind it.
abbrev pub cancel_contexts : OpQueue → OpQueue
cancel_contexts q = record q { cancelled = contexts q.cancel_of ++ q.cancelled }

unfoldable pub clear_queue : OpQueue → OpQueue
unfolding clear_ops
clear_queue q = clear_ops (record q { file_queue = [] })

unfoldable pub cancel_all_ops : OpQueue → OpQueue
unfolding clear_queue
cancel_all_ops q = clear_queue (cancel_contexts q)

-- The task that ExecOpFile starts a goroutine for.
abbrev pub head? : List Text → Option Text
head? [] = none
head? (id ∷ ids) = some id

unfoldable pub exec_op_file : OpQueue → Option Text
exec_op_file q = head? q.ids

-- storeFileProgress loads the task, asks whether it finished and stores the snapshot, with other calls
-- in between: `loaded`, `asked` and `q` are the states at these three moments.
unfoldable pub store_progress :
    Text → FileOperate → Option FileOperate → OpQueue → OpQueue → OpQueue
store_progress id progress none asked q = q
store_progress id progress (some current) asked q =
    if current.finished || current.cancelled || op_finished id asked
    then q
    else record q { file_queue = put id progress q.file_queue }

unfoldable pub store_file_progress : Text → FileOperate → OpQueue → OpQueue → OpQueue → OpQueue
unfolding store_progress
store_file_progress id progress loaded asked q =
    store_progress id progress (lookup id loaded.file_queue) asked q
