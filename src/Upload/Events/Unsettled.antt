-- ===== src/Upload/Events/Unsettled.antt =====
-- The events of tusd and the calls of the batch store, in any order, and what no ingest settles.
use nimo_os.Base.{
  ℕ, ◌≡◌, refl, ◌∙◌, Bool, true, false, List, [], ◌∷◌, map, any, arith, if◌then◌else◌,
}
use nimo_os.Text.{Text, is_empty}
use nimo_os.Upload.Db.{
  statement, Outcome, Tables, UploadTask, UploadBatch, UploadBatchItem, BatchStatus, active,
  interrupted, completed, abandoned, is_status,
}
use nimo_os.Upload.Db.Rules.{Keeps, Keeps-statement}
use nimo_os.Upload.Statements.{touch}
use nimo_os.Upload.Tasks.{create, update_offset, set_status, set_failed}
use nimo_os.Upload.Throttle.{allow}
use nimo_os.Upload.Batches.{touch_progress}
use nimo_os.Upload.Batches.History.{Call, after}
use nimo_os.Upload.Events.{
  HookEvent, TusState, Ingested, ingest_failed, ingested, on_created, write_offset, write_progress,
  on_progress, on_terminated, on_complete,
}

-- An event of tusd with the time at which it is taken up, or a call of the batch store.
pub data TusEvent : Type 0 where
  created : HookEvent → ℕ → TusEvent
  progressed : HookEvent → ℕ → TusEvent
  terminated : HookEvent → ℕ → TusEvent
  finished : HookEvent → ℕ → Ingested → TusEvent
  called : Call → TusEvent

unfoldable pub handle : TusEvent → TusState → TusState
unfolding on_created on_progress on_terminated on_complete
handle (TusEvent.created ev now) s = on_created ev now s
handle (TusEvent.progressed ev now) s = on_progress ev now s
handle (TusEvent.terminated ev now) s = on_terminated ev now s
handle (TusEvent.finished ev now r) s = on_complete ev now r s
handle (TusEvent.called c) s = record s { db = after c s.db }

unfoldable pub handle_all : List TusEvent → TusState → TusState
unfolding handle
handle_all [] s = s
handle_all (e ∷ es) s = handle_all es (handle e s)

-- A call of the batch store, or an upload whose ingest succeeds.
abbrev pub is_settling : TusEvent → Bool
is_settling (TusEvent.finished ev now (ingested dest skipped)) = true
is_settling (TusEvent.called c) = true
is_settling e = false

-- What only the settling of an item, or a decision on a batch, may change of it.
pub record Standing : Type 0 where
  pub id : Text
  pub owner_user_id : Text
  pub target_path : Text
  pub total : ℕ
  pub done : ℕ
  pub completed : Bool
  pub abandoned : Bool

unfoldable pub standing : UploadBatch → Standing
standing b = record {
  id = b.id;
  owner_user_id = b.owner_user_id;
  target_path = b.target_path;
  total = b.total;
  done = b.done;
  completed = is_status b.status completed;
  abandoned = is_status b.status abandoned;
}

-- The items are these, and so the batches stand.
abbrev pub IsSame : List UploadBatchItem → List Standing → Tables → Type 0
IsSame items rows t = (t.items ≡ items) × (map standing t.batches ≡ rows)

touch-standing : (id : Text) (now : ℕ) (b : UploadBatch) → standing (touch id now b) ≡ standing b
unfolding standing touch
touch-standing id now b = by_status b.status refl
  where
    by_status : (s : BatchStatus) → b.status ≡ s → standing (touch id now b) ≡ standing b
    by_status active e = rw e (ground arith)
    by_status interrupted e = rw e (ground arith)
    by_status completed e = rw e (ground arith)
    by_status abandoned e = rw e (ground arith)

touched-standing :
    (id : Text) (now : ℕ) (bs : List UploadBatch)
    → map standing (map (touch id now) bs) ≡ map standing bs
touched-standing id now [] = refl
touched-standing id now (b ∷ bs) = rw (touch-standing id now b, touched-standing id now bs) refl

module _ (items : List UploadBatchItem) (rows : List Standing) where
  tasks-IsSame :
      (act : Tables → List UploadTask)
      → Keeps (IsSame items rows) (statement (λ t. (Outcome.ok tt, record t { tasks = act t })))
  tasks-IsSame act = Keeps-statement _ λ t h. h

  touch_progress-IsSame : (id : Text) (now : ℕ) → Keeps (IsSame items rows) (touch_progress id now)
  unfolding touch_progress
  touch_progress-IsSame id now =
      Keeps-statement _ λ t h. (h.0, touched-standing id now t.batches ∙ h.1)

  if-IsSame :
      (b : Bool) (s s' : TusState)
      → IsSame items rows s.db.tables
      → IsSame items rows s'.db.tables
      → IsSame items rows (if b then s else s').db.tables
  if-IsSame true s s' h k = h
  if-IsSame false s s' h k = k

  write_offset-IsSame :
      (ev : HookEvent) (now : ℕ) (s : TusState)
      → IsSame items rows s.db.tables
      → IsSame items rows (write_offset ev now s).db.tables
  unfolding write_offset update_offset
  write_offset-IsSame ev now s h =
      if-IsSame (allow s.offset_throttle ev.id now).0 _ _ ((tasks-IsSame _).at s.db h) h

  write_progress-IsSame :
      (ev : HookEvent) (now : ℕ) (s : TusState)
      → IsSame items rows s.db.tables
      → IsSame items rows (write_progress ev now s).db.tables
  unfolding write_progress
  write_progress-IsSame ev now s h = if-IsSame (is_empty ev.metadata.batch_id) _ _ h (
      if-IsSame (allow s.progress_throttle ev.metadata.batch_id now).0 _ _
        ((touch_progress-IsSame ev.metadata.batch_id now).at s.db h) h)

  handle-IsSame :
      (e : TusEvent) (s : TusState)
      → is_settling e ≡ false
      → IsSame items rows s.db.tables
      → IsSame items rows (handle e s).db.tables
  unfolding handle on_created on_progress on_terminated on_complete create set_status set_failed
  handle-IsSame (TusEvent.created ev now) s n h = (tasks-IsSame _).at s.db h
  handle-IsSame (TusEvent.progressed ev now) s n h =
      write_progress-IsSame ev now (write_offset ev now s) (write_offset-IsSame ev now s h)
  handle-IsSame (TusEvent.terminated ev now) s n h = (tasks-IsSame _).at s.db h
  handle-IsSame (TusEvent.finished ev now (ingest_failed m)) s n h = (tasks-IsSame _).at s.db h
  handle-IsSame (TusEvent.finished ev now (ingested dest skipped)) s n h = cc n
  handle-IsSame (TusEvent.called c) s n h = cc n

  handle_all-IsSame :
      (es : List TusEvent) (s : TusState)
      → any is_settling es ≡ false
      → IsSame items rows s.db.tables
      → IsSame items rows (handle_all es s).db.tables
  unfolding handle_all
  handle_all-IsSame [] s n h = h
  handle_all-IsSame (e ∷ es) s n h =
      handle_all-IsSame es (handle e s) (ground (arith, n))
        (handle-IsSame e s (ground (arith, n)) h)

-- Only an ingest that succeeds settles anything. Uploads that are created, progress, are terminated,
-- or are complete with an ingest that fails, however many of them, in any order and whichever SQL
-- statements fail, leave all items as they are. Of the batches they leave the target, the owner, the
-- counters and whether it is completed or abandoned. No call of the batch store comes in between.
pub handle_all-settles :
    (es : List TusEvent) (s : TusState)
    → any is_settling es ≡ false
    → ((handle_all es s).db.tables.items ≡ s.db.tables.items)
      × (map standing (handle_all es s).db.tables.batches ≡ map standing s.db.tables.batches)
handle_all-settles es s n = handle_all-IsSame _ _ es s n (refl, refl)
