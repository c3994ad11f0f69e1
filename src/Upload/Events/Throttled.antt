-- ===== src/Upload/Events/Throttled.antt =====
-- How often the progress of an upload is written, route/v2/tus_file.go.
use nimo_os.Base.{
  ℕ, ◌+◌, ◌≤◌, ◌<◌, ◌≡◌, refl, ap, ◌∙◌, Bool, true, false, some, List, [], ◌∷◌, arith, length,
  Bool-cases, inl, inr, if◌then◌else◌,
}
use nimo_os.Text.{Text, is_empty}
use nimo_os.Upload.Throttle.{
  lookup, TouchThrottle, allow, max_throttle_entries, allow_bound, allow-lookup,
}
use nimo_os.Upload.Events.{
  HookEvent, TusState, ingest_failed, ingested, on_created, write_offset, write_progress,
  on_progress, on_terminated, reconcile, on_complete,
}
use nimo_os.Upload.Events.Unsettled.{TusEvent, handle, handle_all}

-- Both throttles remember at most so many keys.
abbrev pub IsBounded : TusState → Type 0
IsBounded s =
    (length s.offset_throttle.last ≤ max_throttle_entries)
    × (length s.progress_throttle.last ≤ max_throttle_entries)

if-IsBounded :
    (b : Bool) (s s' : TusState) → IsBounded s → IsBounded s' → IsBounded (if b then s else s')
if-IsBounded true s s' h k = h
if-IsBounded false s s' h k = k

on_progress-IsBounded :
    (ev : HookEvent) (now : ℕ) (s : TusState) → IsBounded s → IsBounded (on_progress ev now s)
unfolding on_progress write_offset write_progress
on_progress-IsBounded ev now s h =
    let o = allow_bound s.offset_throttle ev.id now h.0 in
    let s' = write_offset ev now s in
    let h' : IsBounded s' =
      if-IsBounded (allow s.offset_throttle ev.id now).0 _ _ (o, h.1) (o, h.1) in
    let p = allow_bound s'.progress_throttle ev.metadata.batch_id now h'.1 in
    if-IsBounded (is_empty ev.metadata.batch_id) _ _ h'
      (if-IsBounded (allow s'.progress_throttle ev.metadata.batch_id now).0 _ _ (h'.0, p) (h'.0, p))

handle-IsBounded : (e : TusEvent) (s : TusState) → IsBounded s → IsBounded (handle e s)
unfolding handle on_created on_terminated on_complete reconcile
handle-IsBounded (TusEvent.created ev now) s h = h
handle-IsBounded (TusEvent.progressed ev now) s h = on_progress-IsBounded ev now s h
handle-IsBounded (TusEvent.terminated ev now) s h = h
handle-IsBounded (TusEvent.finished ev now (ingest_failed m)) s h = h
handle-IsBounded (TusEvent.finished ev now (ingested dest skipped)) s h =
    if-IsBounded (is_empty ev.metadata.batch_id) _ _ h h
handle-IsBounded (TusEvent.called c) s h = h

-- However many uploads and batches report their progress, and whatever comes in between, neither
-- throttle remembers more than 10000 keys, if neither does at the start.
pub handle_all-IsBounded :
    (es : List TusEvent) (s : TusState) → IsBounded s → IsBounded (handle_all es s)
unfolding handle_all
handle_all-IsBounded [] s h = h
handle_all-IsBounded (e ∷ es) s h = handle_all-IsBounded es (handle e s) (handle-IsBounded e s h)

refused :
    (t : TouchThrottle) (key : Text) (now later : ℕ)
    → lookup key t.last ≡ some now
    → later < now + t.interval
    → allow t key later ≡ (false, t)
unfolding allow
refused t key now later e l = rw e (ground arith)

-- Within the interval behind an event that was let through, the next one of the key is not.
allow-again :
    (t : TouchThrottle) (key : Text) (now later : ℕ)
    → (allow t key now).0 ≡ true
    → later < now + t.interval
    → allow (allow t key now).1 key later ≡ (false, (allow t key now).1)
allow-again t key now later h l =
    let k = allow-lookup t key now h in
    refused (allow t key now).1 key now later k.0 (omega (arith, l, k.1))

write_offset-refused :
    (ev : HookEvent) (now : ℕ) (s : TusState)
    → allow s.offset_throttle ev.id now ≡ (false, s.offset_throttle)
    → write_offset ev now s ≡ s
unfolding write_offset
write_offset-refused ev now s e = rw e refl

write_progress-refused :
    (ev : HookEvent) (now : ℕ) (s : TusState)
    → allow s.progress_throttle ev.metadata.batch_id now ≡ (false, s.progress_throttle)
    → write_progress ev now s ≡ s
unfolding write_progress
write_progress-refused ev now s e = elim (Bool-cases (is_empty ev.metadata.batch_id)) [
  | inl b ↦ rw b refl
  | inr b ↦ rw (b, e) refl
]

write_offset-throttles :
    (ev : HookEvent) (now : ℕ) (s : TusState)
    → ((write_offset ev now s).offset_throttle ≡ (allow s.offset_throttle ev.id now).1)
      × ((write_offset ev now s).progress_throttle ≡ s.progress_throttle)
unfolding write_offset
write_offset-throttles ev now s = elim (Bool-cases (allow s.offset_throttle ev.id now).0) [
  | inl b ↦ rw b (refl, refl)
  | inr b ↦ rw b (refl, refl)
]

write_progress-throttles :
    (ev : HookEvent) (now : ℕ) (s : TusState)
    → is_empty ev.metadata.batch_id ≡ false
    → ((write_progress ev now s).offset_throttle ≡ s.offset_throttle)
      × ((write_progress ev now s).progress_throttle
          ≡ (allow s.progress_throttle ev.metadata.batch_id now).1)
unfolding write_progress
write_progress-throttles ev now s n =
    elim (Bool-cases (allow s.progress_throttle ev.metadata.batch_id now).0) [
      | inl b ↦ rw (n, b) (refl, refl)
      | inr b ↦ rw (n, b) (refl, refl)
    ]

module _ (ev : HookEvent) (now later : ℕ) (s : TusState) where
  -- Behind a progress event of a batch that was written, the next one of the same upload within
  -- the interval of both throttles writes nothing and is not remembered.
  pub on_progress-again :
      is_empty ev.metadata.batch_id ≡ false
      → (allow s.offset_throttle ev.id now).0 ≡ true
      → (allow s.progress_throttle ev.metadata.batch_id now).0 ≡ true
      → later < now + s.offset_throttle.interval
      → later < now + s.progress_throttle.interval
      → (offset : ℕ)
      → on_progress (record ev { offset = offset }) later (on_progress ev now s)
        ≡ on_progress ev now s
  unfolding on_progress
  on_progress-again n o p l m offset =
      let u = write_offset ev now s in
      let v = write_progress ev now u in
      let a = write_offset-throttles ev now s in
      let b = write_progress-throttles ev now u n in
      let i =
        write_offset-refused (record ev { offset = offset }) later v
          (rw (b.0, a.0) (allow-again s.offset_throttle ev.id now later o l)) in
      let j =
        write_progress-refused (record ev { offset = offset }) later v
          (rw (b.1, a.1) (allow-again s.progress_throttle ev.metadata.batch_id now later p m)) in
      ap (write_progress (record ev { offset = offset }) later) i ∙ j
