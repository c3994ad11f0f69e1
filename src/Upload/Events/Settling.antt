-- ===== src/Upload/Events/Settling.antt =====
-- The last goroutine of NewFileTUSHandler as a whole, route/v2/tus_file.go: a completed upload is
-- ingested, and what the ingest comes back with is written to the database.
use nimo_os.Base.{ℕ, ◌≡◌, refl, ap, Bool, true, false, Option, none, some, arith}
use nimo_os.Text.{Text, is_empty}
use nimo_os.Text.Laws.{eqb_refl}
use nimo_os.Upload.Db.{TaskStatus, Tables, Db}
use nimo_os.Upload.Tasks.{set_status}
use nimo_os.Upload.Batches.Marked.{with_item_done, mark_item_done-eq}
use nimo_os.Upload.Batches.Pending.{view, healthy, mark_item_done-view}
use nimo_os.Upload.Batches.Across.{mark_item_done_across_batches-view}
use nimo_os.Upload.Events.{
  HookEvent, TusState, after_call, Ingested, ingested, reconcile, on_complete, path_of_event,
  policy_of_event, staged_path,
}
use nimo_os.Upload.Events.Ingest.{UploadDisk, IsUploadLawful, ingest_to_target_with_policy}
use nimo_os.Upload.Events.Ingest.Landing.{IsApart}
use nimo_os.Upload.Events.Ingest.Delivering.{ingest_to_target_with_policy-delivers}

-- A path that is waited for behind a step was waited for before it.
abbrev pub IsShrinking : Tables → Tables → Type 0
IsShrinking t u = (i p : Text) → view u i p ≡ true → view t i p ≡ true

module _ (ev : HookEvent) (now : ℕ) (named : is_empty ev.metadata.batch_id ≡ false) where
  reconcile-settles :
      (s : TusState) (t : Tables)
      → s.db ≡ healthy t
      → let u = (reconcile ev now s).db.tables in
        (view u ev.metadata.batch_id (path_of_event ev) ≡ false) × IsShrinking t u
  unfolding reconcile
  reconcile-settles s t e =
      let id = ev.metadata.batch_id in
      let path = path_of_event ev in
      let t' = with_item_done id path now t in
      let (u, f, g) = mark_item_done_across_batches-view ev.metadata.target_path path now t' in
      rw (named, e, mark_item_done-eq id path now t, f)
        (
          ground (
            arith,
            g id path,
            mark_item_done-view id path now t id path,
            eqb_refl id,
            eqb_refl path,
          ),
          λ i p h. ground (arith, g i p, mark_item_done-view id path now t i p),
        )

  -- The task leaves the batches alone.
  on_complete-settles :
      (dest : Text) (skipped : Bool) (s : TusState) (t : Tables)
      → s.db ≡ healthy t
      → let u = (on_complete ev now (ingested dest skipped) s).db.tables in
        (view u ev.metadata.batch_id (path_of_event ev) ≡ false) × IsShrinking t u
  unfolding on_complete set_status
  on_complete-settles dest skipped s t e =
      reconcile-settles (after_call (set_status ev.id TaskStatus.completed 0) s)
        (set_status ev.id TaskStatus.completed 0 (healthy t)).1.tables
        (ap (λ (db : Db). (set_status ev.id TaskStatus.completed 0 db).1) e)

module _ (s : UploadDisk) where
  abbrev written :
      HookEvent → ℕ → TusState → Option (s.fs.World × Ingested) → Option (s.fs.World × TusState)
  written ev now st none = none
  written ev now st (some (w, r)) = some (w, on_complete ev now r st)

  -- One event of CompleteUploads. The first argument is the fuel of uniqueDestPath.
  unfoldable pub complete_upload :
      ℕ → Text → HookEvent → ℕ → s.fs.World → TusState → Option (s.fs.World × TusState)
  unfolding ingest_to_target_with_policy on_complete
  complete_upload fuel staging_dir ev now w st = written ev now st (
      ingest_to_target_with_policy s fuel (staged_path staging_dir ev) ev.metadata.target_path
        (path_of_event ev) (policy_of_event ev) w)

  module _ (laws : IsUploadLawful s) where
    -- When no statement fails, the upload of a batch that is complete, whose ingest succeeds without
    -- skipping it and ends apart from the staged file, leaves at its final path what was staged, its
    -- batch no longer waits for the file, and no batch waits for a file that it did not wait for.
    pub complete_upload-settles :
        (fuel : ℕ) (staging_dir dest : Text) (ev : HookEvent) (now : ℕ) (w w' : s.fs.World)
        (st : TusState) (t : Tables) (m : s.fs.Node)
        → is_empty ev.metadata.batch_id ≡ false
        → st.db ≡ healthy t
        → s.fs.node (staged_path staging_dir ev) w ≡ some m
        → ingest_to_target_with_policy s fuel
            (staged_path staging_dir ev)
            ev.metadata.target_path
            (path_of_event ev)
            (policy_of_event ev)
            w
          ≡ some (w', ingested dest false)
        → IsApart s laws (staged_path staging_dir ev) dest
        → (st' : TusState) × (complete_upload fuel staging_dir ev now w st ≡ some (w', st'))
          × (s.fs.node dest w' ≡ some m)
          × (view st'.db.tables ev.metadata.batch_id (path_of_event ev) ≡ false)
          × IsShrinking t st'.db.tables
    unfolding complete_upload
    complete_upload-settles fuel staging_dir dest ev now w w' st t m named e there done apart =
        let staged = staged_path staging_dir ev in
        let d =
          ingest_to_target_with_policy-delivers s laws staged fuel ev.metadata.target_path
            (path_of_event ev) (policy_of_event ev) dest w w' m there done apart in
        let (a, b) = on_complete-settles ev now named dest false st t e in
        rw done (_, refl, d, a, b)
