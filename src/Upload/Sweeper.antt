-- ===== src/Upload/Sweeper.antt =====
-- service/upload/batch_sweeper.go: one round of the scan over the batches.
--
-- Outside the repository, and so parameters: `cancel`, the function Cancel of
-- NimoOS-Common/upload, which the sweeper calls for its effect on the task table; `absent`, whether
-- os.Stat reports that a path does not exist; the mount points of /proc/self/mounts. What os.Remove
-- is called on is the result of a round.
pub mod Round
use nimo_os.Base.{
  ℕ, ◌+◌, ◌-◌, Bool, true, false, not, ◌&&◌, ◌||◌, List, [], ◌∷◌, ◌++◌, leb, ltb, ◌==◌, any,
  if◌then◌else◌,
}
use nimo_os.Text.{Text, eqb, text}
use nimo_os.FilePath.{slash, clean, join_path, covers}
use nimo_os.Upload.Db.{
  BatchStatus, active, interrupted, abandoned, timeout, UploadBatch, UploadTask, Db, Outcome, ok,
  err, Query, pure, ◌>>=◌, ◌>>◌,
}
use nimo_os.Upload.Tasks.{list_unfinished_by_batch}
use nimo_os.Upload.Batches.{
  list_by_status, set_interrupted, set_status, mark_staging_cleaned, delete_terminal,
}

abbrev pub batch_idle_interrupt_seconds : ℕ
batch_idle_interrupt_seconds = 120

abbrev pub batch_staging_grace_seconds : ℕ
batch_staging_grace_seconds = 600

abbrev pub upload_canceled_ttl_seconds : ℕ
upload_canceled_ttl_seconds = 3600

-- Covered by a mount point that is not the root.
unfoldable pub target_covered : Text → List Text → Bool
target_covered target [] = false
target_covered target (m ∷ ms) =
    if eqb (clean m) (slash ∷ [])
    then target_covered target ms
    else if covers (clean m) (clean target)
    then true
    else target_covered target ms

unfoldable pub target_orphaned : (Text → Bool) → Text → List Text → Bool
unfolding target_covered
target_orphaned absent target mount_points = absent target && target_covered target mount_points

-- The result is dropped: `_, _ =`.
abbrev pub ignore : {A : Type 0} → Query A → Query Unit
ignore m db = (ok tt, (m db).1)

-- What os.Remove is called on for one task.
abbrev pub staging_files : List Text → Text → List Text
staging_files [] id = []
staging_files (dir ∷ dirs) id =
    join_path dir id ∷ join_path dir (id ++ text ".info") ∷ staging_files dirs id

module _ (cancel : Text → ℕ → Query Unit) where
  unfoldable pub cancel_loop : List Text → ℕ → List UploadTask → Query (List Text)
  cancel_loop dirs expires [] = pure []
  cancel_loop dirs expires (t ∷ ts) = do
    ignore (cancel t.id expires)
    rest ← cancel_loop dirs expires ts
    pure (staging_files dirs t.id ++ rest)

  unfoldable pub cancel_unfinished : Text → List Text → ℕ → Query (List Text)
  cancel_unfinished batch_id dirs now = do
    list ← list_unfinished_by_batch batch_id
    cancel_loop dirs (now + upload_canceled_ttl_seconds) list

-- now-last > 120, with created_at for a batch that has no progress
abbrev pub is_idle : ℕ → UploadBatch → Bool
is_idle now b =
    let last = if b.last_progress_at == 0 then b.created_at else b.last_progress_at in
    ltb (last + batch_idle_interrupt_seconds) now

unfoldable pub interrupt_idle : ℕ → List UploadBatch → Query Unit
interrupt_idle now [] = pure tt
interrupt_idle now (b ∷ bs) = do
  if is_idle now b then set_interrupted b.id now timeout else pure tt
  interrupt_idle now bs

abbrev pub keeps_staging : ℕ → UploadBatch → Bool
keeps_staging now b = b.staging_cleaned || leb now (b.interrupted_at + batch_staging_grace_seconds)

module _ (cancel : Text → ℕ → Query Unit) (dirs : List Text) (now : ℕ) where
  unfoldable pub clean_one : UploadBatch → Query (List Text)
  clean_one b = if keeps_staging now b then pure [] else do
    removed ← cancel_unfinished cancel b.id dirs now
    mark_staging_cleaned b.id
    pure removed

  unfoldable pub clean_staging : List UploadBatch → Query (List Text)
  unfolding clean_one
  clean_staging [] = pure []
  clean_staging (b ∷ bs) = do removed ← clean_one b; rest ← clean_staging bs; pure (removed ++ rest)

  module _ (absent : Text → Bool) (mounts : List Text) where
    unfoldable pub abandon_one : UploadBatch → Query (List Text)
    abandon_one b = if not (target_orphaned absent b.target_path mounts) then pure [] else do
      removed ← cancel_unfinished cancel b.id dirs now
      set_status b.id abandoned
      pure removed

    unfoldable pub abandon_orphans : List UploadBatch → Query (List Text)
    unfolding abandon_one
    abandon_orphans [] = pure []
    abandon_orphans (b ∷ bs) = do
      removed ← abandon_one b
      rest ← abandon_orphans bs
      pure (removed ++ rest)

    unfoldable pub sweep_batches : Query (List Text)
    sweep_batches = do
      actives ← list_by_status active
      interrupt_idle now actives
      broken ← list_by_status interrupted
      cleaned ← clean_staging broken
      orphaned ← abandon_orphans broken
      delete_terminal
      pure (cleaned ++ orphaned)
