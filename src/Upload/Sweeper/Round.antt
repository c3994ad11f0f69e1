-- ===== src/Upload/Sweeper/Round.antt =====
-- A round keeps the counters.
use nimo_os.Base.{ℕ, ◌≡◌, Bool, List, [], ◌∷◌, ◌++◌}
use nimo_os.Text.{Text}
use nimo_os.Upload.Db.{active, interrupted, timeout, UploadBatch, UploadTask, Db, Query}
use nimo_os.Upload.Db.Rules.{Keeps, Keeps-pure, Keeps-if, Keeps-bind, Keeps-statement}
use nimo_os.Upload.Tasks.{list_unfinished_by_batch}
use nimo_os.Upload.Batches.Holds.{
  IsConsistent, set_interrupted-IsConsistent, abandon-IsConsistent,
  mark_staging_cleaned-IsConsistent, list_by_status-IsConsistent,
}
use nimo_os.Upload.Batches.Deleting.{delete_terminal-IsConsistent}
use nimo_os.Upload.Sweeper.{
  ignore, staging_files, cancel_loop, cancel_unfinished, interrupt_idle, clean_staging,
  abandon_orphans, sweep_batches,
}

-- Cancel of NimoOS-Common writes to the task table alone, also where it fails.
pub record OnlyTasks (cancel : Text → ℕ → Query Unit) : Type 0 where
  pub batches :
      (id : Text) (expires : ℕ) (db : Db)
      → (cancel id expires db).1.tables.batches ≡ db.tables.batches
  pub items :
      (id : Text) (expires : ℕ) (db : Db) → (cancel id expires db).1.tables.items ≡ db.tables.items

interrupt_idle-IsConsistent :
    (now : ℕ) (bs : List UploadBatch) → Keeps IsConsistent (interrupt_idle now bs)
unfolding interrupt_idle
interrupt_idle-IsConsistent now [] = Keeps-pure tt
interrupt_idle-IsConsistent now (b ∷ bs) =
    Keeps-bind _ _ (Keeps-if _ _ _ (set_interrupted-IsConsistent b.id now timeout) (Keeps-pure tt))
      λ _. interrupt_idle-IsConsistent now bs

pub list_unfinished-IsConsistent : (id : Text) → Keeps IsConsistent (list_unfinished_by_batch id)
unfolding list_unfinished_by_batch
list_unfinished-IsConsistent id =
    Keeps-statement _ λ t h. record { batches = h.batches; keys = h.keys; owned = h.owned }

module _ (cancel : Text → ℕ → Query Unit) (only : OnlyTasks cancel) where
  pub ignore-IsConsistent :
      (id : Text) (expires : ℕ) → Keeps IsConsistent (ignore (cancel id expires))
  ignore-IsConsistent id expires = record {
    at = λ db h. record {
      batches = rw (only.batches id expires db, only.items id expires db) h.batches;
      keys = rw (only.items id expires db) h.keys;
      owned = rw (only.batches id expires db, only.items id expires db) h.owned;
    };
  }

  pub cancel_loop-IsConsistent :
      (dirs : List Text) (expires : ℕ) (ts : List UploadTask)
      → Keeps IsConsistent (cancel_loop cancel dirs expires ts)
  unfolding cancel_loop
  cancel_loop-IsConsistent dirs expires [] = Keeps-pure []
  cancel_loop-IsConsistent dirs expires (t ∷ ts) =
      Keeps-bind _ _ (ignore-IsConsistent t.id expires) λ _.
        Keeps-bind _ _ (cancel_loop-IsConsistent dirs expires ts)
          λ rest. Keeps-pure (staging_files dirs t.id ++ rest)

  pub cancel_unfinished-IsConsistent :
      (id : Text) (dirs : List Text) (now : ℕ)
      → Keeps IsConsistent (cancel_unfinished cancel id dirs now)
  unfolding cancel_unfinished
  cancel_unfinished-IsConsistent id dirs now =
      Keeps-bind _ _ (list_unfinished-IsConsistent id) λ ts. cancel_loop-IsConsistent dirs _ ts

  module _ (dirs : List Text) (now : ℕ) where
    clean_staging-IsConsistent :
        (bs : List UploadBatch) → Keeps IsConsistent (clean_staging cancel dirs now bs)
    unfolding clean_staging
    clean_staging-IsConsistent [] = Keeps-pure []
    clean_staging-IsConsistent (b ∷ bs) =
        Keeps-bind _ _
          (Keeps-if _ _ _ (Keeps-pure []) (
            Keeps-bind _ _ (cancel_unfinished-IsConsistent b.id dirs now) λ removed.
              Keeps-bind _ _ (mark_staging_cleaned-IsConsistent b.id) λ _. Keeps-pure removed))
          λ removed.
            Keeps-bind _ _ (clean_staging-IsConsistent bs) λ rest. Keeps-pure (removed ++ rest)

    module _ (absent : Text → Bool) (mounts : List Text) where
      abandon_orphans-IsConsistent :
          (bs : List UploadBatch)
          → Keeps IsConsistent (abandon_orphans cancel dirs now absent mounts bs)
      unfolding abandon_orphans
      abandon_orphans-IsConsistent [] = Keeps-pure []
      abandon_orphans-IsConsistent (b ∷ bs) =
          Keeps-bind _ _
            (Keeps-if _ _ _ (Keeps-pure []) (
              Keeps-bind _ _ (cancel_unfinished-IsConsistent b.id dirs now)
                λ removed. Keeps-bind _ _ (abandon-IsConsistent b.id) λ _. Keeps-pure removed))
            λ removed.
              Keeps-bind _ _ (abandon_orphans-IsConsistent bs) λ rest. Keeps-pure (removed ++ rest)

      sweep-Keeps : Keeps IsConsistent (sweep_batches cancel dirs now absent mounts)
      unfolding sweep_batches
      sweep-Keeps = Keeps-bind _ _ (list_by_status-IsConsistent active) λ actives.
          Keeps-bind _ _ (interrupt_idle-IsConsistent now actives) λ _.
            Keeps-bind _ _ (list_by_status-IsConsistent interrupted) λ broken.
              Keeps-bind _ _ (clean_staging-IsConsistent broken) λ cleaned.
                Keeps-bind _ _ (abandon_orphans-IsConsistent broken) λ orphaned.
                  Keeps-bind _ _ delete_terminal-IsConsistent λ _. Keeps-pure (cleaned ++ orphaned)

      -- If Cancel writes to the task table alone, a round keeps the counters of all batches in
      -- agreement with their items, whatever statements fail.
      pub sweep_batches-IsConsistent :
          (db : Db)
          → IsConsistent db.tables
          → IsConsistent (sweep_batches cancel dirs now absent mounts db).1.tables
      sweep_batches-IsConsistent = sweep-Keeps.at
