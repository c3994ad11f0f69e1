-- ===== src/Upload/Db.antt =====
-- The rows of service/upload/batch.go and of the upload tasks, the tables that hold them, and the
-- statements that service/upload sends to them.
--
-- A table is the list of its rows. A statement may fail, whatever it asks for: `faults` says of
-- each statement to come whether it does. A statement that fails changes nothing.
pub mod Rules
use nimo_os.Base.{
  ℕ, ◌+◌, Bool, true, false, not, ◌&&◌, ◌||◌, List, [], ◌∷◌, ◌++◌, map, Option, none, some, count,
  select, any, first, if◌then◌else◌,
}
use nimo_os.Text.{Text, eqb}

-- BatchStatusActive, BatchStatusInterrupted, BatchStatusCompleted, BatchStatusAbandoned
pub data BatchStatus : Type 0 where
  active interrupted completed abandoned : BatchStatus

-- The column interrupt_source: empty, BatchInterruptSourceSignal or BatchInterruptSourceTimeout.
pub data InterruptSource : Type 0 where
  unset signal timeout : InterruptSource

pub record UploadBatch : Type 0 where
  pub id : Text
  pub owner_user_id : Text
  pub target_path : Text
  pub status : BatchStatus
  pub total : ℕ
  pub done : ℕ
  pub last_progress_at : ℕ
  pub interrupted_at : ℕ
  pub interrupt_source : InterruptSource
  pub staging_cleaned : Bool
  pub created_at : ℕ

pub record UploadBatchItem : Type 0 where
  pub batch_id : Text
  pub relative_path : Text
  pub size : ℕ
  pub done : Bool

-- The statuses of an upload task, as the queries of store.go name them.
pub data TaskStatus : Type 0 where
  uploading paused failed canceled completed : TaskStatus

pub record UploadTask : Type 0 where
  pub id : Text
  pub owner_user_id : Text
  pub filename : Text
  pub target_path : Text
  pub relative_path : Text
  pub size : ℕ
  pub mime : Text
  pub fingerprint : Text
  pub batch_id : Text
  pub client_id : Text
  pub client_meta : Text
  pub status : TaskStatus
  pub uploaded_offset : ℕ
  pub error : Text
  pub last_error_at : ℕ
  pub expires_at : ℕ

pub record Tables : Type 0 where
  pub batches : List UploadBatch
  pub items : List UploadBatchItem
  pub tasks : List UploadTask

pub record Db : Type 0 where
  pub tables : Tables
  pub open tables use *
  pub faults : List Bool

pub data StoreError : Type 0 where
  not_found statement_failed duplicate_key : StoreError

pub data Outcome (A : Type 0) : Type 0 where
  ok : A → Outcome A
  err : StoreError → Outcome A

abbrev pub Query : Type 0 → Type 0
Query A = Db → Outcome A × Db

-- Whether the next statement fails, and the faults after it.
abbrev pub next_fault : List Bool → Bool × List Bool
next_fault [] = (false, [])
next_fault (f ∷ fs) = (f, fs)

abbrev pub run_statement :
    {A : Type 0} → Bool → List Bool → (Tables → Outcome A × Tables) → Tables → Outcome A × Db
run_statement true fs act t = (err statement_failed, record { tables = t; faults = fs })
run_statement false fs act t = let (r, t') = act t in (r, record { tables = t'; faults = fs })

-- One statement.
abbrev pub statement : {A : Type 0} → (Tables → Outcome A × Tables) → Query A
statement act db = let (f, fs) = next_fault db.faults in run_statement f fs act db.tables

abbrev pub pure : {A : Type 0} → A → Query A
pure a db = (ok a, db)

abbrev pub fail : {A : Type 0} → StoreError → Query A
fail e db = (err e, db)

abbrev pub continue : {A B : Type 0} → Outcome A → (A → Query B) → Query B
continue (ok a) f db = f a db
continue (err e) f db = (err e, db)

infixl 5 ◌>>=◌ ◌>>◌
-- `if err != nil { return err }`
abbrev pub ◌>>=◌ : {A B : Type 0} → Query A → (A → Query B) → Query B
◌>>=◌ m f db = let (r, db') = m db in continue r f db'

abbrev pub ◌>>◌ : {A B : Type 0} → Query A → Query B → Query B
m >> n = m >>= λ _. n

abbrev pub commit_or_roll_back : {A : Type 0} → Tables → Outcome A → Db → Outcome A × Db
commit_or_roll_back before (ok a) db = (ok a, db)
commit_or_roll_back before (err e) db = (err e, record db { tables = before })

-- db.Transaction: an error of the body rolls back what the body wrote.
abbrev pub transaction : {A : Type 0} → Query A → Query A
transaction body db = let (r, db') = body db in commit_or_roll_back db.tables r db'

-- UPDATE … SET … WHERE …
abbrev pub update_where : {A : Type 0} → (A → Bool) → (A → A) → List A → List A
update_where p f rows = map (λ r. if p r then f r else r) rows

-- DELETE … WHERE …
abbrev pub delete_where : {A : Type 0} → (A → Bool) → List A → List A
delete_where p rows = select (λ r. not (p r)) rows

unfoldable pub is_status : BatchStatus → BatchStatus → Bool
is_status active active = true
is_status interrupted interrupted = true
is_status completed completed = true
is_status abandoned abandoned = true
is_status _ _ = false

abbrev pub is_live : BatchStatus → Bool
is_live active = true
is_live interrupted = true
is_live completed = false
is_live abandoned = false
