-- ===== src/Upload/TaskHandlers.antt =====
-- route/v2/upload_tasks.go: the HTTP handlers of the upload tasks.
--
-- Echo is a parameter in its results, as in Upload.Handlers. `cancel` is Cancel of
-- NimoOS-Common/upload, which says whether it has cancelled the task, and `dirs` is what
-- cancelStagingDirsFn comes back with. A handler answers with the response and with what os.Remove
-- is called on.
use nimo_os.Base.{
  ℕ, ◌+◌, ◌≡◌, refl, ◌⊎◌, inl, inr, Bool, true, false, List, [], ◌∷◌, All, select, Bool-cases,
  if◌then◌else◌,
}
use nimo_os.Text.{Text, eqb}
use nimo_os.Upload.Db.{
  UploadTask, Tables, Db, Outcome, ok, err, not_found, statement_failed, duplicate_key, Query, pure,
}
use nimo_os.Upload.Tasks.{get, or_not_found, list_active_by_owner}
use nimo_os.Upload.Sweeper.{staging_files, upload_canceled_ttl_seconds}

pub data TaskResponse : Type 0 where
  uploads : List UploadTask → TaskResponse
  upload : UploadTask → TaskResponse
  canceled : Bool → TaskResponse
  http_error : ℕ → TaskResponse

pub record TaskReply : Type 0 where
  pub response : TaskResponse
  pub removed_files : List Text

abbrev answer : TaskResponse → Query TaskReply
answer r = pure (record { response = r; removed_files = [] })

abbrev handled : {A : Type 0} → Query A → (Outcome A → Query TaskReply) → Query TaskReply
handled m f db = let (r, db') = m db in f r db'

abbrev answer_list : Outcome (List UploadTask) → Query TaskReply
answer_list (ok ts) = answer (uploads ts)
answer_list (err e) = answer (http_error 500)

pub list_uploads : Text → Query TaskReply
unfolding list_active_by_owner
list_uploads owner = handled (list_active_by_owner owner) answer_list

-- The two checks behind Get that GetUpload and CancelUpload share, and the handler's rest.
abbrev with_own_task : Text → (UploadTask → Query TaskReply) → Outcome UploadTask → Query TaskReply
with_own_task owner rest (ok t) =
    if eqb t.owner_user_id owner then rest t else answer (http_error 404)
with_own_task owner rest (err not_found) = answer (http_error 404)
with_own_task owner rest (err statement_failed) = answer (http_error 500)
with_own_task owner rest (err duplicate_key) = answer (http_error 500)

pub get_upload : Text → Text → Query TaskReply
unfolding get
get_upload owner id = handled (get id) (with_own_task owner λ t. answer (upload t))

module _ (cancel : Text → ℕ → Query Bool) (dirs : List Text) where
  abbrev answer_cancelled : Text → Outcome Bool → Query TaskReply
  answer_cancelled id (ok b) =
      pure
        (record { response = canceled b; removed_files = if b then staging_files dirs id else [] })
  answer_cancelled id (err e) = answer (http_error 500)

  unfoldable pub cancel_upload : Text → Text → ℕ → Query TaskReply
  unfolding get
  cancel_upload owner id now = handled (get id) (
      with_own_task owner
        λ t. handled (cancel id (now + upload_canceled_ttl_seconds)) (answer_cancelled id))

-- No task with this id belongs to the user.
abbrev pub IsForeignTask : Text → Text → Tables → Type 0
IsForeignTask owner id t =
    All (λ (r : UploadTask). eqb r.id id ≡ true → eqb r.owner_user_id owner ≡ false) t.tasks

-- Refused: the answer is 404, or 500 where the query failed, no file is removed, and the tables are
-- as they were.
abbrev pub IsTaskRefused : Query TaskReply → Db → Type 0
IsTaskRefused m db =
    (((m db).0 ≡ ok (record { response = http_error 404; removed_files = [] }))
      ⊎ ((m db).0 ≡ ok (record { response = http_error 500; removed_files = [] })))
    × ((m db).1.tables ≡ db.tables)

module _ (owner id : Text) (rest : UploadTask → Query TaskReply) where
  refused_rows :
      (ts : List UploadTask) (db : Db)
      → All (λ (r : UploadTask). eqb r.id id ≡ true → eqb r.owner_user_id owner ≡ false) ts
      → IsTaskRefused
          (handled (or_not_found (select (λ r. eqb r.id id) ts)) (with_own_task owner rest))
          db
  refused_rows [] db h = (inl refl, refl)
  refused_rows (r ∷ ts) db h = elim (Bool-cases (eqb r.id id)) [
    | inl e ↦ rw (e, h.0 e) (inl refl, refl)
    | inr e ↦ rw e (refused_rows ts db h.1)
  ]

  refused_faults :
      (fs : List Bool) (t : Tables)
      → IsForeignTask owner id t
      → IsTaskRefused
          (handled (get id) (with_own_task owner rest))
          (record { tables = t; faults = fs })
  unfolding get
  refused_faults [] t h = refused_rows t.tasks (record { tables = t; faults = [] }) h
  refused_faults (true ∷ fs) t h = (inr refl, refl)
  refused_faults (false ∷ fs) t h = refused_rows t.tasks (record { tables = t; faults = fs }) h

-- If no task with the id belongs to the user, reading it and cancelling it are answered with 404, or
-- with 500 where the query fails, remove no staged file and change no table.
pub foreign_task-IsRefused :
    (cancel : Text → ℕ → Query Bool) (dirs : List Text) (now : ℕ) (owner id : Text) (db : Db)
    → IsForeignTask owner id db.tables
    → IsTaskRefused (get_upload owner id) db
      × IsTaskRefused (cancel_upload cancel dirs owner id now) db
unfolding get_upload cancel_upload
foreign_task-IsRefused cancel dirs now owner id db h = (
  refused_faults owner id _ db.faults db.tables h,
  refused_faults owner id _ db.faults db.tables h,
)

module _ (cancel : Text → ℕ → Query Bool) (dirs : List Text) (owner id : Text) (r : TaskReply) where
  answer_cancelled-files :
      (o : Outcome Bool) (db : Db)
      → (answer_cancelled cancel dirs id o db).0 ≡ ok r
      → r.response ≡ canceled true
      → r.removed_files ≡ staging_files dirs id
  answer_cancelled-files (ok true) db e h = cc e
  answer_cancelled-files (ok false) db e h = cc e
  answer_cancelled-files (err x) db e h = cc e

  own-files :
      (now : ℕ) (o : Outcome UploadTask) (db : Db)
      → (with_own_task owner
          (λ t.
            handled
              (cancel id (now + upload_canceled_ttl_seconds))
              (answer_cancelled cancel dirs id))
          o
          db).0
        ≡ ok r
      → r.response ≡ canceled true
      → r.removed_files ≡ staging_files dirs id
  own-files now (ok t) db e h = elim (Bool-cases (eqb t.owner_user_id owner)) [
    | inl b ↦
        let m = cancel id (now + upload_canceled_ttl_seconds) db in
        answer_cancelled-files m.0 m.1 (rw b at e) h
    | inr b ↦ let g = rw b at e in cc g
  ]
  own-files now (err not_found) db e h = cc e
  own-files now (err statement_failed) db e h = cc e
  own-files now (err duplicate_key) db e h = cc e

  -- A cancel that is answered with success removes what is staged of the task in every directory.
  pub cancel_upload-files :
      (now : ℕ) (db : Db)
      → (cancel_upload cancel dirs owner id now db).0 ≡ ok r
      → r.response ≡ canceled true
      → r.removed_files ≡ staging_files dirs id
  unfolding cancel_upload
  cancel_upload-files now db e h = let m = get id db in own-files now m.0 m.1 e h
