-- ===== src/Upload/Handlers/Ownership.antt =====
-- A request for the batch of another user changes nothing and does not tell it from a missing one.
use nimo_os.Base.{
  ℕ, ◌≡◌, refl, Bool, true, false, ◌⊎◌, inl, inr, List, [], ◌∷◌, Option, All, select, Bool-cases,
}
use nimo_os.Text.{Text, eqb}
use nimo_os.Upload.Db.{UploadBatch, Tables, Db, ok, Query}
use nimo_os.Upload.Statements.{has_id, find_batches}
use nimo_os.Upload.Batches.{get, or_not_found}
use nimo_os.Upload.Handlers.{
  http_error, Reply, catch, owned_or, with_owned_batch, get_upload_batch, interrupt_upload_batch,
  abandon_upload_batch, remove_upload_batch_items,
}

-- No batch with this id belongs to the user.
abbrev pub IsForeign : Text → Text → Tables → Type 0
IsForeign user_id id t =
    All (λ b. eqb b.id id ≡ true → eqb b.owner_user_id user_id ≡ false) t.batches

-- Refused: the answer is 404, or 500 where the query failed, and the tables are as they were.
abbrev pub IsRefused : Query Reply → Db → Type 0
IsRefused m db =
    (((m db).0 ≡ ok (record { response = http_error 404; removed_files = [] }))
      ⊎ ((m db).0 ≡ ok (record { response = http_error 500; removed_files = [] })))
    × ((m db).1.tables ≡ db.tables)

module _ (user_id id : Text) (rest : UploadBatch → Query Reply) where
  IsRefused-rows :
      (bs : List UploadBatch) (db : Db)
      → All (λ b. eqb b.id id ≡ true → eqb b.owner_user_id user_id ≡ false) bs
      → IsRefused (catch (or_not_found (select (has_id id) bs)) (owned_or user_id rest)) db
  unfolding owned_or
  IsRefused-rows [] db h = (inl refl, refl)
  IsRefused-rows (b ∷ bs) db h = elim (Bool-cases (eqb b.id id)) [
    | inl e ↦ rw (e, h.0 e) (inl refl, refl)
    | inr e ↦ rw e (IsRefused-rows bs db h.1)
  ]

  IsRefused-faults :
      (fs : List Bool) (t : Tables)
      → IsForeign user_id id t
      → IsRefused (with_owned_batch user_id id rest) (record { tables = t; faults = fs })
  unfolding with_owned_batch get find_batches owned_or
  IsRefused-faults [] t h = IsRefused-rows t.batches (record { tables = t; faults = [] }) h
  IsRefused-faults (true ∷ fs) t h = (inr refl, refl)
  IsRefused-faults (false ∷ fs) t h =
      IsRefused-rows t.batches (record { tables = t; faults = fs }) h

  with_owned_batch-IsRefused :
      (db : Db) → IsForeign user_id id db.tables → IsRefused (with_owned_batch user_id id rest) db
  with_owned_batch-IsRefused db h = IsRefused-faults db.faults db.tables h

-- If no batch with the id belongs to the user, reading it, interrupting it, abandoning it and
-- removing items of it are all answered with 404, or with 500 where the query fails, remove no
-- staging file and leave every table as it was.
pub foreign-IsRefused :
    (cancel : Text → ℕ → Query Unit) (dirs : List Text) (now : ℕ) (user_id id : Text)
    (paths : Option (List Text)) (db : Db)
    → IsForeign user_id id db.tables
    → IsRefused (get_upload_batch user_id id) db
      × IsRefused (interrupt_upload_batch cancel dirs user_id id now) db
      × IsRefused (abandon_upload_batch cancel dirs user_id id now) db
      × IsRefused (remove_upload_batch_items user_id id paths) db
unfolding get_upload_batch interrupt_upload_batch abandon_upload_batch remove_upload_batch_items
foreign-IsRefused cancel dirs now user_id id paths db h = (
  with_owned_batch-IsRefused user_id id _ db h,
  with_owned_batch-IsRefused user_id id _ db h,
  with_owned_batch-IsRefused user_id id _ db h,
  with_owned_batch-IsRefused user_id id _ db h,
)
