-- ===== src/Upload/Handlers/Keeping.antt =====
-- Every handler of the batches keeps the counters, and none touches the batch of another user.
use nimo_os.Base.{
  ℕ, ◌<◌, ◌≡◌, refl, true, false, not, ◌||◌, List, [], ◌∷◌, ◌++◌, Option, none, some, arith, All,
  length, any,
}
use nimo_os.Text.{Text, eqb, is_empty, has_prefix}
use nimo_os.FilePath.{slash}
use nimo_os.Upload.Db.{
  UploadBatch, UploadBatchItem, Tables, Db, Outcome, ok, err, not_found, statement_failed,
  duplicate_key, Query, active, abandoned, completed, signal, is_status,
}
use nimo_os.Upload.Db.Rules.{Keeps, Keeps-pure, Keeps-if, Keeps-cond, Keeps-bind}
use nimo_os.Upload.Batches.{mark_staging_cleaned}
use nimo_os.Upload.Batches.Holds.{
  IsConsistent, set_interrupted-IsConsistent, abandon-IsConsistent,
  mark_staging_cleaned-IsConsistent, get-IsConsistent, missing_items-IsConsistent,
}
use nimo_os.Upload.Batches.Creating.{create-IsConsistent}
use nimo_os.Upload.Batches.Removing.{
  remove_items-IsConsistent, abandon_interrupted_under-IsConsistent,
}
use nimo_os.Upload.Sweeper.{ignore}
use nimo_os.Upload.Sweeper.Round.{OnlyTasks, list_unfinished-IsConsistent, cancel_loop-IsConsistent}
use nimo_os.Upload.Handlers.{
  Reply, reply, catch, or_500, CreateBatchItem, CreateBatchReq, is_bad_path, item_rows, new_batch,
  create_from, create_parsed, create_upload_batch, owned_or, with_owned_batch, get_upload_batch,
  cancel_found, cancel_batch_tasks, interrupt_upload_batch, abandon_upload_batch, cancel_each,
  abandon_under, abandon_upload_batches_under, remove_from, remove_upload_batch_items, http_error,
  interrupted, abandoned_one, has_no_items, has_no_paths,
}

Keeps-catch :
    {A : Type 0} {P : Tables → Type 0} (m : Query A) (handle : Outcome A → Query Reply)
    → Keeps P m
    → ((r : Outcome A) → Keeps P (handle r))
    → Keeps P (catch m handle)
Keeps-catch m handle hm hh = record {
  at = λ db h. let (r, db') = m db in (hh r).at db' (hm.at db h);
}

Keeps-or_500 :
    {A : Type 0} {P : Tables → Type 0} (f : A → Query Reply)
    → ((a : A) → Keeps P (f a))
    → (r : Outcome A) → Keeps P (or_500 f r)
Keeps-or_500 f h (ok a) = h a
Keeps-or_500 f h (err e) = Keeps-pure _

IsManifest-items :
    (id : Text) (its : List CreateBatchItem) (rows : List UploadBatchItem)
    → item_rows id its ≡ some rows
    → All (λ r. (r.batch_id ≡ id) × (r.done ≡ false)) rows
unfolding item_rows
IsManifest-items id [] [] e = tt
IsManifest-items id [] (r ∷ rows) e = cc
IsManifest-items id (it ∷ its) [] e = tt
IsManifest-items id (it ∷ its) (r ∷ rows) e = ground (arith, IsManifest-items id its rows)

length-item_rows :
    (id : Text) (its : List CreateBatchItem) (rows : List UploadBatchItem)
    → item_rows id its ≡ some rows
    → length rows ≡ length its
unfolding item_rows
length-item_rows id [] [] e = refl
length-item_rows id [] (r ∷ rows) e = cc
length-item_rows id (it ∷ its) [] e = ground arith
length-item_rows id (it ∷ its) (r ∷ rows) e = ground (arith, length-item_rows id its rows)

create_from-IsConsistent :
    (user_id : Text) (now : ℕ) (req : CreateBatchReq) (o : Option (List UploadBatchItem))
    → 0 < length req.items
    → item_rows req.id req.items ≡ o
    → Keeps IsConsistent (create_from user_id now req o)
unfolding create_from new_batch
create_from-IsConsistent user_id now req none h e = Keeps-pure _
create_from-IsConsistent user_id now req (some rows) h e =
    Keeps-catch _ _
      (create-IsConsistent (new_batch user_id now req (length rows)) rows (record {
        fresh = refl;
        none_done = refl;
        total = refl;
        some_item = omega (arith, length-item_rows req.id req.items rows e);
        own = IsManifest-items req.id req.items rows e;
      }))
      (Keeps-or_500 _ λ _. Keeps-pure _)

refuse : (n : ℕ) → Keeps IsConsistent (reply (http_error n))
refuse n = Keeps-pure _

some_item : (its : List CreateBatchItem) → has_no_items its ≡ false → 0 < length its
some_item [] e = cc
some_item (it ∷ its) e = omega arith

create_parsed-IsConsistent :
    (user_id : Text) (now : ℕ) (req : CreateBatchReq)
    → Keeps IsConsistent (create_parsed user_id now req)
unfolding create_parsed
create_parsed-IsConsistent user_id now req =
    Keeps-cond (is_empty req.id || is_empty req.target_path || has_no_items req.items)
      (reply (http_error 400)) _ (λ _. refuse 400)
      λ e.
        Keeps-if (not (has_prefix req.target_path (slash ∷ []))) (reply (http_error 400)) _
          (refuse 400)
          (create_from-IsConsistent user_id now req (item_rows req.id req.items)
            (some_item req.items (ground arith)) refl)

create-handler :
    (user_id : Text) (now : ℕ) (body : Option CreateBatchReq)
    → Keeps IsConsistent (create_upload_batch user_id now body)
unfolding create_upload_batch
create-handler user_id now none = refuse 400
create-handler user_id now (some req) = create_parsed-IsConsistent user_id now req

owned_or-IsConsistent :
    (user_id : Text) (rest : UploadBatch → Query Reply)
    → ((b : UploadBatch) → Keeps IsConsistent (rest b))
    → (r : Outcome UploadBatch) → Keeps IsConsistent (owned_or user_id rest r)
unfolding owned_or
owned_or-IsConsistent user_id rest h (ok b) =
    Keeps-if (eqb b.owner_user_id user_id) (rest b) (reply (http_error 404)) (h b) (refuse 404)
owned_or-IsConsistent user_id rest h (err not_found) = refuse 404
owned_or-IsConsistent user_id rest h (err statement_failed) = refuse 500
owned_or-IsConsistent user_id rest h (err duplicate_key) = refuse 500

with_owned_batch-IsConsistent :
    (user_id id : Text) (rest : UploadBatch → Query Reply)
    → ((b : UploadBatch) → Keeps IsConsistent (rest b))
    → Keeps IsConsistent (with_owned_batch user_id id rest)
unfolding with_owned_batch
with_owned_batch-IsConsistent user_id id rest h =
    Keeps-catch _ _ (get-IsConsistent id) (owned_or-IsConsistent user_id rest h)

get-handler : (user_id id : Text) → Keeps IsConsistent (get_upload_batch user_id id)
unfolding get_upload_batch
get-handler user_id id =
    with_owned_batch-IsConsistent user_id id _ λ b.
      Keeps-catch _ _ (missing_items-IsConsistent b.id) (Keeps-or_500 _ λ missing. Keeps-pure _)

remove_from-IsConsistent :
    (b : UploadBatch) (body : Option (List Text)) → Keeps IsConsistent (remove_from b body)
unfolding remove_from
remove_from-IsConsistent b none = refuse 400
remove_from-IsConsistent b (some paths) =
    Keeps-if (has_no_paths paths) (reply (http_error 400)) _ (refuse 400) (
      Keeps-if (any is_bad_path paths) (reply (http_error 400)) _ (refuse 400)
        (Keeps-catch _ _ (remove_items-IsConsistent b.id paths) (Keeps-or_500 _ λ _. Keeps-pure _)))

remove-handler :
    (user_id id : Text) (body : Option (List Text))
    → Keeps IsConsistent (remove_upload_batch_items user_id id body)
unfolding remove_upload_batch_items
remove-handler user_id id body =
    with_owned_batch-IsConsistent user_id id _ λ b. remove_from-IsConsistent b body

module _ (cancel : Text → ℕ → Query Unit) (only : OnlyTasks cancel) (dirs : List Text)
    (now : ℕ) where
  cancel_batch_tasks-IsConsistent :
      (id : Text) (rest : List Text → Query Reply)
      → ((files : List Text) → Keeps IsConsistent (rest files))
      → Keeps IsConsistent (cancel_batch_tasks cancel dirs id now rest)
  unfolding cancel_batch_tasks
  cancel_batch_tasks-IsConsistent id rest h =
      Keeps-catch _ _
        (Keeps-bind _ _ (list_unfinished-IsConsistent id)
          λ ts. cancel_loop-IsConsistent cancel only dirs _ ts)
        found
    where
      found : (r : Outcome (List Text)) → Keeps IsConsistent (cancel_found cancel dirs now rest r)
      found (ok files) = unfold cancel_found in h files
      found (err e) = unfold cancel_found in h []

  interrupt-handler :
      (user_id id : Text) → Keeps IsConsistent (interrupt_upload_batch cancel dirs user_id id now)
  unfolding interrupt_upload_batch
  interrupt-handler user_id id = with_owned_batch-IsConsistent user_id id _ λ b.
      Keeps-if (not (is_status b.status active)) (reply (interrupted false)) _ (Keeps-pure _) (
        Keeps-catch _ _ (set_interrupted-IsConsistent b.id now signal) (
          Keeps-or_500 _ λ _. cancel_batch_tasks-IsConsistent b.id _ λ files.
            Keeps-bind _ _ (ignored b.id)
              λ _. Keeps-pure (record { response = interrupted true; removed_files = files })))
    where
      ignored : (id : Text) → Keeps IsConsistent (ignore (mark_staging_cleaned id))
      ignored id = record { at = λ db h. (mark_staging_cleaned-IsConsistent id).at db h }

  abandon-handler :
      (user_id id : Text) → Keeps IsConsistent (abandon_upload_batch cancel dirs user_id id now)
  unfolding abandon_upload_batch
  abandon-handler user_id id = with_owned_batch-IsConsistent user_id id _ λ b.
      Keeps-if (is_status b.status abandoned || is_status b.status completed)
        (reply (abandoned_one false)) _ (Keeps-pure _)
        (Keeps-catch _ _ (abandon-IsConsistent b.id)
          (Keeps-or_500 _ λ _. cancel_batch_tasks-IsConsistent b.id _ λ files. Keeps-pure _))

  cancel_each-IsConsistent :
      (n : ℕ) (ids files : List Text) → Keeps IsConsistent (cancel_each cancel dirs n now ids files)
  unfolding cancel_each
  cancel_each-IsConsistent n [] files = Keeps-pure _
  cancel_each-IsConsistent n (id ∷ ids) files =
      cancel_batch_tasks-IsConsistent id _ λ more. cancel_each-IsConsistent n ids (files ++ more)

  abandon_under-handler :
      (user_id : Text) (body : Option Text)
      → Keeps IsConsistent (abandon_upload_batches_under cancel dirs user_id body now)
  unfolding abandon_upload_batches_under abandon_under
  abandon_under-handler user_id none = refuse 400
  abandon_under-handler user_id (some path) =
      Keeps-if (not (has_prefix path (slash ∷ []))) (reply (http_error 400)) _ (refuse 400) (
        Keeps-catch _ _ (abandon_interrupted_under-IsConsistent path user_id)
          (Keeps-or_500 _ λ ids. cancel_each-IsConsistent (length ids) ids []))

  -- Whatever the requests, their users and the statements that fail, each of the six handlers keeps
  -- the counters of all batches in agreement with their items, if Cancel writes to the task table
  -- alone.
  pub handlers-IsConsistent :
      (user_id id : Text) (create_body : Option CreateBatchReq) (under : Option Text)
      (paths : Option (List Text)) (db : Db)
      → IsConsistent db.tables
      → IsConsistent (create_upload_batch user_id now create_body db).1.tables
        × IsConsistent (get_upload_batch user_id id db).1.tables
        × IsConsistent (interrupt_upload_batch cancel dirs user_id id now db).1.tables
        × IsConsistent (abandon_upload_batch cancel dirs user_id id now db).1.tables
        × IsConsistent (abandon_upload_batches_under cancel dirs user_id under now db).1.tables
        × IsConsistent (remove_upload_batch_items user_id id paths db).1.tables
  handlers-IsConsistent user_id id create_body under paths db h = (
    (create-handler user_id now create_body).at db h,
    (get-handler user_id id).at db h,
    (interrupt-handler user_id id).at db h,
    (abandon-handler user_id id).at db h,
    (abandon_under-handler user_id under).at db h,
    (remove-handler user_id id paths).at db h,
  )
