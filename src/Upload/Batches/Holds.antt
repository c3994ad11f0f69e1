-- ===== src/Upload/Batches/Holds.antt =====
-- Every method of the batch store keeps the counters of the batches in agreement with the items.
use nimo_os.Base.{ℕ, ◌≡◌, refl, ◌∙◌, Bool, true, List, [], ◌∷◌, any, map, All, All-map}
use nimo_os.Text.{Text}
use nimo_os.Upload.Db.{
  BatchStatus, abandoned, InterruptSource, UploadBatch, UploadBatchItem, Tables, statement,
  not_found,
}
use nimo_os.Upload.Db.Rules.{Keeps, Keeps-pure, Keeps-fail, Keeps-statement, Keeps-bind}
use nimo_os.Upload.Statements.{
  has_id, update_batches, touch, put_status, interrupt, put_cleaned, find_batches, find_missing,
}
use nimo_os.Upload.Batches.Rows.{
  IsCounted, touch-row, interrupt-row, abandon-row, put_cleaned-row, id-touch, id-interrupt,
  id-put_status, id-put_cleaned,
}
use nimo_os.Upload.Batches.Counts.{DistinctKeys}
use nimo_os.Upload.Batches.{
  touch_progress, set_interrupted, mark_staging_cleaned, get, or_not_found, list_by_status,
  missing_items, set_status,
}

-- A state of the tables in which each batch has P, no two items have one key, and each item has a
-- batch.
pub record Holds (P : List UploadBatchItem → UploadBatch → Type 0) (t : Tables) : Type 0 where
  pub batches : All (P t.items) t.batches
  pub keys : DistinctKeys t.items
  pub owned : All (λ r. any (has_id r.batch_id) t.batches ≡ true) t.items

abbrev pub IsConsistent : Tables → Type 0
IsConsistent = Holds IsCounted

pub any-map :
    (k : Text) (row : UploadBatch → UploadBatch) (bs : List UploadBatch)
    → ((b : UploadBatch) → (row b).id ≡ b.id)
    → any (has_id k) (map row bs) ≡ any (has_id k) bs
any-map k row [] same = refl
any-map k row (b ∷ bs) same = rw (same b, any-map k row bs same)

owned-map :
    (row : UploadBatch → UploadBatch) (bs : List UploadBatch) (items : List UploadBatchItem)
    → ((b : UploadBatch) → (row b).id ≡ b.id)
    → All (λ r. any (has_id r.batch_id) bs ≡ true) items
    → All (λ r. any (has_id r.batch_id) (map row bs) ≡ true) items
owned-map row bs [] same h = tt
owned-map row bs (r ∷ rs) same h =
    (any-map r.batch_id row bs same ∙ h.0, owned-map row bs rs same h.1)

-- An update takes P to Q if it takes each row to Q and keeps the ids.
pub update-Holds :
    (P Q : List UploadBatchItem → UploadBatch → Type 0) (row : UploadBatch → UploadBatch)
    → ((items : List UploadBatchItem) (b : UploadBatch) → P items b → Q items (row b))
    → ((b : UploadBatch) → (row b).id ≡ b.id)
    → (t : Tables) → Holds P t
    → Holds Q (update_batches row t).1
update-Holds P Q row step same t h = record {
  batches = All-map (P t.items) (Q t.items) row t.batches (step t.items) h.batches;
  keys = h.keys;
  owned = owned-map row t.batches t.items same h.owned;
}

-- The same as a statement, for a method that only runs it.
pub update-Keeps :
    (row : UploadBatch → UploadBatch)
    → ((items : List UploadBatchItem) (b : UploadBatch)
        → IsCounted items b
        → IsCounted items (row b))
    → ((b : UploadBatch) → (row b).id ≡ b.id)
    → Keeps IsConsistent (statement (update_batches row))
update-Keeps row step same = Keeps-statement _ (update-Holds IsCounted IsCounted row step same)

pub touch_progress-IsConsistent : (id : Text) (now : ℕ) → Keeps IsConsistent (touch_progress id now)
unfolding touch_progress
touch_progress-IsConsistent id now =
    update-Keeps (touch id now) (λ items b h. touch-row items b h id now) (λ b. id-touch id b now)

pub set_interrupted-IsConsistent :
    (id : Text) (now : ℕ) (source : InterruptSource)
    → Keeps IsConsistent (set_interrupted id now source)
unfolding set_interrupted
set_interrupted-IsConsistent id now source =
    update-Keeps (interrupt id now source) (λ items b h. interrupt-row items b h id now source)
      (λ b. id-interrupt id b now source)

pub abandon-IsConsistent : (id : Text) → Keeps IsConsistent (set_status id abandoned)
unfolding set_status
abandon-IsConsistent id =
    update-Keeps (put_status id abandoned) (λ items b h. abandon-row items b h id)
      (λ b. id-put_status id b abandoned)

pub mark_staging_cleaned-IsConsistent : (id : Text) → Keeps IsConsistent (mark_staging_cleaned id)
unfolding mark_staging_cleaned
mark_staging_cleaned-IsConsistent id =
    update-Keeps (put_cleaned id) (λ items b h. put_cleaned-row items b h id)
      (λ b. id-put_cleaned id b)

pub find_batches-Keeps : (p : UploadBatch → Bool) → Keeps IsConsistent (statement (find_batches p))
unfolding find_batches
find_batches-Keeps p = Keeps-statement _ λ t h. h

pub list_by_status-IsConsistent : (s : BatchStatus) → Keeps IsConsistent (list_by_status s)
unfolding list_by_status
list_by_status-IsConsistent s = find_batches-Keeps _

pub get-IsConsistent : (id : Text) → Keeps IsConsistent (get id)
unfolding get
get-IsConsistent id = Keeps-bind _ _ (find_batches-Keeps (has_id id)) or_not_found-IsConsistent
  where
    or_not_found-IsConsistent : (bs : List UploadBatch) → Keeps IsConsistent (or_not_found bs)
    or_not_found-IsConsistent [] = Keeps-fail not_found
    or_not_found-IsConsistent (b ∷ bs) = Keeps-pure b

pub missing_items-IsConsistent : (id : Text) → Keeps IsConsistent (missing_items id)
unfolding missing_items find_missing
missing_items-IsConsistent id = Keeps-statement _ λ t h. h
