-- ===== src/Upload/Db/Rules.antt =====
-- Rules for methods that run statements: what they keep, and what a success has written.
use nimo_os.Base.{◌≡◌, refl, Bool, true, false, List, if◌then◌else◌}
use nimo_os.Upload.Db.{
  Tables, Db, Outcome, ok, err, StoreError, Query, next_fault, run_statement, statement, pure, fail,
  ◌>>=◌, continue, transaction, commit_or_roll_back,
}

-- The method keeps P, whether it succeeds or fails.
pub record Keeps {A : Type 0} (P : Tables → Type 0) (m : Query A) : Type 0 where
  pub at : (db : Db) → P db.tables → P (m db).1.tables

abbrev pub OnOk : {A : Type 0} → (A → Tables → Type 0) → Outcome A → Tables → Type 0
OnOk Q (ok a) t = Q a t
OnOk Q (err e) t = Unit

-- From P, a success of the method has Q; of a failure nothing is said.
pub record Commits {A : Type 0} (P : Tables → Type 0) (m : Query A) (Q : A → Tables → Type 0)
    : Type 0 where
  pub at : (db : Db) → P db.tables → OnOk Q (m db).0 (m db).1.tables

roll_back-keeps :
    {A : Type 0} (P : Tables → Type 0) (before : Tables) (r : Outcome A) (db : Db)
    → P before
    → OnOk (λ _. P) r db.tables
    → P (commit_or_roll_back before r db).1.tables
roll_back-keeps P before (ok a) db p q = q
roll_back-keeps P before (err e) db p q = p

module _ {A : Type 0} {P : Tables → Type 0} where
  pub Keeps-pure : (a : A) → Keeps P (pure a)
  Keeps-pure a = record { at = λ db h. h }

  pub Keeps-fail : (e : StoreError) → Keeps P (fail {A = A} e)
  Keeps-fail e = record { at = λ db h. h }

  run_statement-keeps :
      (f : Bool) (fs : List Bool) (act : Tables → Outcome A × Tables)
      → ((t : Tables) → P t → P (act t).1)
      → (t : Tables) → P t
      → P (run_statement f fs act t).1.tables
  run_statement-keeps true fs act h t p = p
  run_statement-keeps false fs act h t p = h t p

  pub Keeps-statement :
      (act : Tables → Outcome A × Tables)
      → ((t : Tables) → P t → P (act t).1)
      → Keeps P (statement act)
  Keeps-statement act h = record {
    at = λ db p. let (f, fs) = next_fault db.faults in run_statement-keeps f fs act h db.tables p;
  }

  pub Keeps-if : (b : Bool) (m n : Query A) → Keeps P m → Keeps P n → Keeps P (if b then m else n)
  Keeps-if true m n h k = h
  Keeps-if false m n h k = k

  -- With what the test says.
  pub Keeps-cond :
      (b : Bool) (m n : Query A)
      → (b ≡ true → Keeps P m)
      → (b ≡ false → Keeps P n)
      → Keeps P (if b then m else n)
  Keeps-cond true m n h k = h refl
  Keeps-cond false m n h k = k refl

  -- Inside a transaction P may fail between the statements.
  pub Keeps-transaction : (m : Query A) → Commits P m (λ _. P) → Keeps P (transaction m)
  Keeps-transaction m h = record {
    at = λ db p. let (r, db') = m db in roll_back-keeps P db.tables r db' p (h.at db p);
  }

module _ {A B : Type 0} {P : Tables → Type 0} where
  continue-keeps :
      (r : Outcome A) (f : A → Query B) (db : Db)
      → ((a : A) → Keeps P (f a))
      → P db.tables
      → P (continue r f db).1.tables
  continue-keeps (ok a) f db h p = (h a).at db p
  continue-keeps (err e) f db h p = p

  pub Keeps-bind :
      (m : Query A) (f : A → Query B) → Keeps P m → ((a : A) → Keeps P (f a)) → Keeps P (m >>= f)
  Keeps-bind m f hm hf = record {
    at = λ db p. let (r, db') = m db in continue-keeps r f db' hf (hm.at db p);
  }

module _ {A : Type 0} where
  pub Commits-pure :
      (P : Tables → Type 0) (Q : A → Tables → Type 0) (a : A)
      → ((t : Tables) → P t → Q a t)
      → Commits P (pure a) Q
  Commits-pure P Q a h = record { at = λ db p. h db.tables p }

  run_statement-commits :
      (Q : A → Tables → Type 0) (f : Bool) (fs : List Bool) (act : Tables → Outcome A × Tables)
      → (t : Tables) → OnOk Q (act t).0 (act t).1
      → OnOk Q (run_statement f fs act t).0 (run_statement f fs act t).1.tables
  run_statement-commits Q true fs act t q = tt
  run_statement-commits Q false fs act t q = q

  pub Commits-statement :
      (P : Tables → Type 0) (Q : A → Tables → Type 0) (act : Tables → Outcome A × Tables)
      → ((t : Tables) → P t → OnOk Q (act t).0 (act t).1)
      → Commits P (statement act) Q
  Commits-statement P Q act h = record {
    at = λ db p.
        let (f, fs) = next_fault db.faults in
        run_statement-commits Q f fs act db.tables (h db.tables p);
  }

  pub Commits-if :
      (P : Tables → Type 0) (Q : A → Tables → Type 0) (b : Bool) (m n : Query A)
      → (b ≡ true → Commits P m Q)
      → (b ≡ false → Commits P n Q)
      → Commits P (if b then m else n) Q
  Commits-if P Q true m n h k = h refl
  Commits-if P Q false m n h k = k refl

module _ {A B : Type 0} where
  continue-commits :
      (Q : A → Tables → Type 0) (R : B → Tables → Type 0) (r : Outcome A) (f : A → Query B)
      (db : Db)
      → ((a : A) → Commits (Q a) (f a) R)
      → OnOk Q r db.tables
      → OnOk R (continue r f db).0 (continue r f db).1.tables
  continue-commits Q R (ok a) f db h q = (h a).at db q
  continue-commits Q R (err e) f db h q = tt

  pub Commits-bind :
      (P : Tables → Type 0) (Q : A → Tables → Type 0) (R : B → Tables → Type 0) (m : Query A)
      (f : A → Query B)
      → Commits P m Q
      → ((a : A) → Commits (Q a) (f a) R)
      → Commits P (m >>= f) R
  Commits-bind P Q R m f hm hf = record {
    at = λ db p. let (r, db') = m db in continue-commits Q R r f db' hf (hm.at db p);
  }

module _ {A : Type 0} where
  pub Commits-weaken :
      (P P' : Tables → Type 0) (Q : A → Tables → Type 0) (m : Query A)
      → ((t : Tables) → P t → P' t)
      → Commits P' m Q
      → Commits P m Q
  Commits-weaken P P' Q m f h = record { at = λ db p. h.at db (f db.tables p) }

  rolled_back :
      (Q : A → Tables → Type 0) (before : Tables) (r : Outcome A) (db : Db)
      → OnOk Q r db.tables
      → OnOk Q (commit_or_roll_back before r db).0 (commit_or_roll_back before r db).1.tables
  rolled_back Q before (ok a) db q = q
  rolled_back Q before (err e) db q = tt
