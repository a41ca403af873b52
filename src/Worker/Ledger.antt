-- ===== src/Worker/Ledger.antt =====
-- The attempts that the table counts for an operation, and how the transactions change the count.
use server_npd.Prelude.{
  ℕ, ◌≡◌, ◌==◌, arith, refl, sym, ◌∙◌, subst, some, if◌then◌else◌, option_case, inl, inr,
  Bool-cases, Option-cases, String,
}
use server_npd.Prelude.Rows.{row, HasKey, row-put_row_self, row-put_row_ne, put_row-HasKey, key-row}
use server_npd.Outcome.{Exec, Result, ok, err, Done, catch, pure}
use server_npd.Outcome.Keeps.{Keeps}
use server_npd.Models.{Db, Operation}
use server_npd.Operations.Session.{Session}
use server_npd.Worker.Transaction.{
  Server, open_session, stamp, written, vmids_are_unique, close_transaction, with_operation,
}
use server_npd.Worker.Frame.Reads.{Mark, mark, Unmoved, Unmoved-refl}
use server_npd.Worker.Frame.Stores.{
  Unmoved-finish_create, Unmoved-finish_start, Unmoved-finish_lifecycle,
  Unmoved-mark_create_unknown, Unmoved-mark_start_unknown, Unmoved-mark_lifecycle_unknown,
}
use server_npd.Worker.Step.{
  Dispatch, no_dispatch, create_dispatch, start_dispatch, lifecycle_dispatch,
}
use server_npd.Worker.Submit.{
  Reply, create_reply, start_reply, lifecycle_reply, store_reply, store_unknown,
}
use server_npd.Worker.Round.{logged, store_outcome}

abbrev pub operation_id : Operation → ℕ
operation_id o = o.id

-- The count of an operation that is not in the table is zero.
unfoldable pub attempts_of : ℕ → Db → ℕ
attempts_of i db = option_case (row operation_id i db.operations) 0 (λ o. o.attempts)

pub id-stamp : (now : ℕ) (a b : Operation) → (stamp now a b).id ≡ b.id
unfolding stamp
id-stamp now a b = ground arith

attempts-stamp : (now : ℕ) (a b : Operation) → (stamp now a b).attempts ≡ b.attempts
unfolding stamp
attempts-stamp now a b = ground arith

-- The count of a row that is in the table.
pub attempts_of-row :
    (i : ℕ) (o : Operation) (db : Db)
    → o.id ≡ i
    → row operation_id o.id db.operations ≡ some o
    → attempts_of i db ≡ o.attempts
unfolding attempts_of
attempts_of-row i o db e found = ground arith

module _ {W : Type 0} (db : Db) (o : Operation) (t : Session W)
    (found : row operation_id o.id db.operations ≡ some o) (same : t.operation.id ≡ o.id) where
  -- A commit changes the count of its own operation only.
  pub attempts_of-written :
      (i : ℕ)
      → attempts_of i (written db o t)
        ≡ (if o.id == i then t.operation.attempts else attempts_of i db)
  unfolding attempts_of written
  attempts_of-written i = ground (
    arith,
    id-stamp t.now o t.operation,
    attempts-stamp t.now o t.operation,
    row-put_row_self operation_id i (stamp t.now o t.operation) db.operations {x = o},
    row-put_row_ne operation_id i (stamp t.now o t.operation) db.operations,
  )

  pub written-HasKey :
      HasKey operation_id db.operations → HasKey operation_id (written db o t).operations
  unfolding written
  written-HasKey h = put_row-HasKey operation_id _ db.operations h

-- One table counts as another does, and is keyed if the other is.
pub record SameLedger (a b : Db) : Type 0 where
  pub counts : (i : ℕ) → attempts_of i b ≡ attempts_of i a
  pub keyed : HasKey operation_id a.operations → HasKey operation_id b.operations

pub SameLedger-refl : (db : Db) → SameLedger db db
SameLedger-refl db = record { counts = λ i. refl; keyed = λ h. h }

module _ {W A : Type 0} (s : Server W) (o : Operation) where
  -- A transaction whose session ends with the operation as it was counted.
  pub SameLedger-close_transaction :
      (r : Result A) (t : Session W)
      → row operation_id o.id s.db.operations ≡ some o
      → t.operation.id ≡ o.id
      → t.operation.attempts ≡ o.attempts
      → SameLedger s.db (close_transaction s o (r, t)).1.db
  unfolding close_transaction
  SameLedger-close_transaction (err e) t found same count = SameLedger-refl s.db
  SameLedger-close_transaction (ok a) t found same count =
      elim (Bool-cases (vmids_are_unique t.virtual_machines)) [
        | inl unique ↦ rw unique (record {
          counts = λ i. attempts_of-written s.db o t found same i ∙ ledger i;
          keyed = written-HasKey s.db o t found same;
        })
        | inr clash ↦ rw clash (SameLedger-refl s.db)
      ]
    where
      ledger :
          (i : ℕ)
          → (if o.id == i then t.operation.attempts else attempts_of i s.db) ≡ attempts_of i s.db
      ledger i = ground (arith, attempts_of-row i o s.db)

module _ {W : Type 0} where
  -- A transaction over one row whose body keeps the operation's identity and attempts.
  pub SameLedger-with_operation :
      {A : Type 0} (id now : ℕ) (message : String) (body : Exec (Session W) A)
      → ((b : Mark W) → Keeps (Unmoved b) body)
      → (s : Server W) → SameLedger s.db (with_operation id now message body s).1.db
  unfolding with_operation
  SameLedger-with_operation id now message body keeps s =
      elim (Option-cases (row operation_id id s.db.operations)) [
        | inl missing ↦ rw missing (SameLedger-refl s.db)
        | inr (o, found) ↦
            let begun = open_session s o now in
            let u = (keeps (mark begun)).at begun (Unmoved-refl begun) in
            rw found (
              SameLedger-close_transaction s o (body begun).0 (body begun).1
                (subst (λ k. row operation_id k s.db.operations ≡ some o)
                  (sym (key-row operation_id id s.db.operations found)) found)
                u.1 u.2)
      ]

  -- Logging an exception changes no table.
  logged_ledger :
      (m : Exec (Server W) Done) (s : Server W)
      → SameLedger s.db (m s).1.db
      → SameLedger s.db (logged m s).1.db
  unfolding catch pure
  logged_ledger m s h = after (m s).0 (m s).1 h
    where
      after :
          (r : Result Done) (t : Server W)
          → SameLedger s.db t.db
          → SameLedger s.db (logged (λ _. (r, t)) s).1.db
      after (ok a) t k = k
      after (err e) t k = k

  SameLedger-store_reply :
      (now : ℕ) (d : Dispatch) (r : Reply) (s : Server W)
      → SameLedger s.db (store_reply now d r s).1.db
  unfolding store_reply pure
  SameLedger-store_reply now (create_dispatch id vm_id phase request target) (create_reply result)
        s =
      SameLedger-with_operation id now _ _ (λ b. Unmoved-finish_create phase result) s
  SameLedger-store_reply now (start_dispatch id vm_id target) (start_reply task) s =
      SameLedger-with_operation id now _ _ (λ b. Unmoved-finish_start task) s
  SameLedger-store_reply now (lifecycle_dispatch id vm_id command target) (lifecycle_reply result)
        s =
      SameLedger-with_operation id now _ _ (λ b. Unmoved-finish_lifecycle result) s
  SameLedger-store_reply now d r s = SameLedger-refl s.db

  SameLedger-store_unknown :
      (now : ℕ) (d : Dispatch) (s : Server W) → SameLedger s.db (store_unknown now d s).1.db
  unfolding store_unknown pure
  SameLedger-store_unknown now no_dispatch s = SameLedger-refl s.db
  SameLedger-store_unknown now (create_dispatch id vm_id phase request target) s =
      SameLedger-with_operation id now _ _ (λ b. Unmoved-mark_create_unknown phase) s
  SameLedger-store_unknown now (start_dispatch id vm_id target) s =
      SameLedger-with_operation id now _ _ (λ b. Unmoved-mark_start_unknown) s
  SameLedger-store_unknown now (lifecycle_dispatch id vm_id command target) s =
      SameLedger-with_operation id now _ _ (λ b. Unmoved-mark_lifecycle_unknown) s

  -- What is stored after a command: neither a result nor its absence counts an attempt.
  pub SameLedger-store_outcome :
      (now : ℕ) (d : Dispatch) (r : Result Reply) (s : Server W)
      → SameLedger s.db (store_outcome now d r s).1.db
  unfolding store_outcome catch
  SameLedger-store_outcome now d (ok reply) s =
      logged_ledger (store_reply now d reply) s (SameLedger-store_reply now d reply s)
  SameLedger-store_outcome now d (err e) s =
      logged_ledger (store_unknown now d) s (SameLedger-store_unknown now d s)
