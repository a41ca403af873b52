-- ===== src/Worker/Isolation.antt =====
-- A transaction of the worker writes the row of one operation.
use server_npd.Prelude.{
  ℕ, String, ◌≡◌, ◌≢◌, ◌==◌, arith, refl, sym, ◌∙◌, false, inl, inr, Bool-cases, Option-cases,
}
use server_npd.Prelude.Rows.{row, row-put_row_ne, key-row}
use server_npd.Outcome.{Exec, Result, ok, err, Done, catch, pure}
use server_npd.Outcome.Keeps.{Keeps}
use server_npd.Models.{Db, Operation}
use server_npd.Operations.Session.{Session}
use server_npd.Worker.Transaction.{
  Server, open_session, stamp, written, vmids_are_unique, close_transaction, with_operation,
}
use server_npd.Worker.Frame.Reads.{Mark, mark, Unmoved, Unmoved-refl}
use server_npd.Worker.Frame.Stores.{
  Unmoved-finish_create, Unmoved-finish_start, Unmoved-finish_lifecycle,
  Unmoved-mark_create_unknown, Unmoved-mark_start_unknown, Unmoved-mark_lifecycle_unknown,
}
use server_npd.Worker.Step.{
  Dispatch, no_dispatch, create_dispatch, start_dispatch, lifecycle_dispatch,
}
use server_npd.Worker.Submit.{
  Reply, create_reply, start_reply, lifecycle_reply, store_reply, store_unknown,
}
use server_npd.Worker.Round.{logged, store_outcome}
use server_npd.Worker.Ledger.{operation_id, id-stamp}
use server_npd.Worker.Cluster.{is_for}

-- The row of an operation is the same in both.
abbrev pub SameRow : ℕ → Db → Db → Type 0
SameRow i a b = row operation_id i b.operations ≡ row operation_id i a.operations

module _ {W A : Type 0} (s : Server W) (o : Operation) where
  pub SameRow-close_transaction :
      (r : Result A) (t : Session W) (i : ℕ)
      → t.operation.id ≡ o.id
      → o.id ≢ i
      → SameRow i s.db (close_transaction s o (r, t)).1.db
  unfolding close_transaction written
  SameRow-close_transaction (err e) t i same other = refl
  SameRow-close_transaction (ok a) t i same other =
      elim (Bool-cases (vmids_are_unique t.virtual_machines)) [
        | inl unique ↦ rw unique (
            row-put_row_ne operation_id i (stamp t.now o t.operation) s.db.operations
              (λ e. other (sym same ∙ sym (id-stamp t.now o t.operation) ∙ e)))
        | inr clash ↦ rw clash refl
      ]

module _ {W : Type 0} where
  SameRow-with_operation :
      {A : Type 0} (id now : ℕ) (message : String) (body : Exec (Session W) A)
      → ((b : Mark W) → Keeps (Unmoved b) body)
      → (s : Server W) (i : ℕ) → (id == i) ≡ false
      → SameRow i s.db (with_operation id now message body s).1.db
  unfolding with_operation
  SameRow-with_operation id now message body keeps s i other =
      elim (Option-cases (row operation_id id s.db.operations)) [
        | inl missing ↦ rw missing refl
        | inr (o, found) ↦
            let begun = open_session s o now in
            let u = (keeps (mark begun)).at begun (Unmoved-refl begun) in
            let same : o.id ≡ id = key-row operation_id id s.db.operations found in
            rw found (
              SameRow-close_transaction s o (body begun).0 (body begun).1 i u.1 (λ e. ground arith))
      ]

  logged_row :
      (i : ℕ) (m : Exec (Server W) Done) (s : Server W)
      → SameRow i s.db (m s).1.db
      → SameRow i s.db (logged m s).1.db
  unfolding catch pure
  logged_row i m s h = after (m s).0 (m s).1 h
    where
      after :
          (r : Result Done) (t : Server W)
          → SameRow i s.db t.db
          → SameRow i s.db (logged (λ _. (r, t)) s).1.db
      after (ok a) t k = k
      after (err e) t k = k

  SameRow-store_reply :
      (now : ℕ) (d : Dispatch) (r : Reply) (s : Server W) (i : ℕ)
      → is_for i d ≡ false
      → SameRow i s.db (store_reply now d r s).1.db
  unfolding store_reply pure
  SameRow-store_reply now (create_dispatch id vm_id phase request target) (create_reply result) s i
        other =
      SameRow-with_operation id now _ _ (λ b. Unmoved-finish_create phase result) s i other
  SameRow-store_reply now (start_dispatch id vm_id target) (start_reply task) s i other =
      SameRow-with_operation id now _ _ (λ b. Unmoved-finish_start task) s i other
  SameRow-store_reply now (lifecycle_dispatch id vm_id command target) (lifecycle_reply result) s i
        other =
      SameRow-with_operation id now _ _ (λ b. Unmoved-finish_lifecycle result) s i other
  SameRow-store_reply now d r s i other = refl

  SameRow-store_unknown :
      (now : ℕ) (d : Dispatch) (s : Server W) (i : ℕ)
      → is_for i d ≡ false
      → SameRow i s.db (store_unknown now d s).1.db
  unfolding store_unknown pure
  SameRow-store_unknown now no_dispatch s i other = refl
  SameRow-store_unknown now (create_dispatch id vm_id phase request target) s i other =
      SameRow-with_operation id now _ _ (λ b. Unmoved-mark_create_unknown phase) s i other
  SameRow-store_unknown now (start_dispatch id vm_id target) s i other =
      SameRow-with_operation id now _ _ (λ b. Unmoved-mark_start_unknown) s i other
  SameRow-store_unknown now (lifecycle_dispatch id vm_id command target) s i other =
      SameRow-with_operation id now _ _ (λ b. Unmoved-mark_lifecycle_unknown) s i other

  -- Whatever a command's outcome, and whatever has become of its operation: storing the outcome
  -- leaves the row of every other operation as it was.
  pub SameRow-store_outcome :
      (now : ℕ) (d : Dispatch) (r : Result Reply) (s : Server W) (i : ℕ)
      → is_for i d ≡ false
      → SameRow i s.db (store_outcome now d r s).1.db
  unfolding store_outcome catch
  SameRow-store_outcome now d (ok reply) s i other =
      logged_row i (store_reply now d reply) s (SameRow-store_reply now d reply s i other)
  SameRow-store_outcome now d (err e) s i other =
      logged_row i (store_unknown now d) s (SameRow-store_unknown now d s i other)
