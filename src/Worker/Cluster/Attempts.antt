-- ===== src/Worker/Cluster/Attempts.antt =====
-- A command is sent at most as often as the table counts an attempt.
use server_npd.Prelude.{
  ap, ℕ, ◌≡◌, ◌≤◌, ◌+◌, ◌==◌, arith, refl, Bool, Option, some, none, List, [], ◌∷◌, ◌++◌,
  if◌then◌else◌, inl, inr, Bool-cases,
}
use server_npd.Prelude.Rows.{row, HasKey, row-IsIn}
use server_npd.Outcome.{Result, ok, err, pure, ◌>>=◌}
use server_npd.Models.{Db, Operation}
use server_npd.Proxmox.{ProxmoxAdapter}
use server_npd.Operations.Session.{Session}
use server_npd.Worker.Claim.{next_operation}
use server_npd.Worker.Claim.Order.{next_operation-Chosen, Chosen}
use server_npd.Worker.Step.{
  Dispatch, no_dispatch, create_dispatch, start_dispatch, lifecycle_dispatch, step,
}
use server_npd.Worker.Transaction.{Server, open_session, close_transaction, vmids_are_unique}
use server_npd.Worker.Round.{claim_and_step}
use server_npd.Worker.Ledger.{
  operation_id, attempts_of, attempts_of-written, attempts_of-row, written-HasKey,
  SameLedger-store_outcome,
}
use server_npd.Worker.Frame.Reads.{IsReadOnly, Mark, mark}
use server_npd.Worker.Frame.Took.{Took}
use server_npd.Worker.Frame.Steps.{Took-step}
use server_npd.Worker.Cluster.{
  Cluster, launched, Move, claim, call, store, crash, crash_after_call, request, Run, here, next,
  is_for, commands_for,
}

abbrev weight : ℕ → Dispatch → ℕ
weight i d = if is_for i d then 1 else 0

-- A step that commits counts its command, if it has one, for its own operation.
Took-weight :
    {W : Type 0} (b : Mark W) (d : Dispatch) (t : Session W)
    → Took b (ok d) t
    → (t.operation.id ≡ b.id)
      × ((i : ℕ)
          → weight i d + b.attempts ≡ (if b.id == i then t.operation.attempts else b.attempts))
Took-weight b no_dispatch t took = (took.1, λ i. ground arith)
Took-weight b (create_dispatch id _ _ _ _) t took = (took.1.1, λ i. ground arith)
Took-weight b (start_dispatch id _ _) t took = (took.1.1, λ i. ground arith)
Took-weight b (lifecycle_dispatch id _ _ _) t took = (took.1.1, λ i. ground arith)

-- What a claim may do to the count of an operation, against what it puts in flight.
abbrev Counted : Db → Result (Option Dispatch) → Db → Type 0
Counted db r db' =
    (HasKey operation_id db.operations → HasKey operation_id db'.operations)
    × ((i : ℕ) → commands_for i (launched r []) + attempts_of i db ≤ attempts_of i db')

Counted-refl : (db : Db) → Counted db (ok none) db
unfolding commands_for
Counted-refl db = (λ h. h, λ i. omega arith)

module _ {W : Type 0} (s : Server W) (o : Operation) (now : ℕ)
    (found : row operation_id o.id s.db.operations ≡ some o) where
  Counted-close :
      (r : Result Dispatch) (t : Session W)
      → Took (mark (open_session s o now)) r t
      → let (q, s') = close_transaction s o (((λ _. (r, t)) >>= λ d. pure (some d)) t) in
        Counted s.db q s'.db
  unfolding close_transaction commands_for ◌>>=◌
  Counted-close (err e) t took = (λ h. h, λ i. omega arith)
  Counted-close (ok d) t took = elim (Bool-cases (vmids_are_unique t.virtual_machines)) [
    | inl unique ↦
        let (same, count) = Took-weight (mark (open_session s o now)) d t took in
        rw unique (
          written-HasKey s.db o t found same,
          λ i.
              ground (
                arith,
                attempts_of-written s.db o t found same i,
                count i,
                attempts_of-row i o s.db,
              ),
        )
    | inr clash ↦ rw clash (λ h. h, λ i. omega arith)
  ]

module _ {W : Type 0} {adapter : ProxmoxAdapter W} (reads : IsReadOnly adapter) where
  Counted-claim :
      (locked : ℕ → Bool) (now : ℕ) (s : Server W)
      → HasKey operation_id s.db.operations
      → let (r, s') = claim_and_step adapter locked now s in Counted s.db r s'.db
  unfolding claim_and_step step ◌>>=◌
  Counted-claim locked now s keyed = chosen _ refl (next_operation-Chosen locked now s.db)
    where
      chosen :
          (found : Option Operation)
          → next_operation locked now s.db ≡ found
          → Chosen locked now s.db (next_operation locked now s.db)
          → let (r, s') = claim_and_step adapter locked now s in Counted s.db r s'.db
      chosen none e c = rw e (Counted-refl s.db)
      chosen (some o) e c =
          let c' : Chosen locked now s.db (some o) = rw e at c in
          rw e (
            Counted-close s o now (row-IsIn operation_id keyed c'.0) _ _
              (Took-step reads (open_session s o now)))

-- The table is keyed, and no operation has more commands sent or in flight than it has attempts.
pub record IsCounted {W : Type 0} (c : Cluster W) : Type 0 where
  pub keyed : HasKey operation_id c.server.db.operations
  pub within :
      (i : ℕ) → commands_for i c.in_flight + commands_for i c.sent ≤ attempts_of i c.server.db

commands_for-middle :
    (i : ℕ) (before after : List Dispatch) (d : Dispatch)
    → commands_for i (before ++ d ∷ after) ≡ commands_for i (before ++ after) + weight i d
unfolding commands_for
commands_for-middle i [] after d = omega arith
commands_for-middle i (x ∷ before) after d = omega (arith, commands_for-middle i before after d)

commands_for-launched :
    (i : ℕ) (r : Result (Option Dispatch)) (ds : List Dispatch)
    → commands_for i (launched r ds) ≡ commands_for i (launched r []) + commands_for i ds
unfolding commands_for
commands_for-launched i (ok none) ds = omega arith
commands_for-launched i (ok (some d)) ds = omega arith
commands_for-launched i (err e) ds = omega arith

attempts_of-request :
    (i : ℕ) (o : Operation) (db : Db)
    → row operation_id o.id db.operations ≡ none
    → attempts_of i db ≤ attempts_of i (record db { operations = o ∷ db.operations })
unfolding attempts_of row
attempts_of-request i o db fresh = ground arith

module _ {W : Type 0} {adapter : ProxmoxAdapter W} (reads : IsReadOnly adapter) where
  Move-IsCounted : {c e : Cluster W} → Move adapter c e → IsCounted c → IsCounted e
  unfolding commands_for
  Move-IsCounted (claim c locked now) h =
      let (k, n) = Counted-claim reads locked now c.server h.keyed in
      record {
        keyed = k h.keyed;
        within = λ i. omega (
          arith,
          n i,
          h.within i,
          commands_for-launched i (claim_and_step adapter locked now c.server).0 c.in_flight,
        );
      }
  Move-IsCounted (call c before after d e) h = record {
    keyed = h.keyed;
    within =
        λ i. omega (arith, h.within i, ap (commands_for i) e, commands_for-middle i before after d);
  }
  Move-IsCounted (store c before after a now e) h =
      let l = SameLedger-store_outcome now a.dispatch a.outcome c.server in
      record { keyed = l.keyed h.keyed; within = λ i. omega (arith, h.within i, l.counts i) }
  Move-IsCounted (crash c before after d e) h = record {
    keyed = h.keyed;
    within =
        λ i. omega (arith, h.within i, ap (commands_for i) e, commands_for-middle i before after d);
  }
  Move-IsCounted (crash_after_call c before after a e) h = record {
    keyed = h.keyed;
    within = h.within;
  }
  Move-IsCounted (request c o fresh) h = record {
    keyed = (fresh, h.keyed);
    within = λ i. omega (arith, h.within i, attempts_of-request i o c.server.db fresh);
  }

  Run-IsCounted : {c e : Cluster W} → IsCounted c → Run adapter c e → IsCounted e
  Run-IsCounted h here = h
  Run-IsCounted h (next r m) = Move-IsCounted m (Run-IsCounted h r)

  -- From any database whose operations have distinct keys, with no command sent or held: however
  -- the workers' transactions and calls interleave, wherever workers die, and whatever operations
  -- users add, the provider has been sent no more commands for an operation than the table counts
  -- attempts of it. (The adapter's queries are assumed to change nothing at the provider.)
  pub sent-le-attempts :
      {c e : Cluster W}
      → HasKey operation_id c.server.db.operations
      → c.in_flight ≡ []
      → c.sent ≡ []
      → Run adapter c e
      → (i : ℕ) → commands_for i e.sent ≤ attempts_of i e.server.db
  unfolding commands_for
  sent-le-attempts {c} {e} keyed idle unsent r i =
      let start : IsCounted c = record {
        keyed = keyed;
        within = λ j. rw (idle, unsent) (omega arith);
      } in
      omega (arith, (Run-IsCounted start r).within i)
