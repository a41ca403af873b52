-- ===== src/VirtualMachines/Enqueue/Single.antt =====
-- How `enqueue_vm_operation` ends.
use server_npd.Prelude.{
  ℕ, String, ◌≡◌, ◌⊎◌, inl, inr, arith, refl, sym, subst, true, Option, none, some, List, [], ◌∷◌,
  ◌==◌, ◌&&◌, ◌||◌, not, option_case,
}
use server_npd.Prelude.Rows.{first}
use server_npd.Outcome.{Error, Result, ok, err, pure, raise_if, value_error, ◌>>◌}
use server_npd.Outcome.Guards.{after_raise_if, after_need, after_gets, after_ok, after_err}
use server_npd.Models.{
  Db, Operation, OperationType, is_type, VirtualMachine, VmStatus, is_vm_status,
}
use server_npd.VirtualMachines.Creation.{Environment, new_operation, by_key}
use server_npd.Outcome.Integrity.{Caught, after_except}
use server_npd.VirtualMachines.Creation.Quota.{flush_rows_cases}
use server_npd.VirtualMachines.Enqueue.{
  allowed_status, active_operation, first_phase, same_request, add_operation, add_or_replay,
  requeue_after_conflict, enqueue_vm_operation,
}

-- `select(VirtualMachine).where(id, owner_user_id)`
abbrev pub owned_vm : ℕ → ℕ → Db → Option VirtualMachine
owned_vm user_id vm_id db =
    first (λ (v : VirtualMachine). v.id == vm_id && v.owner_user_id == user_id) db.virtual_machines

-- An earlier request with this key was for this machine and this operation.
pub record IsRepeat (vm_id : ℕ) (t : OperationType) (key : String) (db : Db) (o : Operation)
    : Type 0 where
  pub keyed : by_key key db ≡ some o
  pub same_vm : o.virtual_machine_id == vm_id ≡ true
  pub same_type : is_type o.operation_type t ≡ true

-- The new row.
abbrev pub queued : Environment → ℕ → OperationType → String → Operation
queued env vm_id t key = new_operation env vm_id t (first_phase t) key

abbrev pub with_queued : Environment → ℕ → OperationType → String → Db → Db
with_queued env vm_id t key db = record db { operations = queued env vm_id t key ∷ db.operations }

-- A new operation is for a machine of the user that has no live operation and is in the one status
-- in which the operation may begin, under a key that no operation has.
pub record IsFresh (env : Environment) (user_id vm_id : ℕ) (t : OperationType) (key : String)
    (db : Db) : Type 0 where
  pub vm : VirtualMachine
  pub owned : owned_vm user_id vm_id db ≡ some vm
  pub allowed : VmStatus
  pub is_allowed : allowed_status t ≡ some allowed
  pub in_status : is_vm_status vm.status allowed ≡ true
  pub idle : active_operation vm_id db ≡ none
  pub free : by_key key (env.others db) ≡ none

-- How an enqueue ends: with an exception and nothing of the request in the tables, with the
-- operation of an earlier request, or with a new one.
pub data Enqueued (env : Environment) (user_id vm_id : ℕ) (t : OperationType) (key : String)
    (db : Db) : Result Operation × Db → Type 0 where
  refused :
      (e : Error) (db' : Db)
      → (db' ≡ db) ⊎ (db' ≡ env.others db)
      → Enqueued env user_id vm_id t key db (err e, db')
  repeated :
      (o : Operation) (db' : Db)
      → (db' ≡ db) ⊎ (db' ≡ env.others db)
      → IsRepeat vm_id t key db' o
      → Enqueued env user_id vm_id t key db (ok o, db')
  enqueued :
      IsFresh env user_id vm_id t key db
      → Enqueued env user_id vm_id t key db
          (ok (queued env vm_id t key), with_queued env vm_id t key (env.others db))

pub id-owned_vm :
    (user_id vm_id : ℕ) (db : Db) {vm : VirtualMachine}
    → owned_vm user_id vm_id db ≡ some vm
    → vm.id ≡ vm_id
unfolding first
id-owned_vm user_id vm_id db h = go db.virtual_machines h
  where
    go :
        (vms : List VirtualMachine) {vm : VirtualMachine}
        → first (λ (v : VirtualMachine). v.id == vm_id && v.owner_user_id == user_id) vms ≡ some vm
        → vm.id ≡ vm_id
    go [] {vm} e = cc
    go (v ∷ vs) {vm} e = ground (arith, go vs {vm = vm})

module _ (env : Environment) (user_id : ℕ) (t : OperationType) (key : String) (db : Db) where
  abbrev P : ℕ → Result Operation × Db → Type 0
  P vm_id q = Enqueued env user_id vm_id t key db q

  repeats :
      (vm_id : ℕ) (d : Db) (o : Operation)
      → by_key key d ≡ some o
      → same_request vm_id t o ≡ true
      → IsRepeat vm_id t key d o
  repeats vm_id d o keyed same = record {
    keyed = keyed;
    same_vm = ground arith;
    same_type = ground arith;
  }

  after_conflict : (vm_id : ℕ) → P vm_id (requeue_after_conflict vm_id t key (env.others db))
  unfolding requeue_after_conflict pure
  after_conflict vm_id = after_gets (P vm_id) _ _ (
      after_need (P vm_id) _ _ _ (refused _ _ (inr refl)) (λ o keyed.
        after_raise_if (P vm_id) _ _ _ (refused _ _ (inr refl))
          (λ same. repeated o _ (inr refl) (repeats vm_id _ o keyed (ground arith)))))

  module _ (vm : VirtualMachine) (owned : owned_vm user_id vm.id db ≡ some vm) (allowed : VmStatus)
      (is_allowed : allowed_status t ≡ some allowed) where
    abbrev Tried : Result Operation × Db → Type 0
    Tried q = Caught (P vm.id) (requeue_after_conflict vm.id t key) q

    Tried-add_operation : Tried (add_operation env vm t allowed key db)
    unfolding add_operation pure
    Tried-add_operation = after_gets Tried _ _ (
        after_raise_if Tried _ _ _ (inl (refl, refused _ _ (inl refl))) (λ idle.
          after_raise_if Tried _ _ _ (inl (refl, refused _ _ (inl refl))) (λ in_status.
            elim (flush_rows_cases env none (queued env vm.id t key) db) [
              | inl f ↦ after_err Tried _ _ f (inr (refl, after_conflict vm.id))
              | inr (free, f) ↦ after_ok Tried _ _ f (
                  enqueued (record {
                    vm = vm;
                    owned = owned;
                    allowed = allowed;
                    is_allowed = is_allowed;
                    in_status = ground arith;
                    idle = ground arith;
                    free = free;
                  }))
            ])))

    Tried-case :
        (found : Option Operation)
        → by_key key db ≡ found
        → Tried (
            option_case found
              (add_operation env vm t allowed key)
              (λ o.
                raise_if
                  (not (o.virtual_machine_id == vm.id) || not (is_type o.operation_type t))
                  (value_error "idempotency key already used")
                >> pure o)
              db)
    unfolding pure
    Tried-case none e = Tried-add_operation
    Tried-case (some o) e =
        after_raise_if Tried _ _ _ (inl (refl, refused _ _ (inl refl)))
          (λ same. repeated o db (inl refl) (repeats vm.id db o e (ground arith)))

    Tried-add_or_replay : Tried (add_or_replay env vm t allowed key db)
    unfolding add_or_replay
    Tried-add_or_replay = after_gets Tried _ _ (Tried-case _ refl)

module _ (env : Environment) (user_id vm_id : ℕ) (t : OperationType) (key : String) (db : Db) where
  caught :
      (vm : VirtualMachine)
      → owned_vm user_id vm_id db ≡ some vm
      → (allowed : VmStatus) → allowed_status t ≡ some allowed
      → Caught
          (Enqueued env user_id vm_id t key db)
          (requeue_after_conflict vm_id t key)
          (add_or_replay env vm t allowed key db)
  caught vm owned allowed is_allowed =
      let same = id-owned_vm user_id vm_id db owned in
      subst
        (λ i.
          Caught (Enqueued env user_id i t key db) (requeue_after_conflict i t key)
            (add_or_replay env vm t allowed key db))
        same
        (Tried-add_or_replay env user_id t key db vm
          (subst (λ i. owned_vm user_id i db ≡ some vm) (sym same) owned) allowed is_allowed)

  -- How `enqueue_vm_operation` ends, whatever the tables, the request, and the rows that other
  -- transactions commit meanwhile: nothing is added where it raises; otherwise the operation is
  -- that of an earlier equal request, or it is new, for a machine of the user with no live
  -- operation and in the one status that allows it.
  pub enqueue_vm_operation-Enqueued :
      Enqueued env user_id vm_id t key db (enqueue_vm_operation env user_id vm_id t key db)
  unfolding enqueue_vm_operation
  enqueue_vm_operation-Enqueued = after_need Q _ _ _ (refused _ _ (inl refl)) (λ allowed is_allowed.
      after_gets Q _ _ (
        after_need Q _ _ _ (refused _ _ (inl refl))
          (λ vm owned. after_except Q _ _ _ refl (caught vm owned allowed is_allowed))))
    where
      Q : Result Operation × Db → Type 0
      Q q = Enqueued env user_id vm_id t key db q
