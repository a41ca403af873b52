-- ===== src/VirtualMachines/Enqueue/Live.antt =====
-- Enqueueing is once for each key, and leaves a machine at most one live operation.
use server_npd.Prelude.{
  ℕ, String, ◌≡◌, ◌≤◌, ◌+◌, inl, inr, arith, refl, sym, subst, ap, ◌∙◌, true, none, some, List, [],
  ◌∷◌, ◌==◌, ◌&&◌, str_eq_refl, if◌then◌else◌, Bool-cases,
}
use server_npd.Prelude.Rows.{first}
use server_npd.Outcome.{Result, ok, ◌>>=◌}
use server_npd.Outcome.Guards.{after_gets, after_some}
use server_npd.Models.{
  Db, Operation, OperationType, is_type, vm_create, vm_start, vm_shutdown, vm_stop, vm_reboot,
  vm_delete, VirtualMachine, VmStatus,
}
use server_npd.VirtualMachines.Creation.{Environment}
use server_npd.Outcome.Integrity.{after_except}
use server_npd.VirtualMachines.Enqueue.{
  allowed_status, is_live, active_operation, add_or_replay, enqueue_vm_operation,
}
use server_npd.VirtualMachines.Enqueue.Single.{
  owned_vm, id-owned_vm, IsRepeat, Enqueued, refused, repeated, enqueued,
  enqueue_vm_operation-Enqueued,
}

is_type_refl : (t : OperationType) → is_type t t ≡ true
is_type_refl t = ground arith

IsRepeat-Enqueued :
    (env : Environment) (user_id vm_id : ℕ) (t : OperationType) (key : String) (db db' : Db)
    (o : Operation)
    → Enqueued env user_id vm_id t key db (ok o, db')
    → IsRepeat vm_id t key db' o
unfolding first
IsRepeat-Enqueued env user_id vm_id t key db db' o (repeated _ _ _ h) = h
IsRepeat-Enqueued env user_id vm_id t key db db' o (enqueued h) = record {
  keyed = rw (str_eq_refl key) refl;
  same_vm = ground arith;
  same_type = is_type_refl t;
}

module _ (env : Environment) (user_id vm_id : ℕ) (t : OperationType) (key : String) (db : Db)
    (o : Operation) where
  abbrev Same : Result Operation × Db → Type 0
  Same q = q ≡ (ok o, db)

  repeat :
      (vm : VirtualMachine) (allowed : VmStatus)
      → IsRepeat vm.id t key db o
      → Same (add_or_replay env vm t allowed key db)
  unfolding add_or_replay ◌>>=◌
  repeat vm allowed h = rw (h.keyed, h.same_vm, h.same_type) refl

  enqueue-IsRepeat :
      (vm : VirtualMachine)
      → owned_vm user_id vm_id db ≡ some vm
      → (allowed : VmStatus) → allowed_status t ≡ some allowed
      → IsRepeat vm_id t key db o
      → enqueue_vm_operation env user_id vm_id t key db ≡ (ok o, db)
  unfolding enqueue_vm_operation
  enqueue-IsRepeat vm owned allowed is_allowed h =
      let same = id-owned_vm user_id vm_id db owned in
      after_some Same _ _ is_allowed (
        after_gets Same _ _ (
          after_some Same _ _ owned (
            after_except Same _ _ (ok o, db)
              (repeat vm allowed (subst (λ i. IsRepeat i t key db o) (sym same) h)) refl)))

enqueue-supported :
    (env : Environment) (user_id vm_id : ℕ) (t : OperationType) (key : String) (db : Db)
    (o : Operation) {db' : Db}
    → enqueue_vm_operation env user_id vm_id t key db ≡ (ok o, db')
    → (allowed : VmStatus) × (allowed_status t ≡ some allowed)
unfolding enqueue_vm_operation ◌>>=◌
enqueue-supported env user_id vm_id vm_create key db o e = cc
enqueue-supported env user_id vm_id vm_start key db o e = (_, refl)
enqueue-supported env user_id vm_id vm_shutdown key db o e = (_, refl)
enqueue-supported env user_id vm_id vm_stop key db o e = (_, refl)
enqueue-supported env user_id vm_id vm_reboot key db o e = (_, refl)
enqueue-supported env user_id vm_id vm_delete key db o e = (_, refl)

-- A request that succeeded gives the same operation when it is sent again with its key, and changes
-- nothing the second time, as long as the machine is still the user's.
pub enqueue_vm_operation-again :
    (env env' : Environment) (user_id vm_id : ℕ) (t : OperationType) (key : String) (db db' : Db)
    (o : Operation) (vm : VirtualMachine)
    → enqueue_vm_operation env user_id vm_id t key db ≡ (ok o, db')
    → owned_vm user_id vm_id db' ≡ some vm
    → enqueue_vm_operation env' user_id vm_id t key db' ≡ (ok o, db')
enqueue_vm_operation-again env env' user_id vm_id t key db db' o vm e owned =
    enqueue-IsRepeat env' user_id vm_id t key db' o vm owned supported.0 supported.1 (
      IsRepeat-Enqueued env user_id vm_id t key db db' o (
        subst (Enqueued env user_id vm_id t key db) e
          (enqueue_vm_operation-Enqueued env user_id vm_id t key db)))
  where
    supported : (allowed : VmStatus) × (allowed_status t ≡ some allowed)
    supported = enqueue-supported env user_id vm_id t key db o e

-- How many operations of a machine have not come to an end.
unfoldable pub live_operations : ℕ → List Operation → ℕ
live_operations vm_id [] = 0
live_operations vm_id (o ∷ os) =
    (if o.virtual_machine_id == vm_id && is_live o then 1 else 0) + live_operations vm_id os

live-active_operation :
    (vm_id : ℕ) (os : List Operation)
    → first (λ o. o.virtual_machine_id == vm_id && is_live o) os ≡ none
    → live_operations vm_id os ≡ 0
unfolding first live_operations
live-active_operation vm_id [] h = refl
live-active_operation vm_id (o ∷ os) h = ground (arith, live-active_operation vm_id os)

-- If other transactions leave the machine's active operation as it was while the request runs (the
-- request holds the machine's row), and no machine has two live operations before it nor by the
-- other transactions, then none has two after it, whatever it returns.
pub enqueue_vm_operation-live :
    (env : Environment) (user_id vm_id : ℕ) (t : OperationType) (key : String) (db : Db)
    → active_operation vm_id (env.others db) ≡ active_operation vm_id db
    → ((i : ℕ) → live_operations i db.operations ≤ 1)
    → ((i : ℕ) → live_operations i (env.others db).operations ≤ 1)
    → (i : ℕ) → live_operations i (enqueue_vm_operation env user_id vm_id t key db).1.operations ≤ 1
unfolding live_operations active_operation
enqueue_vm_operation-live env user_id vm_id t key db calm one others_one i =
    go _ (enqueue_vm_operation-Enqueued env user_id vm_id t key db)
  where
    go :
        (q : Result Operation × Db)
        → Enqueued env user_id vm_id t key db q
        → live_operations i q.1.operations ≤ 1
    go _ (refused _ _ (inl same)) = rw same (one i)
    go _ (refused _ _ (inr same)) = rw same (others_one i)
    go _ (repeated _ _ (inl same) _) = rw same (one i)
    go _ (repeated _ _ (inr same) _) = rw same (others_one i)
    go _ (enqueued h) = elim (Bool-cases (vm_id == i)) [
      | inl same ↦
          let at : vm_id ≡ i = ground arith in
          let idle : live_operations vm_id (env.others db).operations ≡ 0 =
            live-active_operation vm_id (env.others db).operations (calm ∙ h.idle) in
          ground (arith, ap (λ j. live_operations j (env.others db).operations) at)
      | inr other ↦ ground (arith, others_one i)
    ]
