-- ===== src/VirtualMachines/Enqueue.antt =====
-- `enqueue_vm_operation`: a lifecycle operation, once for each idempotency key, and one at a time
-- for each machine.
pub mod Single
pub mod Live
use server_npd.Prelude.{
  ℕ, String, Bool, true, false, Option, none, some, List, [], ◌∷◌, ◌==◌, ◌&&◌, ◌||◌, not, is_some,
  if◌then◌else◌, option_case, ◌<>◌,
}
use server_npd.Prelude.Rows.{first}
use server_npd.Outcome.{
  value_error, lookup_error, Exec, pure, raise, gets, need, raise_if, ◌>>=◌, ◌>>◌,
}
use server_npd.Models.{
  Db, Operation, OperationStatus, is_status, OperationType, is_type, vm_create, vm_start,
  vm_shutdown, vm_stop, vm_reboot, vm_delete, VirtualMachine, VmStatus, is_vm_status,
}
use server_npd.Outcome.Integrity.{except_integrity}
use server_npd.VirtualMachines.Creation.{Environment, new_operation, flush_rows, by_key}

-- `allowed_statuses`, in which each operation has the one status that it may begin in.
abbrev pub allowed_status : OperationType → Option VmStatus
allowed_status vm_create = none
allowed_status vm_start = some VmStatus.stopped
allowed_status vm_shutdown = some VmStatus.running
allowed_status vm_stop = some VmStatus.running
allowed_status vm_reboot = some VmStatus.running
allowed_status vm_delete = some VmStatus.stopped

-- The column's values, as the message shows them.
abbrev pub type_name : OperationType → String
type_name vm_create = "vm.create"
type_name vm_start = "vm.start"
type_name vm_shutdown = "vm.shutdown"
type_name vm_stop = "vm.stop"
type_name vm_reboot = "vm.reboot"
type_name vm_delete = "vm.delete"

abbrev pub vm_status_name : VmStatus → String
vm_status_name VmStatus.pending = "pending"
vm_status_name VmStatus.pending_capacity = "pending_capacity"
vm_status_name VmStatus.provisioning = "provisioning"
vm_status_name VmStatus.running = "running"
vm_status_name VmStatus.stopped = "stopped"
vm_status_name VmStatus.failed = "failed"
vm_status_name VmStatus.deleting = "deleting"
vm_status_name VmStatus.deleted = "deleted"

-- An operation that has not come to an end.
abbrev pub is_live : Operation → Bool
is_live o =
    is_status o.status OperationStatus.pending || is_status o.status OperationStatus.processing

unfoldable pub active_operation : ℕ → Db → Option Operation
active_operation vm_id db = first (λ o. o.virtual_machine_id == vm_id && is_live o) db.operations

abbrev pub first_phase : OperationType → Option String
first_phase t = if is_type t vm_reboot then some "shutdown" else none

-- The request is new: the checks, and the row.
unfoldable pub add_operation :
    Environment → VirtualMachine → OperationType → VmStatus → String → Exec Db Operation
add_operation env vm t allowed key = do
  active ← gets (active_operation vm.id)
  raise_if (is_some active) (value_error "virtual machine already has an active operation")
  raise_if (not (is_vm_status vm.status allowed)) (
      value_error
        ("cannot perform " <> (type_name t <> (" while VM is " <> vm_status_name vm.status))))
  let operation : Operation = new_operation env vm.id t (first_phase t) key
  flush_rows env none operation
  pure operation

unfoldable pub add_or_replay :
    Environment → VirtualMachine → OperationType → VmStatus → String → Exec Db Operation
add_or_replay env vm t allowed key = do
  existing ← gets (by_key key)
  option_case existing (add_operation env vm t allowed key) (λ o. do
    raise_if (not (o.virtual_machine_id == vm.id) || not (is_type o.operation_type t))
        (value_error "idempotency key already used")
    pure o)

abbrev pub same_request : ℕ → OperationType → Operation → Bool
same_request vm_id t o = o.virtual_machine_id == vm_id && is_type o.operation_type t

-- After the rollback: another transaction has taken the key.
unfoldable pub requeue_after_conflict : ℕ → OperationType → String → Exec Db Operation
requeue_after_conflict vm_id t key = do
  existing ← gets (by_key key)
  o ← need existing (value_error "idempotency key already used")
  raise_if (not (same_request vm_id t o)) (value_error "idempotency key already used")
  pure o

unfoldable pub enqueue_vm_operation :
    Environment → ℕ → ℕ → OperationType → String → Exec Db Operation
enqueue_vm_operation env user_id vm_id t key = do
  allowed ← need (allowed_status t) (value_error "unsupported VM operation")
  found ← gets (λ db. first (λ v. v.id == vm_id && v.owner_user_id == user_id) db.virtual_machines)
  vm ← need found (lookup_error "virtual machine not found")
  except_integrity (add_or_replay env vm t allowed key) (requeue_after_conflict vm_id t key)
