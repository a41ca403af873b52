-- ===== src/VirtualMachines/Router.antt =====
-- portal/app/virtual_machines/router.py, and the handlers of portal/app/web/router.py that post a
-- form: the answers to requests about machines, for the user that the session belongs to. A service
-- that raises has added nothing, so the rollback before an answer is no step.
use server_npd.Prelude.{ℕ, String, Bool, Option, List, ◌==◌, ◌&&◌, is_some}
use server_npd.Prelude.Rows.{first, select}
use server_npd.Prelude.Sorting.{order_desc}
use server_npd.Outcome.{
  Error, permission_error, value_error, lookup_error, http_exception, Done, Exec, pure, raise, gets,
  need, catch, ◌>>=◌, ◌>>◌,
}
use server_npd.Models.{
  Db, Operation, OperationType, vm_start, vm_shutdown, vm_stop, vm_reboot, vm_delete,
  VirtualMachine,
}
use server_npd.VirtualMachines.Creation.{VirtualMachineCreate, Environment, create_vm}
use server_npd.VirtualMachines.Enqueue.{enqueue_vm_operation}

unfoldable pub my_vms : ℕ → Exec Db (List VirtualMachine)
my_vms user_id = gets (λ db.
    order_desc (λ v. v.created_at) (select (λ v. v.owner_user_id == user_id) db.virtual_machines))

-- The exception handlers of a create request and of a lifecycle request.
unfoldable pub create_answer : Error → Error
create_answer (permission_error message) = http_exception 403 message
create_answer (value_error message) = http_exception 409 message
create_answer e = e

unfoldable pub lifecycle_answer : Error → Error
lifecycle_answer (lookup_error message) = http_exception 404 message
lifecycle_answer (value_error message) = http_exception 409 message
lifecycle_answer e = e

unfoldable pub create_my_vm :
    Environment → ℕ → VirtualMachineCreate → String → Exec Db VirtualMachine
create_my_vm env user_id request_model idempotency_key =
    catch (create_vm env user_id request_model idempotency_key) (λ e. raise (create_answer e))

unfoldable pub enqueue_lifecycle_operation :
    Environment → ℕ → ℕ → OperationType → String → Exec Db Operation
enqueue_lifecycle_operation env user_id vm_id operation_type idempotency_key =
    catch (enqueue_vm_operation env user_id vm_id operation_type idempotency_key)
      (λ e. raise (lifecycle_answer e))

module _ (env : Environment) (user_id vm_id : ℕ) (idempotency_key : String) where
  unfoldable pub start_my_vm : Exec Db Operation
  start_my_vm = enqueue_lifecycle_operation env user_id vm_id vm_start idempotency_key

  unfoldable pub shutdown_my_vm : Exec Db Operation
  shutdown_my_vm = enqueue_lifecycle_operation env user_id vm_id vm_shutdown idempotency_key

  unfoldable pub stop_my_vm : Exec Db Operation
  stop_my_vm = enqueue_lifecycle_operation env user_id vm_id vm_stop idempotency_key

  unfoldable pub reboot_my_vm : Exec Db Operation
  reboot_my_vm = enqueue_lifecycle_operation env user_id vm_id vm_reboot idempotency_key

  unfoldable pub delete_my_vm : Exec Db Operation
  delete_my_vm = enqueue_lifecycle_operation env user_id vm_id vm_delete idempotency_key

-- The join with the machines of the user, on the key of the machine.
abbrev pub is_owned : ℕ → ℕ → Db → Bool
is_owned user_id vm_id db =
    is_some (first (λ v. v.id == vm_id && v.owner_user_id == user_id) db.virtual_machines)

unfoldable pub operation_status : ℕ → ℕ → ℕ → Exec Db Operation
operation_status user_id vm_id operation_id = do
  operation ← gets (λ db.
      first
        (λ o. o.id == operation_id && o.virtual_machine_id == vm_id && is_owned user_id vm_id db)
        db.operations)
  need operation (http_exception 404 "Operation not found")

-- A form of the dashboard: what pydantic and UUID make of its fields, `none` where they raise.
unfoldable pub dashboard_vms :
    Environment → ℕ → Option (VirtualMachineCreate × String) → Exec Db Done
dashboard_vms env user_id form = do
  (request_model, idempotency_key) ← need form (http_exception 422 "Invalid VM form")
  create_my_vm env user_id request_model idempotency_key
  pure tt

unfoldable pub dashboard_vm_start : Environment → ℕ → ℕ → Option String → Exec Db Done
dashboard_vm_start env user_id vm_id form = do
  idempotency_key ← need form (http_exception 422 "Invalid idempotency key")
  enqueue_lifecycle_operation env user_id vm_id vm_start idempotency_key
  pure tt
