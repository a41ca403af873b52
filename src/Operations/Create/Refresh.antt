-- ===== src/Operations/Create/Refresh.antt =====
-- Polling the provider's task of a vm.create, and the choice of the step for a claimed operation.
use server_npd.Prelude.{
  String, Option, none, some, ◌<>◌, not, if◌then◌else◌, is_text, str_eq, shown,
}
use server_npd.Outcome.{runtime_error, Done, Exec, raise, need, raise_if, ◌>>=◌, ◌>>◌}
use server_npd.Models.{OperationStatus, is_status, is_type, vm_create, VirtualMachine, VmStatus}
use server_npd.Proxmox.{task_state_case, ProxmoxAdapter}
use server_npd.Operations.Session.{
  Session, in_session, the_operation, the_time, set_operation, set_vm_status, get_vm,
}
use server_npd.Operations.Create.Provision.{
  start_create_vm_operation, start_configure_vm_operation, start_resize_vm_operation,
  start_initial_vm_operation,
}

-- `task_status.error_code or "provider_task_failed"`: an empty code counts as none.
abbrev pub failure_code : Option String → String
failure_code none = "provider_task_failed"
failure_code (some code) = if str_eq code "" then "provider_task_failed" else code

module _ {W : Type 0} where
  -- The phase after a finished task, with what it makes of the operation and the machine.
  unfoldable pub advance_create : VirtualMachine → Option String → Exec (Session W) Done
  advance_create vm phase =
      if is_text phase "clone"
      then set_operation
          (λ o. record o { phase = some "configure"; status = OperationStatus.pending })
      else if is_text phase "configure"
      then set_operation (λ o. record o { phase = some "resize"; status = OperationStatus.pending })
      else if is_text phase "resize"
      then set_operation (λ o. record o { phase = some "start"; status = OperationStatus.pending })
      else if is_text phase "start"
      then (do
        set_operation λ o. record o { phase = some "complete"; status = OperationStatus.succeeded }
        set_vm_status vm VmStatus.running)
      else raise (runtime_error ("unsupported create phase: " <> shown phase))

module _ {W : Type 0} (adapter : ProxmoxAdapter W) where
  unfoldable pub refresh_create_vm_operation : Exec (Session W) Done
  refresh_create_vm_operation = do
    o ← the_operation
    raise_if (not (is_type o.operation_type vm_create)) (runtime_error "invalid operation type")
    raise_if (not (is_status o.status OperationStatus.processing))
        (runtime_error "operation is not processing")
    task_id ← need o.provider_task_id (runtime_error "operation has no provider task id")
    vm ← get_vm "virtual machine is missing"
    vmid ← need vm.provider_vmid (runtime_error "virtual machine has no provider VMID")
    node ← need vm.provider_node (runtime_error "virtual machine has no provider node")
    task_status ←
        in_session
          (adapter.get_task_status (record { task_id = task_id; vmid = vmid; node = node }))
    task_state_case task_status.status
        (do
          now ← the_time
          set_operation (λ o. record o { last_error_code = none; updated_at = now }))
        (do
          advance_create vm o.phase
          set_operation (λ o. record o { provider_task_id = none; last_error_code = none }))
        (do
          set_operation λ o. record o {
            status = OperationStatus.failed;
            last_error_code = some (failure_code task_status.error_code);
          }
          set_vm_status vm VmStatus.failed)

  unfoldable pub process_create_vm_operation : Exec (Session W) Done
  process_create_vm_operation = do
    o ← the_operation
    if is_status o.status OperationStatus.pending
        then (if is_text o.phase "clone"
            then start_create_vm_operation adapter
            else if is_text o.phase "configure"
            then start_configure_vm_operation adapter
            else if is_text o.phase "resize"
            then start_resize_vm_operation adapter
            else if is_text o.phase "start"
            then start_initial_vm_operation adapter
            else raise (runtime_error ("unsupported create phase: " <> shown o.phase)))
        else if is_status o.status OperationStatus.processing
        then refresh_create_vm_operation
        else raise (runtime_error "operation cannot be processed")
