-- ===== src/Operations/Start.antt =====
-- The operation vm.start.
use server_npd.Prelude.{
  option_case, Option, none, some, [], ◌∷◌, ◌+◌, ◌||◌, ◌&&◌, not, is_some, if◌then◌else◌, is_text,
  text_in,
}
use server_npd.Outcome.{runtime_error, Done, Exec, pure, need, raise_if, ◌>>=◌, ◌>>◌}
use server_npd.Models.{OperationStatus, is_status, is_type, vm_start, VmStatus}
use server_npd.Proxmox.{
  task_state_case, ProviderPlacement, ProviderTask, PowerState, is_power, targets, ProxmoxAdapter,
}
use server_npd.Operations.Session.{
  Session, in_session, the_operation, the_time, set_operation, set_vm_status, get_vm,
  get_lifecycle_vm,
}
use server_npd.Operations.Create.Refresh.{failure_code}

module _ {W : Type 0} (adapter : ProxmoxAdapter W) where
  unfoldable pub process_start_vm_operation : Exec (Session W) Done
  process_start_vm_operation = do
    o ← the_operation
    raise_if (not (is_type o.operation_type vm_start)) (runtime_error "invalid operation type")
    raise_if (not (is_status o.status OperationStatus.processing))
        (runtime_error "operation cannot be processed")
    vm ← get_vm "virtual machine is missed"
    node ← need vm.provider_node (runtime_error "virtual machine provider node is missed")
    vmid ← need vm.provider_vmid (runtime_error "virtual machine provider vmid is missed")
    task_id ← need o.provider_task_id (runtime_error "processing operation has no provider task")
    task_status ←
        in_session
          (adapter.get_task_status (record { task_id = task_id; vmid = vmid; node = node }))
    task_state_case task_status.status
        (do
          now ← the_time
          set_operation
              λ o. record o { phase = some "await_task"; last_error_code = none; updated_at = now })
        (do
          set_operation λ o. record o {
            status = OperationStatus.succeeded;
            phase = some "complete";
            provider_task_id = none;
            last_error_code = none;
          }
          set_vm_status vm VmStatus.running)
        (set_operation λ o. record o {
          status = OperationStatus.failed;
          last_error_code = some (failure_code task_status.error_code);
        })

  unfoldable pub reconcile_start_vm_operation : Exec (Session W) Done
  reconcile_start_vm_operation = do
    o ← the_operation
    raise_if
        (not (is_type o.operation_type vm_start)
          || not (is_status o.status OperationStatus.processing))
        (runtime_error "invalid VM start operation")
    raise_if (not (text_in o.phase ("dispatching" ∷ "reconcile" ∷ [])))
        (runtime_error "VM start does not need reconciliation")
    raise_if (is_some o.provider_task_id)
        (runtime_error "reconciling operation already has a provider task")
    (vm, place) ← get_lifecycle_vm
    state ← in_session (adapter.get_vm_power_state vm.id place)
    now ← the_time
    if is_power state.status PowerState.running && not state.locked
        then (do
          set_operation λ o. record o {
            status = OperationStatus.succeeded;
            phase = some "complete";
            last_error_code = none;
          }
          set_vm_status vm VmStatus.running)
        else set_operation (λ o. record o {
          phase = some "reconcile";
          last_error_code = some "provider_outcome_unknown";
          updated_at = now;
        })

module _ {W : Type 0} where
  unfoldable pub prepare_start_vm_dispatch : Exec (Session W) ProviderPlacement
  prepare_start_vm_dispatch = do
    o ← the_operation
    raise_if
        (not (is_type o.operation_type vm_start)
          || not (is_status o.status OperationStatus.pending))
        (runtime_error "operation is not a pending VM start")
    raise_if (is_some o.provider_task_id)
        (runtime_error "pending operation already has a provider task")
    (vm, place) ← get_lifecycle_vm
    now ← the_time
    set_operation λ o. record o {
      status = OperationStatus.processing;
      phase = some "dispatching";
      attempts = o.attempts + 1;
      updated_at = now;
    }
    pure place

  unfoldable pub finish_start_vm_dispatch : Option ProviderTask → Exec (Session W) Done
  finish_start_vm_dispatch result = do
    o ← the_operation
    raise_if (not (is_type o.operation_type vm_start) || not (is_text o.phase "dispatching"))
        (runtime_error "VM start is not dispatching")
    raise_if (not (is_status o.status OperationStatus.processing) || is_some o.provider_task_id)
        (runtime_error "invalid VM start dispatch state")
    (vm, place) ← get_lifecycle_vm
    option_case result
        (do
          set_operation λ o. record o {
            status = OperationStatus.succeeded;
            phase = some "complete";
            last_error_code = none;
          }
          set_vm_status vm VmStatus.running)
        (λ task. do
          raise_if (not (targets task place))
              (runtime_error "provider task targets another virtual machine")
          set_operation λ o. record o {
            provider_task_id = some task.task_id;
            phase = some "await_task";
            last_error_code = none;
          })
