-- ===== src/Operations/Lifecycle/Polling.antt =====
-- The handlers of a lifecycle operation that send a command or poll its task in one transaction.
-- The worker calls them for polling only.
use server_npd.Prelude.{
  option_case, none, some, [], ◌∷◌, ◌+◌, ◌||◌, ◌<>◌, not, is_some, if◌then◌else◌, is_text, text_in,
  shown,
}
use server_npd.Outcome.{runtime_error, Done, Exec, need, raise_if, ◌>>=◌, ◌>>◌}
use server_npd.Models.{
  Operation, OperationStatus, is_status, is_type, vm_shutdown, vm_stop, vm_reboot, vm_delete,
  VirtualMachine, VmStatus,
}
use server_npd.Proxmox.{
  submit_state_case, task_state_case, ProviderPlacement, ProviderTask, ProviderTaskStatus, targets,
  ProxmoxAdapter,
}
use server_npd.Operations.Session.{
  Session, in_session, the_operation, the_time, set_operation, set_vm_status, get_lifecycle_vm,
}
use server_npd.Operations.Create.Refresh.{failure_code}

module _ {W : Type 0} where
  abbrev touch : Exec (Session W) Done
  touch = do now ← the_time; set_operation (λ o. record o { updated_at = now })

  abbrev fail : ProviderTaskStatus → Exec (Session W) Done
  fail task_status = set_operation λ o. record o {
    status = OperationStatus.failed;
    last_error_code = some (failure_code task_status.error_code);
  }

  -- A task was submitted for the pending operation.
  abbrev submit : ProviderPlacement → ProviderTask → Exec (Session W) Done
  submit place task = do
    raise_if (not (targets task place))
        (runtime_error "provider task targets another virtual machine")
    set_operation λ o. record o {
      provider_task_id = some task.task_id;
      status = OperationStatus.processing;
      attempts = o.attempts + 1;
    }

module _ {W : Type 0} (adapter : ProxmoxAdapter W) where
  -- What a poll learns of the operation's task.
  abbrev poll_task : Operation → ProviderPlacement → Exec (Session W) ProviderTaskStatus
  poll_task o place = do
    task_id ← need o.provider_task_id (runtime_error "processing operation has no provider task")
    in_session (
        adapter.get_task_status
          (record { task_id = task_id; vmid = place.vmid; node = place.node }))

  -- The part of `process_power_off_vm_operation` for a pending operation.
  unfoldable pub send_power_off :
      Operation → VirtualMachine → ProviderPlacement → Exec (Session W) Done
  send_power_off o vm place = do
    raise_if (is_some o.provider_task_id)
        (runtime_error "pending operation already has a provider task")
    task ← in_session (
        if is_type o.operation_type vm_shutdown
        then adapter.shutdown_vm vm.id place
        else adapter.stop_vm vm.id place)
    option_case task
        (do
          set_operation λ o. record o {
            status = OperationStatus.succeeded;
            phase = some "complete";
            last_error_code = none;
          }
          set_vm_status vm VmStatus.stopped)
        (λ t. submit place t)

  unfoldable pub poll_power_off :
      Operation → VirtualMachine → ProviderPlacement → Exec (Session W) Done
  poll_power_off o vm place = do
    task_status ← poll_task o place
    task_state_case task_status.status (touch)
        (do
          set_operation λ o. record o {
            status = OperationStatus.succeeded;
            phase = some "complete";
            provider_task_id = none;
            last_error_code = none;
          }
          set_vm_status vm VmStatus.stopped)
        (fail task_status)

  unfoldable pub process_power_off_vm_operation : Exec (Session W) Done
  process_power_off_vm_operation = do
    o ← the_operation
    raise_if (not (is_type o.operation_type vm_shutdown || is_type o.operation_type vm_stop))
        (runtime_error "invalid operation type")
    raise_if
        (not (
          is_status o.status OperationStatus.pending
          || is_status o.status OperationStatus.processing))
        (runtime_error "operation cannot be processed")
    (vm, place) ← get_lifecycle_vm
    if is_status o.status OperationStatus.pending
        then send_power_off o vm place
        else poll_power_off o vm place

  unfoldable pub send_reboot :
      Operation → VirtualMachine → ProviderPlacement → Exec (Session W) Done
  send_reboot o vm place = do
    raise_if (is_some o.provider_task_id)
        (runtime_error "pending operation already has a provider task")
    task ← in_session (
        if is_text o.phase "shutdown"
        then adapter.shutdown_vm vm.id place
        else adapter.start_vm vm.id place)
    option_case task
        (if is_text o.phase "shutdown"
          then (do
            set_operation (λ o. record o { phase = some "start" })
            set_vm_status vm VmStatus.stopped)
          else (do
            set_operation λ o. record o {
              status = OperationStatus.succeeded;
              phase = some "complete";
              last_error_code = none;
            }
            set_vm_status vm VmStatus.running))
        (λ t. submit place t)

  unfoldable pub poll_reboot :
      Operation → VirtualMachine → ProviderPlacement → Exec (Session W) Done
  poll_reboot o vm place = do
    task_status ← poll_task o place
    task_state_case task_status.status (touch)
        (do
          set_operation (λ o. record o { provider_task_id = none; last_error_code = none })
          if is_text o.phase "shutdown"
              then (do
                set_operation
                    λ o. record o { phase = some "start"; status = OperationStatus.pending }
                set_vm_status vm VmStatus.stopped)
              else (do
                set_operation
                    λ o. record o { status = OperationStatus.succeeded; phase = some "complete" }
                set_vm_status vm VmStatus.running))
        (fail task_status)

  unfoldable pub process_reboot_vm_operation : Exec (Session W) Done
  process_reboot_vm_operation = do
    o ← the_operation
    raise_if (not (is_type o.operation_type vm_reboot)) (runtime_error "invalid operation type")
    raise_if
        (not (
          is_status o.status OperationStatus.pending
          || is_status o.status OperationStatus.processing))
        (runtime_error "operation cannot be processed")
    raise_if (not (text_in o.phase ("shutdown" ∷ "start" ∷ [])))
        (runtime_error ("unsupported reboot phase: " <> shown o.phase))
    (vm, place) ← get_lifecycle_vm
    if is_status o.status OperationStatus.pending
        then send_reboot o vm place
        else poll_reboot o vm place

  unfoldable pub send_delete :
      Operation → VirtualMachine → ProviderPlacement → Exec (Session W) Done
  send_delete o vm place = do
    raise_if (is_some o.provider_task_id)
        (runtime_error "pending operation already has a provider task")
    result ← in_session (adapter.delete_vm vm.id place)
    submit_state_case result.state
        (do
          task ← need result.task (runtime_error "submitted delete has no provider task")
          submit place task
          set_vm_status vm VmStatus.deleting)
        (do
          raise_if (is_some result.task)
              (runtime_error "in-progress delete unexpectedly has a provider task")
          touch
          set_vm_status vm VmStatus.deleting)
        (do
          raise_if (is_some result.task)
              (runtime_error "completed delete unexpectedly has a provider task")
          set_operation λ o. record o {
            status = OperationStatus.succeeded;
            phase = some "complete";
            last_error_code = none;
          }
          set_vm_status vm VmStatus.deleted)

  unfoldable pub poll_delete :
      Operation → VirtualMachine → ProviderPlacement → Exec (Session W) Done
  poll_delete o vm place = do
    task_status ← poll_task o place
    task_state_case task_status.status (touch)
        (do
          set_operation λ o. record o {
            status = OperationStatus.succeeded;
            phase = some "complete";
            provider_task_id = none;
            last_error_code = none;
          }
          set_vm_status vm VmStatus.deleted)
        (do fail task_status; set_vm_status vm VmStatus.deleting)

  unfoldable pub process_delete_vm_operation : Exec (Session W) Done
  process_delete_vm_operation = do
    o ← the_operation
    raise_if (not (is_type o.operation_type vm_delete)) (runtime_error "invalid operation type")
    raise_if
        (not (
          is_status o.status OperationStatus.pending
          || is_status o.status OperationStatus.processing))
        (runtime_error "operation cannot be processed")
    (vm, place) ← get_lifecycle_vm
    if is_status o.status OperationStatus.pending
        then send_delete o vm place
        else poll_delete o vm place
