-- ===== src/Operations/Lifecycle/Dispatch.antt =====
-- The two transactions of a lifecycle command: the marker before the call, and its result after it.
use server_npd.Prelude.{
  String, Option, none, some, [], ◌∷◌, ◌+◌, ◌||◌, ◌&&◌, ◌<>◌, not, is_some, if◌then◌else◌, is_text,
  text_in, str_eq, shown,
}
use server_npd.Outcome.{
  Result, ok, err, lift, runtime_error, Done, Exec, pure, raise, need, raise_if, ◌>>=◌, ◌>>◌,
}
use server_npd.Models.{
  Operation, OperationStatus, is_status, is_type, vm_shutdown, vm_stop, vm_reboot, vm_delete,
  VirtualMachine, VmStatus,
}
use server_npd.Proxmox.{
  submit_state_case, ProviderPlacement, ProviderTask, ProviderDeleteResult, targets,
}
use server_npd.Operations.Session.{
  Session, the_operation, the_time, set_operation, set_vm_status, get_lifecycle_vm,
}

-- `ProviderTask | ProviderDeleteResult | None`: what the four calls return.
pub data LifecycleResult : Type 0 where
  delete_result : ProviderDeleteResult → LifecycleResult
  task_result : Option ProviderTask → LifecycleResult

-- The chain of tests that names the command.
unfoldable pub lifecycle_command : Operation → Result String
lifecycle_command o =
    if is_type o.operation_type vm_shutdown
    then ok "shutdown"
    else if is_type o.operation_type vm_stop
    then ok "stop"
    else if is_type o.operation_type vm_delete
    then ok "delete"
    else if is_type o.operation_type vm_reboot && text_in o.phase ("shutdown" ∷ "start" ∷ [])
    then ok (shown o.phase)
    else err (runtime_error "unsupported lifecycle operation")

module _ {W : Type 0} where
  unfoldable pub prepare_lifecycle_dispatch : Exec (Session W) (String × ProviderPlacement)
  prepare_lifecycle_dispatch = do
    o ← the_operation
    raise_if (not (is_status o.status OperationStatus.pending) || is_some o.provider_task_id)
        (runtime_error "lifecycle operation is not ready for dispatch")
    command ← lift (lifecycle_command o)
    (vm, place) ← get_lifecycle_vm
    now ← the_time
    set_operation λ o. record o {
      status = OperationStatus.processing;
      phase = some (
          if is_type o.operation_type vm_reboot
          then "dispatch_reboot_" <> command
          else "dispatch_" <> command);
      attempts = o.attempts + 1;
      updated_at = now;
    }
    if str_eq command "delete" then set_vm_status vm VmStatus.deleting else pure tt
    pure (command, place)

  -- The phase in which a reboot waits for the task of its command.
  unfoldable pub await_reboot : Option String → Exec (Session W) Done
  await_reboot phase =
      if is_text phase "dispatch_reboot_shutdown"
      then set_operation (λ o. record o { phase = some "shutdown" })
      else if is_text phase "dispatch_reboot_start"
      then set_operation (λ o. record o { phase = some "start" })
      else raise (runtime_error "unsupported reboot dispatch phase")

  -- A command that ended at once, with no task to wait for.
  unfoldable pub complete_lifecycle : VirtualMachine → Option String → Exec (Session W) Done
  complete_lifecycle vm phase =
      if text_in phase ("dispatch_shutdown" ∷ "dispatch_stop" ∷ [])
      then (do
        set_operation λ o. record o {
          status = OperationStatus.succeeded;
          phase = some "complete";
          last_error_code = none;
        }
        set_vm_status vm VmStatus.stopped)
      else if is_text phase "dispatch_reboot_shutdown"
      then (do
        set_operation λ o. record o {
          status = OperationStatus.pending;
          phase = some "start";
          last_error_code = none;
        }
        set_vm_status vm VmStatus.stopped)
      else if is_text phase "dispatch_reboot_start"
      then (do
        set_operation λ o. record o {
          status = OperationStatus.succeeded;
          phase = some "complete";
          last_error_code = none;
        }
        set_vm_status vm VmStatus.running)
      else raise (runtime_error ("unsupported lifecycle dispatch phase: " <> shown phase))

  unfoldable pub store_lifecycle_task :
      VirtualMachine → ProviderPlacement → Option ProviderTask → Exec (Session W) Done
  store_lifecycle_task vm place none = do o ← the_operation; complete_lifecycle vm o.phase
  store_lifecycle_task vm place (some task) = do
    raise_if (not (targets task place))
        (runtime_error "provider task targets another virtual machine")
    set_operation (λ o. record o { provider_task_id = some task.task_id; last_error_code = none })
    o ← the_operation
    if is_type o.operation_type vm_reboot
        then await_reboot o.phase
        else set_operation (λ o. record o { phase = some "await_task" })

  unfoldable pub finish_delete :
      VirtualMachine → ProviderPlacement → ProviderDeleteResult → Exec (Session W) Done
  finish_delete vm place result =
      submit_state_case result.state
        (do
          task ← need result.task (runtime_error "submitted delete has no provider task")
          store_lifecycle_task vm place (some task))
        (do
          raise_if (is_some result.task)
              (runtime_error "in-progress delete unexpectedly has a provider task")
          now ← the_time
          set_operation λ o. record o {
            phase = some "reconcile_delete";
            last_error_code = some "provider_outcome_unknown";
            updated_at = now;
          })
        (do
          raise_if (is_some result.task)
              (runtime_error "completed delete unexpectedly has a provider task")
          set_operation λ o. record o {
            status = OperationStatus.succeeded;
            phase = some "complete";
            last_error_code = none;
          }
          set_vm_status vm VmStatus.deleted)

  unfoldable pub finish_lifecycle_result :
      VirtualMachine → ProviderPlacement → Operation → LifecycleResult → Exec (Session W) Done
  finish_lifecycle_result vm place o (delete_result result) =
      if is_type o.operation_type vm_delete
      then (if not (is_text o.phase "dispatch_delete")
          then raise (runtime_error "invalid delete result")
          else finish_delete vm place result)
      else raise (runtime_error "invalid lifecycle provider task")
  finish_lifecycle_result vm place o (task_result task) =
      if is_type o.operation_type vm_delete
      then raise (runtime_error "invalid delete result")
      else store_lifecycle_task vm place task

  unfoldable pub finish_lifecycle_dispatch : LifecycleResult → Exec (Session W) Done
  finish_lifecycle_dispatch result = do
    o ← the_operation
    raise_if (not (is_status o.status OperationStatus.processing) || is_some o.provider_task_id)
        (runtime_error "invalid lifecycle dispatch state")
    (vm, place) ← get_lifecycle_vm
    finish_lifecycle_result vm place o result
