-- ===== src/Operations/Create/Dispatch.antt =====
-- The two transactions of a vm.create command: the marker before the call, and its result after it.
use server_npd.Prelude.{
  String, Option, none, some, [], ◌∷◌, ◌+◌, ◌||◌, ◌<>◌, not, is_some, if◌then◌else◌, is_text,
  text_in, str_eq, shown,
}
use server_npd.Outcome.{runtime_error, Done, Exec, pure, raise, need, raise_if, ◌>>=◌, ◌>>◌}
use server_npd.Models.{OperationStatus, is_status, is_type, vm_create, VirtualMachine, VmStatus}
use server_npd.Proxmox.{
  submit_state_case, CreateVmRequest, ProviderPlacement, ProviderTask, ProviderCloneResult, targets,
}
use server_npd.Operations.Session.{
  Session, the_operation, the_time, set_operation, set_vm_status, get_lifecycle_vm,
  build_create_vm_request,
}

-- `ProviderCloneResult | ProviderTask | None`: what the four calls of vm.create return.
pub data CreateResult : Type 0 where
  clone_result : ProviderCloneResult → CreateResult
  task_result : Option ProviderTask → CreateResult

module _ {W : Type 0} where
  unfoldable pub prepare_create_vm_dispatch :
      Exec (Session W) (Option CreateVmRequest × ProviderPlacement)
  prepare_create_vm_dispatch = do
    o ← the_operation
    raise_if
        (not (is_type o.operation_type vm_create)
          || not (is_status o.status OperationStatus.pending))
        (runtime_error "operation is not a pending VM create")
    raise_if (is_some o.provider_task_id)
        (runtime_error "pending create already has a provider task")
    raise_if (not (text_in o.phase ("clone" ∷ "configure" ∷ "resize" ∷ "start" ∷ [])))
        (runtime_error ("unsupported create phase: " <> shown o.phase))
    (vm, place) ← get_lifecycle_vm
    request ←
        (if is_text o.phase "start"
          then pure none
          else do request ← build_create_vm_request vm; pure (some request))
    now ← the_time
    set_operation λ o. record o {
      status = OperationStatus.processing;
      phase = some ("dispatch_create_" <> shown o.phase);
      attempts = o.attempts + 1;
      updated_at = now;
    }
    pure (request, place)

  -- A step that ended at once, with no task to wait for.
  unfoldable pub complete_create_step : VirtualMachine → String → Exec (Session W) Done
  complete_create_step vm phase = do
    if str_eq phase "configure"
        then set_operation
            (λ o. record o { status = OperationStatus.pending; phase = some "resize" })
        else if str_eq phase "resize"
        then set_operation
            (λ o. record o { status = OperationStatus.pending; phase = some "start" })
        else if str_eq phase "start"
        then (do
          set_operation
              λ o. record o { status = OperationStatus.succeeded; phase = some "complete" }
          set_vm_status vm VmStatus.running)
        else raise (runtime_error ("unsupported create dispatch phase: " <> phase))
    set_operation (λ o. record o { last_error_code = none })

  -- The task of a submitted command is stored, if it is about this machine.
  unfoldable pub store_create_task :
      VirtualMachine → ProviderPlacement → String → Option ProviderTask → Exec (Session W) Done
  store_create_task vm place phase none = complete_create_step vm phase
  store_create_task vm place phase (some task) = do
    raise_if (not (targets task place))
        (runtime_error "provider task targets another virtual machine")
    set_operation λ o. record o {
      provider_task_id = some task.task_id;
      phase = some phase;
      last_error_code = none;
    }

  unfoldable pub finish_clone :
      VirtualMachine → ProviderPlacement → String → ProviderCloneResult → Exec (Session W) Done
  finish_clone vm place phase result =
      submit_state_case result.state
        (do
          task ← need result.task (runtime_error "submitted clone has no provider task")
          set_vm_status vm VmStatus.provisioning
          store_create_task vm place phase (some task))
        (do
          raise_if (is_some result.task)
              (runtime_error "in-progress clone unexpectedly has a provider task")
          now ← the_time
          set_operation λ o. record o {
            phase = some "reconcile_create_clone";
            last_error_code = some "provider_outcome_unknown";
            updated_at = now;
          }
          set_vm_status vm VmStatus.provisioning)
        (do
          raise_if (is_some result.task)
              (runtime_error "completed clone unexpectedly has a provider task")
          set_operation λ o. record o {
            status = OperationStatus.pending;
            phase = some "configure";
            last_error_code = none;
          }
          set_vm_status vm VmStatus.provisioning)

  unfoldable pub finish_create_result :
      VirtualMachine → ProviderPlacement → String → CreateResult → Exec (Session W) Done
  finish_create_result vm place phase (clone_result result) =
      if str_eq phase "clone"
      then finish_clone vm place phase result
      else raise (runtime_error "invalid provider task result")
  finish_create_result vm place phase (task_result task) =
      if str_eq phase "clone"
      then raise (runtime_error "invalid provider clone result")
      else store_create_task vm place phase task

  unfoldable pub finish_create_vm_dispatch : String → CreateResult → Exec (Session W) Done
  finish_create_vm_dispatch phase result = do
    o ← the_operation
    raise_if
        (not (is_type o.operation_type vm_create)
          || not (is_status o.status OperationStatus.processing))
        (runtime_error "operation is not dispatching VM create")
    raise_if (not (is_text o.phase ("dispatch_create_" <> phase)) || is_some o.provider_task_id)
        (runtime_error "VM create dispatch state changed")
    (vm, place) ← get_lifecycle_vm
    finish_create_result vm place phase result
