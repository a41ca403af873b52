-- ===== src/Worker/Step.antt =====
-- What the worker does with a claimed operation inside the transaction that claimed it.
use server_npd.Prelude.{
  ℕ, String, Option, none, some, [], ◌∷◌, ◌||◌, ◌&&◌, ◌<>◌, is_none, is_some, if◌then◌else◌,
  is_text, text_in, remove_prefix, shown, begins,
}
use server_npd.Outcome.{Error, runtime_error, Done, Exec, pure, raise, catch, ◌>>=◌, ◌>>◌}
use server_npd.Models.{
  OperationStatus, is_status, is_type, OperationType, vm_create, vm_start, vm_shutdown, vm_stop,
  vm_reboot,
}
use server_npd.Proxmox.{CreateVmRequest, ProviderPlacement, ProxmoxAdapter}
use server_npd.Operations.Session.{Session, the_operation, the_time, set_operation, get_vm}
use server_npd.Operations.Create.Reconcile.{rename_phase, reconcile_create_vm_operation}
use server_npd.Operations.Create.Refresh.{process_create_vm_operation}
use server_npd.Operations.Create.Dispatch.{prepare_create_vm_dispatch}
use server_npd.Operations.Start.{
  process_start_vm_operation, reconcile_start_vm_operation, prepare_start_vm_dispatch,
}
use server_npd.Operations.Lifecycle.Dispatch.{prepare_lifecycle_dispatch}
use server_npd.Operations.Lifecycle.Reconcile.{reconcile_lifecycle_operation}
use server_npd.Operations.Lifecycle.Polling.{
  process_power_off_vm_operation, process_reboot_vm_operation, process_delete_vm_operation,
}

-- What is left to do when the transaction is over: a command that the provider has to be sent.
pub data Dispatch : Type 0 where
  no_dispatch : Dispatch
  create_dispatch : ℕ → ℕ → String → Option CreateVmRequest → ProviderPlacement → Dispatch
  start_dispatch : ℕ → ℕ → ProviderPlacement → Dispatch
  lifecycle_dispatch : ℕ → ℕ → String → ProviderPlacement → Dispatch

-- The phase with the prefix of a postponed poll taken off, where it has it.
abbrev pub strip_backoff : String → Option String → Option String
strip_backoff prefix none = none
strip_backoff prefix (some s) = some (remove_prefix s prefix)

module _ {W : Type 0} where
  -- The `except Exception` of a poll or a reconciliation: a new phase, a code and the time.
  abbrev pub status_unavailable : (Option String → Option String) → Error → Exec (Session W) Done
  status_unavailable rename e = do
    now ← the_time
    set_operation λ o. record o {
      phase = rename o.phase;
      last_error_code = some "provider_status_unavailable";
      updated_at = now;
    }

  -- `prepare_create_vm_dispatch` and the values that the submission needs.
  unfoldable pub prepare_create : Exec (Session W) Dispatch
  prepare_create = do
    o ← the_operation
    (request, target) ← prepare_create_vm_dispatch
    pure (create_dispatch o.id o.virtual_machine_id (shown o.phase) request target)

module _ {W : Type 0} (adapter : ProxmoxAdapter W) where
  -- A pending vm.create in its clone phase: the machine without a placement gets one, and nothing
  -- is sent.
  unfoldable pub step_pending_clone : Exec (Session W) Dispatch
  step_pending_clone = do
    vm ← get_vm "virtual machine is missing"
    if is_none vm.provider_node && is_none vm.provider_vmid
        then process_create_vm_operation adapter >> pure no_dispatch
        else prepare_create

  -- The poll of a vm.create: the phase without its prefix, and with it again after a failure.
  unfoldable pub poll_create : Exec (Session W) Dispatch
  poll_create = do
    set_operation (λ o. record o { phase = strip_backoff "poll_backoff_create_" o.phase })
    catch (process_create_vm_operation adapter)
        (status_unavailable (λ phase. some ("poll_backoff_create_" <> shown phase)))
    pure no_dispatch

  unfoldable pub settle_create : Exec (Session W) Dispatch
  settle_create = do
    catch (reconcile_create_vm_operation adapter)
        (status_unavailable (rename_phase "dispatch_" "reconcile_"))
    pure no_dispatch

  unfoldable pub step_create : Exec (Session W) Dispatch
  step_create = do
    o ← the_operation
    if is_status o.status OperationStatus.pending
        then (if is_text o.phase "clone"
            then step_pending_clone
            else if text_in o.phase ("configure" ∷ "resize" ∷ "start" ∷ [])
            then prepare_create
            else raise (runtime_error ("unsupported create phase: " <> shown o.phase)))
        else if is_some o.provider_task_id
        then poll_create
        else if begins o.phase "dispatch_create_" || begins o.phase "reconcile_create_"
        then settle_create
        else raise (runtime_error ("unsupported create phase: " <> shown o.phase))

  unfoldable pub poll_start : Exec (Session W) Dispatch
  poll_start = do
    catch (process_start_vm_operation adapter) (status_unavailable (λ phase. some "poll_backoff"))
    pure no_dispatch

  unfoldable pub settle_start : Exec (Session W) Dispatch
  settle_start = do
    catch (reconcile_start_vm_operation adapter) (status_unavailable (λ phase. some "reconcile"))
    pure no_dispatch

  unfoldable pub step_start : Exec (Session W) Dispatch
  step_start = do
    o ← the_operation
    if is_status o.status OperationStatus.pending
        then (do
          target ← prepare_start_vm_dispatch
          pure (start_dispatch o.id o.virtual_machine_id target))
        else if is_some o.provider_task_id
        then poll_start
        else if text_in o.phase ("dispatching" ∷ "reconcile" ∷ [])
        then settle_start
        else raise (runtime_error ("unsupported VM start phase: " <> shown o.phase))

  -- The handler that polls a lifecycle operation's task.
  unfoldable pub poll_lifecycle_handler : OperationType → Exec (Session W) Done
  poll_lifecycle_handler t =
      if is_type t vm_shutdown || is_type t vm_stop
      then process_power_off_vm_operation adapter
      else if is_type t vm_reboot
      then process_reboot_vm_operation adapter
      else process_delete_vm_operation adapter

  unfoldable pub poll_lifecycle : Exec (Session W) Dispatch
  poll_lifecycle = do
    o ← the_operation
    if is_type o.operation_type vm_reboot
        then set_operation (λ o. record o { phase = strip_backoff "poll_backoff_" o.phase })
        else pure tt
    catch (poll_lifecycle_handler o.operation_type) (
        status_unavailable (λ phase. some (
          if is_type o.operation_type vm_reboot
          then "poll_backoff_" <> shown phase
          else "poll_backoff")))
    pure no_dispatch

  unfoldable pub settle_lifecycle : Exec (Session W) Dispatch
  settle_lifecycle = do
    catch (reconcile_lifecycle_operation adapter)
        (status_unavailable (rename_phase "dispatch_" "reconcile_"))
    pure no_dispatch

  unfoldable pub step_lifecycle : Exec (Session W) Dispatch
  step_lifecycle = do
    o ← the_operation
    if is_status o.status OperationStatus.pending
        then (do
          (command, target) ← prepare_lifecycle_dispatch
          pure (lifecycle_dispatch o.id o.virtual_machine_id command target))
        else if is_some o.provider_task_id
        then poll_lifecycle
        else if begins o.phase "dispatch_" || begins o.phase "reconcile_"
        then settle_lifecycle
        else raise (runtime_error ("unsupported lifecycle phase: " <> shown o.phase))

  -- The choice by the operation's type. The four lifecycle types are all that is left.
  unfoldable pub step : Exec (Session W) Dispatch
  step = do
    o ← the_operation
    if is_type o.operation_type vm_create
        then step_create
        else if is_type o.operation_type vm_start
        then step_start
        else step_lifecycle
