-- ===== src/Worker/Submit.antt =====
-- The provider call that follows a dispatch, and the transaction that stores its outcome.
use server_npd.Prelude.{
  ℕ, String, Option, some, ◌||◌, ◌<>◌, not, if◌then◌else◌, is_text, str_eq, begins,
}
use server_npd.Outcome.{runtime_error, Done, Exec, pure, raise, need, raise_if, ◌>>=◌, ◌>>◌}
use server_npd.Models.{OperationStatus, is_status}
use server_npd.Proxmox.{CreateVmRequest, ProviderPlacement, ProviderTask, ProxmoxAdapter}
use server_npd.Operations.Session.{Session, the_operation, the_time, set_operation}
use server_npd.Operations.Create.Reconcile.{rename_phase}
use server_npd.Operations.Create.Dispatch.{
  CreateResult, clone_result, task_result, finish_create_vm_dispatch,
}
use server_npd.Operations.Start.{finish_start_vm_dispatch}
use server_npd.Operations.Lifecycle.Dispatch.{
  LifecycleResult, delete_result, finish_lifecycle_dispatch,
}
use server_npd.Worker.Step.{
  Dispatch, no_dispatch, create_dispatch, start_dispatch, lifecycle_dispatch,
}
use server_npd.Worker.Transaction.{Server, with_operation}

-- What the provider answered.
pub data Reply : Type 0 where
  no_reply : Reply
  create_reply : CreateResult → Reply
  start_reply : Option ProviderTask → Reply
  lifecycle_reply : LifecycleResult → Reply

module _ {W : Type 0} (adapter : ProxmoxAdapter W) where
  -- The request is there for every phase but start.
  abbrev with_request :
      Option CreateVmRequest → (CreateVmRequest → Exec W CreateResult) → Exec W Reply
  with_request request call = do
    r ← need request (runtime_error "the request is missing")
    result ← call r
    pure (create_reply result)

  unfoldable pub send_create :
      ℕ → String → Option CreateVmRequest → ProviderPlacement → Exec W Reply
  send_create vm_id phase request target =
      if str_eq phase "clone"
      then with_request request
          (λ r. do result ← adapter.clone_vm r target; pure (clone_result result))
      else if str_eq phase "configure"
      then with_request request
          (λ r. do task ← adapter.configure_vm r target; pure (task_result task))
      else if str_eq phase "resize"
      then with_request request
          (λ r. do task ← adapter.resize_vm_disk r target; pure (task_result task))
      else if str_eq phase "start"
      then (do task ← adapter.start_vm vm_id target; pure (create_reply (task_result task)))
      else raise (runtime_error ("unsupported create dispatch phase: " <> phase))

  unfoldable pub send_lifecycle : ℕ → String → ProviderPlacement → Exec W Reply
  send_lifecycle vm_id command target =
      if str_eq command "shutdown"
      then (do
        task ← adapter.shutdown_vm vm_id target
        pure (lifecycle_reply (LifecycleResult.task_result task)))
      else if str_eq command "stop"
      then (do
        task ← adapter.stop_vm vm_id target
        pure (lifecycle_reply (LifecycleResult.task_result task)))
      else if str_eq command "start"
      then (do
        task ← adapter.start_vm vm_id target
        pure (lifecycle_reply (LifecycleResult.task_result task)))
      else if str_eq command "delete"
      then (do
        result ← adapter.delete_vm vm_id target
        pure (lifecycle_reply (delete_result result)))
      else raise (runtime_error ("unsupported lifecycle command: " <> command))

  -- The provider call of a dispatch.
  unfoldable pub send : Dispatch → Exec W Reply
  send no_dispatch = pure no_reply
  send (create_dispatch id vm_id phase request target) = send_create vm_id phase request target
  send (start_dispatch id vm_id target) = do
    task ← adapter.start_vm vm_id target
    pure (start_reply task)
  send (lifecycle_dispatch id vm_id command target) = send_lifecycle vm_id command target

module _ {W : Type 0} where
  -- The handlers of a call that raised: the command may have reached the provider all the same.
  unfoldable pub mark_create_unknown : String → Exec (Session W) Done
  mark_create_unknown phase = do
    o ← the_operation
    raise_if
        (not (is_status o.status OperationStatus.processing)
          || not (is_text o.phase ("dispatch_create_" <> phase)))
        (runtime_error "VM create operation changed during dispatch")
    now ← the_time
    set_operation λ o. record o {
      phase = some ("reconcile_create_" <> phase);
      last_error_code = some "provider_submit_unknown";
      updated_at = now;
    }

  unfoldable pub mark_start_unknown : Exec (Session W) Done
  mark_start_unknown = do
    o ← the_operation
    raise_if
        (not (is_status o.status OperationStatus.processing) || not (is_text o.phase "dispatching"))
        (runtime_error "VM start operation changed during dispatch")
    now ← the_time
    set_operation λ o. record o {
      phase = some "reconcile";
      last_error_code = some "provider_submit_unknown";
      updated_at = now;
    }

  unfoldable pub mark_lifecycle_unknown : Exec (Session W) Done
  mark_lifecycle_unknown = do
    o ← the_operation
    raise_if (not (begins o.phase "dispatch_"))
        (runtime_error "lifecycle operation changed during dispatch")
    now ← the_time
    set_operation λ o. record o {
      phase = rename_phase "dispatch_" "reconcile_" o.phase;
      last_error_code = some "provider_submit_unknown";
      updated_at = now;
    }

  -- The second transaction after a call that raised, by the kind of the dispatch.
  unfoldable pub store_unknown : ℕ → Dispatch → Exec (Server W) Done
  store_unknown now no_dispatch = pure tt
  store_unknown now (create_dispatch id vm_id phase request target) =
      with_operation id now "VM create operation disappeared" (mark_create_unknown phase)
  store_unknown now (start_dispatch id vm_id target) =
      with_operation id now "VM start operation disappeared" mark_start_unknown
  store_unknown now (lifecycle_dispatch id vm_id command target) =
      with_operation id now "lifecycle operation changed during dispatch" mark_lifecycle_unknown

  -- The second transaction after a call that returned. The last case does not arise: `send`
  -- answers a dispatch with a reply of its own kind.
  unfoldable pub store_reply : ℕ → Dispatch → Reply → Exec (Server W) Done
  store_reply now (create_dispatch id vm_id phase request target) (create_reply result) =
      with_operation id now "VM create operation disappeared"
        (finish_create_vm_dispatch phase result)
  store_reply now (start_dispatch id vm_id target) (start_reply task) =
      with_operation id now "VM start operation disappeared" (finish_start_vm_dispatch task)
  store_reply now (lifecycle_dispatch id vm_id command target) (lifecycle_reply result) =
      with_operation id now "lifecycle operation disappeared" (finish_lifecycle_dispatch result)
  store_reply now d r = pure tt
