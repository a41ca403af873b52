-- ===== src/Operations/Create/Provision.antt =====
-- The steps of vm.create that call the provider within the worker's transaction.
use server_npd.Prelude.{
  option_case, ℕ, String, Option, none, some, ◌||◌, ◌&&◌, not, is_none, is_some, is_text,
}
use server_npd.Outcome.{runtime_error, Done, Exec, pure, raise, need, raise_if, ◌>>=◌, ◌>>◌}
use server_npd.Models.{OperationStatus, is_status, is_type, vm_create, VirtualMachine, VmStatus}
use server_npd.Proxmox.{
  submit_state_case, CreateVmRequest, ProviderPlacement, ProviderCloneResult, targets,
  ProxmoxAdapter,
}
use server_npd.Operations.Session.{
  Session, in_session, the_operation, the_time, set_operation, save_vm, set_vm_status, get_vm,
  build_create_vm_request,
}

module _ {W : Type 0} where
  -- What `start_create_vm_operation` does with the provider's answer to a clone.
  unfoldable pub take_clone_result :
      VirtualMachine → ProviderPlacement → ProviderCloneResult → Exec (Session W) Done
  take_clone_result vm place result =
      submit_state_case result.state
        (do
          task ← need result.task (runtime_error "submitted clone has no provider task")
          raise_if (not (targets task place))
              (runtime_error "provider task targets another virtual machine")
          set_operation λ o. record o {
            provider_task_id = some task.task_id;
            status = OperationStatus.processing;
          }
          set_vm_status vm VmStatus.provisioning)
        (do
          raise_if (is_some result.task)
              (runtime_error "recovered clone unexpectedly has a provider task")
          now ← the_time
          set_operation (λ o. record o { updated_at = now })
          set_vm_status vm VmStatus.provisioning)
        (do
          raise_if (is_some result.task)
              (runtime_error "recovered clone unexpectedly has a provider task")
          set_operation λ o. record o {
            phase = some "configure";
            status = OperationStatus.pending;
            provider_task_id = none;
            last_error_code = none;
          }
          set_vm_status vm VmStatus.provisioning)

  -- `vm.provider_node` and `vm.provider_vmid`, each refused where it is missing.
  unfoldable pub need_placement : VirtualMachine → Exec (Session W) ProviderPlacement
  need_placement vm = do
    node ← need vm.provider_node (runtime_error "virtual machine provider node is missed")
    vmid ← need vm.provider_vmid (runtime_error "virtual machine provider vmid is missed")
    pure (record { node = node; vmid = vmid })

module _ {W : Type 0} (adapter : ProxmoxAdapter W) where
  -- The first pass stores where the clone is to go, the second clones to that place. The last case
  -- is the one that the guard before it has refused.
  unfoldable pub place_or_clone :
      VirtualMachine → CreateVmRequest → Option String → Option ℕ → Exec (Session W) Done
  place_or_clone vm request none vmid = do
    target ← in_session (adapter.choose_clone_target request)
    save_vm (record vm { provider_node = some target.node; provider_vmid = some target.vmid })
  place_or_clone vm request (some node) (some vmid) = do
    let place : ProviderPlacement = record { node = node; vmid = vmid }
    result ← in_session (adapter.clone_vm request place)
    take_clone_result vm place result
  place_or_clone vm request (some node) none = raise (runtime_error "incomplete provider placement")

  unfoldable pub start_create_vm_operation : Exec (Session W) Done
  start_create_vm_operation = do
    o ← the_operation
    raise_if (not (is_type o.operation_type vm_create)) (runtime_error "invalid operation type")
    raise_if (not (is_status o.status OperationStatus.pending))
        (runtime_error "operation is not pending")
    raise_if (is_some o.provider_task_id) (runtime_error "operation has already been started")
    raise_if (not (is_text o.phase "clone")) (runtime_error "operation is not in clone phase")
    vm ← get_vm "virtual machine is missing"
    request ← build_create_vm_request vm
    raise_if
        (not (is_none vm.provider_node) && is_none vm.provider_vmid
          || is_none vm.provider_node && not (is_none vm.provider_vmid))
        (runtime_error "incomplete provider placement")
    place_or_clone vm request vm.provider_node vm.provider_vmid

  unfoldable pub start_configure_vm_operation : Exec (Session W) Done
  start_configure_vm_operation = do
    o ← the_operation
    raise_if (not (is_status o.status OperationStatus.pending))
        (runtime_error "operation is not pending")
    raise_if (not (is_text o.phase "configure")) (runtime_error "operation phase is not configure")
    vm ← get_vm "virtual machine is missed"
    place ← need_placement vm
    request ← build_create_vm_request vm
    task ← in_session (adapter.configure_vm request place)
    option_case task
        (set_operation λ o. record o {
          phase = some "resize";
          status = OperationStatus.pending;
          provider_task_id = none;
        })
        (λ t. set_operation λ o. record o {
          phase = some "configure";
          status = OperationStatus.processing;
          provider_task_id = some t.task_id;
        })

  unfoldable pub start_resize_vm_operation : Exec (Session W) Done
  start_resize_vm_operation = do
    o ← the_operation
    raise_if (not (is_status o.status OperationStatus.pending))
        (runtime_error "operation is not pending")
    raise_if (not (is_text o.phase "resize")) (runtime_error "operation phase is not resize")
    vm ← get_vm "virtual machine is missed"
    place ← need_placement vm
    request ← build_create_vm_request vm
    task ← in_session (adapter.resize_vm_disk request place)
    option_case task
        (set_operation λ o. record o {
          phase = some "start";
          status = OperationStatus.pending;
          provider_task_id = none;
        })
        (λ t.
          set_operation λ o. record o {
            status = OperationStatus.processing;
            provider_task_id = some t.task_id;
          })

  unfoldable pub start_initial_vm_operation : Exec (Session W) Done
  start_initial_vm_operation = do
    o ← the_operation
    raise_if (not (is_status o.status OperationStatus.pending))
        (runtime_error "operation is not pending")
    raise_if (not (is_text o.phase "start")) (runtime_error "operation phase is not start")
    vm ← get_vm "virtual machine is missed"
    place ← need_placement vm
    task ← in_session (adapter.start_vm vm.id place)
    option_case task
        (do
          set_operation λ o. record o {
            phase = some "complete";
            status = OperationStatus.succeeded;
            provider_task_id = none;
            last_error_code = none;
          }
          set_vm_status vm VmStatus.running)
        (λ t.
          set_operation λ o. record o {
            provider_task_id = some t.task_id;
            status = OperationStatus.processing;
          })
