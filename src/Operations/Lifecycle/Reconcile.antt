-- ===== src/Operations/Lifecycle/Reconcile.antt =====
-- A lifecycle command with an unknown outcome is compared with what the provider says.
use server_npd.Prelude.{
  String, Bool, Option, none, some, List, [], ◌∷◌, ◌||◌, ◌&&◌, ◌<>◌, not, is_some, if◌then◌else◌,
  text_in, shown,
}
use server_npd.Outcome.{runtime_error, Done, Exec, raise_if, ◌>>=◌, ◌>>◌}
use server_npd.Models.{OperationStatus, is_status, VirtualMachine, VmStatus}
use server_npd.Proxmox.{PowerState, is_power, ProxmoxAdapter}
use server_npd.Operations.Session.{
  Session, in_session, the_operation, the_time, set_operation, set_vm_status, get_lifecycle_vm,
}
use server_npd.Operations.Create.Reconcile.{rename_phase}

abbrev pub lifecycle_reconciliation_phases : List String
lifecycle_reconciliation_phases =
    "dispatch_shutdown" ∷ "reconcile_shutdown" ∷ "dispatch_stop" ∷ "reconcile_stop"
    ∷ "dispatch_delete" ∷ "reconcile_delete" ∷ "dispatch_reboot_shutdown"
    ∷ "reconcile_reboot_shutdown" ∷ "dispatch_reboot_start" ∷ "reconcile_reboot_start" ∷ []

module _ {W : Type 0} where
  -- The operation is over, and the machine is in the state that was asked for.
  abbrev conclude : VirtualMachine → VmStatus → Exec (Session W) Done
  conclude vm status = do
    set_operation λ o. record o {
      status = OperationStatus.succeeded;
      phase = some "complete";
      last_error_code = none;
    }
    set_vm_status vm status

  -- The provider's state decides whether the command has done its work.
  unfoldable pub compare_lifecycle :
      VirtualMachine → Option String → PowerState → Bool → Exec (Session W) Done
  compare_lifecycle vm phase status locked =
      if text_in phase ("dispatch_delete" ∷ "reconcile_delete" ∷ [])
        && is_power status PowerState.missing
      then conclude vm VmStatus.deleted
      else if is_power status PowerState.stopped
          && not locked
          && text_in phase
              ("dispatch_shutdown" ∷ "reconcile_shutdown" ∷ "dispatch_stop" ∷ "reconcile_stop" ∷ [])
      then conclude vm VmStatus.stopped
      else if is_power status PowerState.stopped
          && not locked
          && text_in phase ("dispatch_reboot_shutdown" ∷ "reconcile_reboot_shutdown" ∷ [])
      then (do
        set_operation λ o. record o {
          status = OperationStatus.pending;
          phase = some "start";
          last_error_code = none;
        }
        set_vm_status vm VmStatus.stopped)
      else if is_power status PowerState.running
          && not locked
          && text_in phase ("dispatch_reboot_start" ∷ "reconcile_reboot_start" ∷ [])
      then conclude vm VmStatus.running
      else (do
        now ← the_time
        set_operation λ o. record o {
          phase = rename_phase "dispatch_" "reconcile_" phase;
          last_error_code = some "provider_outcome_unknown";
          updated_at = now;
        })

module _ {W : Type 0} (adapter : ProxmoxAdapter W) where
  unfoldable pub reconcile_lifecycle_operation : Exec (Session W) Done
  reconcile_lifecycle_operation = do
    o ← the_operation
    raise_if (not (is_status o.status OperationStatus.processing) || is_some o.provider_task_id)
        (runtime_error "lifecycle operation does not need reconciliation")
    raise_if (not (text_in o.phase lifecycle_reconciliation_phases))
        (runtime_error ("unsupported lifecycle reconciliation phase: " <> shown o.phase))
    (vm, place) ← get_lifecycle_vm
    state ← in_session (adapter.get_vm_power_state vm.id place)
    compare_lifecycle vm o.phase state.status state.locked
