-- ===== src/Operations/Create/Reconcile.antt =====
-- A vm.create whose command may or may not have reached the provider is compared with what the
-- provider says of the machine.
use server_npd.Prelude.{
  String, Bool, false, Option, none, some, List, [], ◌∷◌, ◌||◌, ◌&&◌, ◌<>◌, not, is_some,
  if◌then◌else◌, text_in, ends_with, replace_first, shown,
}
use server_npd.Outcome.{runtime_error, Done, Exec, raise_if, ◌>>=◌, ◌>>◌}
use server_npd.Models.{OperationStatus, is_status, is_type, vm_create, VirtualMachine, VmStatus}
use server_npd.Proxmox.{PowerState, is_power, ProxmoxAdapter}
use server_npd.Operations.Session.{
  Session, in_session, the_operation, the_time, set_operation, set_vm_status, get_lifecycle_vm,
}

-- `phase.endswith(…)` of a text that is there.
abbrev pub phase_ends : Option String → String → Bool
phase_ends none t = false
phase_ends (some s) t = ends_with s t

abbrev pub create_reconciliation_phases : List String
create_reconciliation_phases =
    "dispatch_create_clone" ∷ "reconcile_create_clone" ∷ "dispatch_create_configure"
    ∷ "reconcile_create_configure" ∷ "dispatch_create_resize" ∷ "reconcile_create_resize"
    ∷ "dispatch_create_start" ∷ "reconcile_create_start" ∷ []

-- `phase.replace(…, 1)`; the column is never NULL where the code calls it.
abbrev pub rename_phase : String → String → Option String → Option String
rename_phase old new none = none
rename_phase old new (some s) = some (replace_first s old new)

module _ {W : Type 0} where
  -- The tail of the reconciliation: the outcome is still unknown.
  unfoldable pub leave_create_unknown : Option String → Exec (Session W) Done
  leave_create_unknown phase = do
    if phase_ends phase "_configure" || phase_ends phase "_resize"
        then set_operation (λ o. record o {
          phase =
              rename_phase "reconcile_" "needs_review_"
                (rename_phase "dispatch_" "needs_review_" phase);
        })
        else set_operation (λ o. record o { phase = rename_phase "dispatch_" "reconcile_" phase })
    now ← the_time
    set_operation
        λ o. record o { last_error_code = some "provider_outcome_unknown"; updated_at = now }

  -- A clone is done when the machine stands stopped and unlocked, a start when it runs unlocked.
  unfoldable pub compare_create :
      VirtualMachine → Option String → PowerState → Bool → Exec (Session W) Done
  compare_create vm phase status locked =
      if phase_ends phase "_clone" && is_power status PowerState.stopped && not locked
      then (do
        set_operation λ o. record o {
          status = OperationStatus.pending;
          phase = some "configure";
          last_error_code = none;
        }
        set_vm_status vm VmStatus.provisioning)
      else if phase_ends phase "_start" && is_power status PowerState.running && not locked
      then (do
        set_operation λ o. record o {
          status = OperationStatus.succeeded;
          phase = some "complete";
          last_error_code = none;
        }
        set_vm_status vm VmStatus.running)
      else leave_create_unknown phase

module _ {W : Type 0} (adapter : ProxmoxAdapter W) where
  unfoldable pub reconcile_create_vm_operation : Exec (Session W) Done
  reconcile_create_vm_operation = do
    o ← the_operation
    raise_if
        (not (is_type o.operation_type vm_create)
          || not (is_status o.status OperationStatus.processing))
        (runtime_error "invalid create operation")
    raise_if (is_some o.provider_task_id)
        (runtime_error "reconciling create already has a provider task")
    raise_if (not (text_in o.phase create_reconciliation_phases))
        (runtime_error ("unsupported create reconciliation phase: " <> shown o.phase))
    (vm, place) ← get_lifecycle_vm
    if phase_ends o.phase "_clone" || phase_ends o.phase "_start"
        then (do
          state ← in_session (adapter.get_vm_power_state vm.id place)
          compare_create vm o.phase state.status state.locked)
        else leave_create_unknown o.phase
