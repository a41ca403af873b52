-- ===== src/Worker/Tests/Runs.antt =====
-- The worker's rounds over one machine, and over a machine that holds up another.
use server_npd.Prelude.{ℕ, ◌≡◌, refl, some, List, [], ◌∷◌, remove_prefix}
use server_npd.Prelude.Rows.{row, put_row}
use server_npd.Outcome.{◌>>=◌}
use server_npd.Models.{Operation, OperationStatus, VmStatus}
use server_npd.Proxmox.Fake.{
  FakeState, fake_start_vm, fake_shutdown_vm, fake_stop_vm, check_target, store_status, set_power,
  add_created, fake_clone_vm, fake_configure_vm, fake_resize_vm_disk, fake_get_task_status,
  get_status, vmid_for_vm_id,
}
use server_npd.Operations.Session.{
  get_lifecycle_vm, placed, build_create_vm_request, get_vm, in_session,
}
use server_npd.Operations.Create.Provision.{start_create_vm_operation, place_or_clone}
use server_npd.Operations.Create.Refresh.{
  process_create_vm_operation, refresh_create_vm_operation, advance_create,
}
use server_npd.Operations.Create.Dispatch.{
  prepare_create_vm_dispatch, finish_create_vm_dispatch, finish_create_result, finish_clone,
  store_create_task, complete_create_step,
}
use server_npd.Worker.Submit.{send, send_create, store_reply}
use server_npd.Worker.Claim.{next_operation, oldest, claimable}
use server_npd.Worker.Step.{step, step_create, step_pending_clone, prepare_create, poll_create}
use server_npd.Worker.Transaction.{
  Server, with_operation, close_transaction, written, stamp, same_columns, vmids_are_unique,
  vmid_is_used,
}
use server_npd.Worker.Round.{claim_and_step, run_worker, run_once, submit, store_outcome}
use server_npd.Worker.Tests.{adapter, server, creation, machine, blocked}

-- Eight rounds create the machine: a place, then four commands with a poll for each task.
abbrev rounds : List (ℕ × ℕ)
rounds = (1, 1) ∷ (2, 2) ∷ (3, 3) ∷ (4, 4) ∷ (5, 5) ∷ (6, 6) ∷ (7, 7) ∷ (8, 8) ∷ []

abbrev created : Server FakeState
created = run_worker adapter rounds (server creation machine)

create_vm_run :
    (row (λ (o : Operation). o.id) 1 created.db.operations
      ≡ some (record creation {
        status = OperationStatus.succeeded;
        phase = some "complete";
        attempts = 4;
        updated_at = 8;
      }))
    × (created.db.virtual_machines
        ≡ record machine {
          status = VmStatus.running;
          provider_node = some "fake-node";
          provider_vmid = some 100007;
        }
          ∷ [])
unfolding run_worker run_once claim_and_step submit store_outcome send send_create store_reply
    with_operation close_transaction written stamp same_columns vmids_are_unique vmid_is_used
    next_operation oldest claimable step step_create step_pending_clone prepare_create poll_create
    prepare_create_vm_dispatch get_lifecycle_vm placed build_create_vm_request
    process_create_vm_operation start_create_vm_operation place_or_clone finish_create_vm_dispatch
    finish_create_result finish_clone store_create_task complete_create_step
    refresh_create_vm_operation advance_create get_vm in_session row put_row remove_prefix
    check_target store_status set_power add_created fake_clone_vm fake_configure_vm
    fake_resize_vm_disk fake_start_vm fake_shutdown_vm fake_stop_vm fake_get_task_status get_status
    vmid_for_vm_id ◌>>=◌
create_vm_run = (refl, refl)

-- A creation whose machine's SSH key is gone raises in every round, and the creation after it
-- waits.
blocked_run : run_worker adapter rounds blocked ≡ blocked
unfolding run_worker run_once claim_and_step close_transaction next_operation oldest claimable step
    step_create step_pending_clone process_create_vm_operation start_create_vm_operation
    build_create_vm_request get_vm in_session row ◌>>=◌
blocked_run = refl
