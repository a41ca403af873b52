-- ===== src/Worker/Tests.antt =====
-- The theorems on the worker at concrete tables, with the fake adapter.
pub mod Runs
pub mod Remote
use server_npd.Prelude.{
  ℕ, String, ◌≢◌, arith, ◌≡◌, ◌≤◌, refl, false, Option, none, some, List, [], ◌∷◌, ◌==◌,
  if◌then◌else◌, remove_prefix,
}
use server_npd.Prelude.Rows.{row, put_row}
use server_npd.Outcome.{err, runtime_error, ◌>>=◌}
use server_npd.Models.{
  Db, Operation, OperationStatus, vm_create, vm_shutdown, VirtualMachine, VmStatus, SshPublicKey,
}
use server_npd.Proxmox.{ProxmoxAdapter, ProviderPlacement, PowerState}
use server_npd.Proxmox.Fake.{
  FakeState, fake_adapter, fake_start_vm, check_target, store_status, set_power, add_created,
  fake_clone_vm, fake_configure_vm, fake_resize_vm_disk, fake_get_task_status, has_vmid, get_status,
  vmid_for_vm_id,
}
use server_npd.Proxmox.Fake.{fake_delete_vm}
use server_npd.Proxmox.Promise.{Submits}
use server_npd.Proxmox.Fake.Promise.{fake_adapter-Submits}
use server_npd.Proxmox.Fake.Removal.{Removed, fake_delete_vm-Removed}
use server_npd.Proxmox.Fake.Power.{Powered, fake_adapter-Powered}
use server_npd.Operations.Session.{
  get_lifecycle_vm, placed, build_create_vm_request, get_vm, in_session,
}
use server_npd.Operations.Create.Provision.{start_create_vm_operation, place_or_clone}
use server_npd.Operations.Create.Refresh.{
  process_create_vm_operation, refresh_create_vm_operation, advance_create,
}
use server_npd.Operations.Create.Dispatch.{
  prepare_create_vm_dispatch, finish_create_vm_dispatch, finish_create_result, finish_clone,
  store_create_task, complete_create_step,
}
use server_npd.Operations.Lifecycle.Dispatch.{prepare_lifecycle_dispatch, lifecycle_command}
use server_npd.Worker.Submit.{send, send_create, store_reply}
use server_npd.Worker.Claim.{next_operation, oldest, claimable}
use server_npd.Worker.Claim.Order.{Chosen, next_operation-Chosen}
use server_npd.Worker.Step.{
  Dispatch, create_dispatch, lifecycle_dispatch, step, step_create, step_pending_clone,
  prepare_create, poll_create, step_lifecycle,
}
use server_npd.Worker.Transaction.{
  Server, open_session, with_operation, close_transaction, written, stamp, same_columns,
  vmids_are_unique, vmid_is_used,
}
use server_npd.Worker.Round.{claim_and_step, run_worker, run_once, submit, store_outcome}
use server_npd.Worker.Ledger.{attempts_of}
use server_npd.Worker.Frame.Reads.{IsReadOnly, mark}
use server_npd.Worker.Frame.Took.{Took}
use server_npd.Worker.Frame.Steps.{Took-step}
use server_npd.Worker.Cluster.{
  Cluster, after_claim, after_call, here, next, claim, call, commands_for,
}
use server_npd.Worker.Cluster.Attempts.{sent-le-attempts}
use server_npd.Worker.Local.{fake_adapter-IsReadOnly}
use server_npd.Worker.Isolation.{SameRow, SameRow-store_outcome}
use server_npd.Worker.Grace.{step-graced}

abbrev uuid_text : ℕ → String
uuid_text id = if id == 7 then "seven" else "other"

abbrev uuid_of_text : String → Option ℕ
uuid_of_text s = none

abbrev adapter : ProxmoxAdapter FakeState
adapter = fake_adapter uuid_text uuid_of_text "fake-node"

abbrev empty_provider : FakeState
empty_provider = record {
  created_vms = [];
  task_statuses = [];
  deleted_vmids = [];
  power_states = [];
}

abbrev machine : VirtualMachine
machine = record {
  id = 7;
  owner_user_id = 1;
  status = VmStatus.pending;
  requested_vcpus = 2;
  requested_memory_mb = 2048;
  requested_storage_gb = 20;
  image_id = "almalinux-9";
  provider_vmid = none;
  provider_node = none;
  ssh_public_key_id = some 3;
  created_at = 0;
}

abbrev ssh_key : SshPublicKey
ssh_key = record {
  id = 3;
  owner_user_id = 1;
  name = "laptop";
  key_type = "ssh-ed25519";
  public_key = "AAAA";
  fingerprint = "f";
  created_at = 0;
}

abbrev creation : Operation
creation = record {
  id = 1;
  virtual_machine_id = 7;
  operation_type = vm_create;
  status = OperationStatus.pending;
  phase = some "clone";
  idempotency_key = "k";
  attempts = 0;
  last_error_code = none;
  provider_task_id = none;
  created_at = 0;
  updated_at = 0;
}

abbrev tables : Operation → VirtualMachine → Db
tables o vm = record {
  operations = o ∷ [];
  virtual_machines = vm ∷ [];
  ssh_keys = ssh_key ∷ [];
  user_quotas = [];
  compute_plans = [];
}

abbrev server : Operation → VirtualMachine → Server FakeState
server o vm = record { db = tables o vm; world = empty_provider }

-- Two creations, the machine of the first of which has no SSH key any more.
abbrev waiting : Operation
waiting = record creation { id = 2; virtual_machine_id = 8; updated_at = 1 }

abbrev blocked : Server FakeState
blocked = record {
  db = record {
    operations = waiting ∷ creation ∷ [];
    virtual_machines = machine ∷ record machine { id = 8 } ∷ [];
    ssh_keys = [];
    user_quotas = [];
    compute_plans = [];
  };
  world = empty_provider;
}

abbrev placed_machine : VirtualMachine
placed_machine = record machine { provider_node = some "fake-node"; provider_vmid = some 100007 }

abbrev target : ProviderPlacement
target = record { node = "fake-node"; vmid = 100007 }

abbrev stop_request : Operation
stop_request = record creation { operation_type = vm_shutdown; phase = none }

abbrev idle_cluster : Cluster FakeState
idle_cluster = record {
  server = server stop_request placed_machine;
  in_flight = [];
  answered = [];
  sent = [];
}

abbrev claimed : Cluster FakeState
claimed = after_claim adapter (λ _. false) 5 idle_cluster

abbrev shutdown : Dispatch
shutdown = lifecycle_dispatch 1 7 "shutdown" target

claimed_in_flight : claimed.in_flight ≡ shutdown ∷ []
unfolding claim_and_step close_transaction written stamp same_columns vmids_are_unique vmid_is_used
    next_operation oldest claimable step step_lifecycle prepare_lifecycle_dispatch lifecycle_command
    get_lifecycle_vm placed get_vm in_session row put_row ◌>>=◌
claimed_in_flight = refl

abbrev called : Cluster FakeState
called = after_call adapter shutdown [] claimed

sent-le-attempts_example : commands_for 1 called.sent ≤ attempts_of 1 called.server.db
unfolding row
sent-le-attempts_example =
    sent-le-attempts (fake_adapter-IsReadOnly uuid_text uuid_of_text "fake-node") {c = idle_cluster}
      {e = called} (refl, tt) refl refl
      (next (next here (claim idle_cluster (λ _. false) 5))
        (call claimed [] [] shutdown claimed_in_flight))
      1

Took-step_example :
    let (r, t) = step adapter (open_session (server creation placed_machine) creation 5) in
    Took (mark (open_session (server creation placed_machine) creation 5)) r t
Took-step_example =
    Took-step (fake_adapter-IsReadOnly uuid_text uuid_of_text "fake-node")
      (open_session (server creation placed_machine) creation 5)

next_operation-Chosen_example :
    Chosen (λ _. false) 9 blocked.db (next_operation (λ _. false) 9 blocked.db)
next_operation-Chosen_example = next_operation-Chosen (λ _. false) 9 blocked.db

fake_adapter-IsReadOnly_example : IsReadOnly adapter
fake_adapter-IsReadOnly_example = fake_adapter-IsReadOnly uuid_text uuid_of_text "fake-node"

fake_adapter-Submits_example : Submits adapter
fake_adapter-Submits_example = fake_adapter-Submits uuid_text uuid_of_text "fake-node"

fake_adapter-Powered_example :
    Powered uuid_text uuid_of_text "fake-node" PowerState.running 7 target empty_provider
      (adapter.start_vm 7 target empty_provider)
    × Powered uuid_text uuid_of_text "fake-node" PowerState.stopped 7 target empty_provider
        (adapter.shutdown_vm 7 target empty_provider)
    × Powered uuid_text uuid_of_text "fake-node" PowerState.stopped 7 target empty_provider
        (adapter.stop_vm 7 target empty_provider)
unfolding has_vmid
fake_adapter-Powered_example =
    fake_adapter-Powered uuid_text uuid_of_text "fake-node" 7 target empty_provider refl

-- Two creations that can go on.
abbrev queue : Server FakeState
queue = record blocked { db = record blocked.db { ssh_keys = ssh_key ∷ [] } }

SameRow-store_outcome_example :
    SameRow 2 queue.db (store_outcome 9 shutdown (err (runtime_error "timeout")) queue).1.db
SameRow-store_outcome_example =
    SameRow-store_outcome 9 shutdown (err (runtime_error "timeout")) queue 2 refl

abbrev clone : Dispatch
clone =
    create_dispatch 1 7 "clone"
      (some (record {
        vm_id = 7;
        image_id = "almalinux-9";
        vcpus = 2;
        memory_mb = 2048;
        storage_gb = 20;
        ssh_public_key = "AAAA";
      }))
      target

step-graced_example :
    claimable 300004 (
      stamp
        (step adapter (open_session (server creation placed_machine) creation 5)).1.now
        creation
        (step adapter (open_session (server creation placed_machine) creation 5)).1.operation)
    ≡ false
unfolding step step_create step_pending_clone prepare_create prepare_create_vm_dispatch
    get_lifecycle_vm placed build_create_vm_request get_vm in_session row ◌>>=◌
step-graced_example =
    step-graced (fake_adapter-IsReadOnly uuid_text uuid_of_text "fake-node")
      (open_session (server creation placed_machine) creation 5) clone 300004 refl refl
      (omega arith)

fake_delete_vm-Removed_example :
    Removed uuid_text uuid_of_text "fake-node" 7 target empty_provider
      (fake_delete_vm uuid_text uuid_of_text "fake-node" 7 target empty_provider)
fake_delete_vm-Removed_example =
    fake_delete_vm-Removed uuid_text uuid_of_text "fake-node" 7 target empty_provider
