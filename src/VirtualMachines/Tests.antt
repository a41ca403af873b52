-- ===== src/VirtualMachines/Tests.antt =====
-- Requests to small tables, and the theorems at them.
use server_npd.Prelude.{ℕ, ◌≡◌, ◌≤◌, ◌⊎◌, arith, refl, true, [], ◌∷◌}
use server_npd.Prelude.Rows.{row, first, select}
use mathlib.Core.Logic.{◌↔◌}
use server_npd.Outcome.{ok, err, value_error, catch, ◌>>=◌}
use server_npd.Models.{
  Db, vm_shutdown, VirtualMachine, VmStatus, SshPublicKey, ComputePlan, UserQuota, QuotaStatus,
}
use server_npd.Compute.{total, get_user_compute_usage}
use server_npd.VirtualMachines.Creation.{
  VirtualMachineCreate, Environment, new_vm, validate_vm_quota, get_existing_vm_for_create_request,
  check_existing, add_vm, flush_rows, create_or_replay, create_vm,
}
use server_npd.VirtualMachines.Creation.Quota.{IsWithin, plus_request, validate_vm_quota-IsWithin}
use server_npd.VirtualMachines.Creation.Replay.{
  Created, create_vm-Created, create_vm-again, create_vm-IsWithin, IsOwnPlan,
}
use server_npd.VirtualMachines.Enqueue.{
  enqueue_vm_operation, add_or_replay, add_operation, active_operation,
}
use server_npd.VirtualMachines.Enqueue.Single.{
  queued, with_queued, Enqueued, enqueue_vm_operation-Enqueued,
}
use server_npd.VirtualMachines.Enqueue.Live.{
  enqueue_vm_operation-again, live_operations, enqueue_vm_operation-live,
}

abbrev environment : ℕ → Environment
environment id = record { new_vm_id = id; new_operation_id = id; now = 5; others = λ db. db }

abbrev starter : ComputePlan
starter = record {
  id = 4;
  code = "starter";
  max_vms = 2;
  max_total_vcpus = 4;
  max_total_memory_mb = 4096;
  max_total_storage_gb = 40;
  max_shared_storage_gb = 0;
  is_active = true;
}

abbrev quota : UserQuota
quota = record { user_id = 1; compute_plan_id = 4; status = QuotaStatus.active }

abbrev ssh_key : SshPublicKey
ssh_key = record {
  id = 3;
  owner_user_id = 1;
  name = "laptop";
  key_type = "ssh-ed25519";
  public_key = "AAAA";
  fingerprint = "f";
  created_at = 0;
}

abbrev small : VirtualMachineCreate
small = record {
  requested_vcpus = 2;
  requested_memory_mb = 2048;
  requested_storage_gb = 20;
  image_id = "almalinux-9";
  ssh_public_key_id = 3;
}

abbrev empty : Db
empty = record {
  operations = [];
  virtual_machines = [];
  ssh_keys = ssh_key ∷ [];
  user_quotas = quota ∷ [];
  compute_plans = starter ∷ [];
}

abbrev first_vm : VirtualMachine
first_vm = new_vm (environment 7) 1 small

abbrev created : Db
created = (create_vm (environment 7) 1 small "k" empty).1

created_ok : create_vm (environment 7) 1 small "k" empty ≡ (ok first_vm, created)
unfolding create_vm create_or_replay get_existing_vm_for_create_request check_existing add_vm
    validate_vm_quota flush_rows get_user_compute_usage total select row first catch ◌>>=◌
created_ok = refl

-- The third machine is one more than the plan allows.
third_is_refused :
    create_vm (environment 9) 1 small "n" (create_vm (environment 8) 1 small "m" created).1
    ≡ (err (value_error "VM limit exceeded"), (create_vm (environment 8) 1 small "m" created).1)
unfolding create_vm create_or_replay get_existing_vm_for_create_request check_existing add_vm
    validate_vm_quota flush_rows get_user_compute_usage total select row first catch ◌>>=◌
third_is_refused = refl

create_vm-Created_example :
    Created (environment 7) 1 small "k" empty (create_vm (environment 7) 1 small "k" empty)
create_vm-Created_example = create_vm-Created (environment 7) 1 small "k" empty

create_vm-again_example : create_vm (environment 8) 1 small "k" created ≡ (ok first_vm, created)
unfolding create_vm create_or_replay get_existing_vm_for_create_request check_existing add_vm
    validate_vm_quota flush_rows get_user_compute_usage total select row first catch ◌>>=◌
create_vm-again_example =
    create_vm-again (environment 7) (environment 8) 1 small "k" empty created first_vm created_ok
      (record { ssh_key = ssh_key; has_key = refl; quota = quota; has_quota = refl })

create_vm-IsWithin_example :
    (get_user_compute_usage 1 created ≡ get_user_compute_usage 1 empty)
    ⊎ ((plan : ComputePlan) × IsOwnPlan 1 empty plan
        × IsWithin plan (get_user_compute_usage 1 created))
create_vm-IsWithin_example =
    create_vm-IsWithin (environment 7) 1 small "k" empty created first_vm refl created_ok

validate_vm_quota-IsWithin_example :
    let (q, db') = validate_vm_quota starter (get_user_compute_usage 1 created) small created in
    (db' ≡ created)
    × ((q ≡ ok tt) ↔ IsWithin starter (plus_request (get_user_compute_usage 1 created) small))
validate_vm_quota-IsWithin_example =
    validate_vm_quota-IsWithin starter (get_user_compute_usage 1 created) small created

abbrev running : Db
running = record empty { virtual_machines = record first_vm { status = VmStatus.running } ∷ [] }

abbrev stopping : Db
stopping = with_queued (environment 2) 7 vm_shutdown "s" running

stopping_ok :
    enqueue_vm_operation (environment 2) 1 7 vm_shutdown "s" running
    ≡ (ok (queued (environment 2) 7 vm_shutdown "s"), stopping)
unfolding enqueue_vm_operation add_or_replay add_operation active_operation flush_rows first catch
    ◌>>=◌
stopping_ok = refl

-- A second request under another key waits for the first to end.
second_is_refused :
    enqueue_vm_operation (environment 3) 1 7 vm_shutdown "t" stopping
    ≡ (err (value_error "virtual machine already has an active operation"), stopping)
unfolding enqueue_vm_operation add_or_replay add_operation active_operation flush_rows first catch
    ◌>>=◌
second_is_refused = refl

enqueue_vm_operation-Enqueued_example :
    Enqueued
      (environment 3)
      1
      7
      vm_shutdown
      "t"
      stopping
      (enqueue_vm_operation (environment 3) 1 7 vm_shutdown "t" stopping)
enqueue_vm_operation-Enqueued_example =
    enqueue_vm_operation-Enqueued (environment 3) 1 7 vm_shutdown "t" stopping

enqueue_vm_operation-again_example :
    enqueue_vm_operation (environment 3) 1 7 vm_shutdown "s" stopping
    ≡ (ok (queued (environment 2) 7 vm_shutdown "s"), stopping)
unfolding first
enqueue_vm_operation-again_example =
    enqueue_vm_operation-again (environment 2) (environment 3) 1 7 vm_shutdown "s" running stopping
      (queued (environment 2) 7 vm_shutdown "s") (record first_vm { status = VmStatus.running })
      stopping_ok refl

none_live : (i : ℕ) → live_operations i [] ≤ 1
unfolding live_operations
none_live i = ground arith

enqueue_vm_operation-live_example :
    live_operations 7
      (enqueue_vm_operation (environment 2) 1 7 vm_shutdown "s" running).1.operations
    ≤ 1
enqueue_vm_operation-live_example =
    enqueue_vm_operation-live (environment 2) 1 7 vm_shutdown "s" running refl none_live none_live 7
