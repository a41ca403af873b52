-- ===== src/VirtualMachines/Creation.antt =====
-- `create_vm`: a new machine and the operation that will create it, once for each idempotency key.
pub mod Quota
pub mod Replay
use server_npd.Prelude.{
  ℕ, String, Bool, true, false, Option, none, some, List, [], ◌∷◌, ◌+◌, ◌==◌, ◌&&◌, ◌||◌, is_none,
  not, str_eq, ltb, is_some, if◌then◌else◌, option_case,
}
use server_npd.Prelude.Rows.{first, row}
use server_npd.Outcome.Integrity.{except_integrity}
use server_npd.Outcome.{
  Error, runtime_error, value_error, permission_error, lookup_error, conflict_error,
  invalid_ssh_public_key_error, ssh_public_key_conflict_error, type_error, transport_error,
  http_exception, integrity_error, Result, ok, err, Done, Exec, pure, raise, gets, need, raise_if,
  catch, ◌>>=◌, ◌>>◌,
}
use server_npd.Models.{
  Db, Operation, OperationStatus, OperationType, is_type, vm_create, VirtualMachine, VmStatus,
  ComputePlan, UserQuota, QuotaStatus,
}
use server_npd.Compute.{Usage, get_user_compute_usage}

-- `VirtualMachineCreate`, validated: the three sizes are positive.
pub record VirtualMachineCreate : Type 0 where
  pub requested_vcpus : ℕ
  pub requested_memory_mb : ℕ
  pub requested_storage_gb : ℕ
  pub image_id : String
  pub ssh_public_key_id : ℕ

-- `IMAGE_MIN_STORAGE_GB.get(image_id)`
abbrev pub image_min_storage_gb : String → Option ℕ
image_min_storage_gb image = if str_eq image "almalinux-9" then some 10 else none

-- `select(Operation).where(Operation.idempotency_key == idempotency_key)`
abbrev pub by_key : String → Db → Option Operation
by_key key db = first (λ o. str_eq o.idempotency_key key) db.operations

abbrev same_key_id : Option ℕ → ℕ → Bool
same_key_id none id = false
same_key_id (some k) id = k == id

unfoldable pub request_matches : VirtualMachine → VirtualMachineCreate → Bool
request_matches vm request =
    vm.requested_vcpus == request.requested_vcpus
    && vm.requested_memory_mb == request.requested_memory_mb
    && vm.requested_storage_gb == request.requested_storage_gb
    && str_eq vm.image_id request.image_id
    && same_key_id vm.ssh_public_key_id request.ssh_public_key_id

-- The part of `_get_existing_vm_for_create_request` that has found an operation with the key.
unfoldable pub check_existing :
    ℕ → VirtualMachineCreate → Operation → Exec Db (Option VirtualMachine)
check_existing user_id request operation = do
  raise_if (not (is_type operation.operation_type vm_create))
      (value_error "idempotency key already used")
  found ← gets (λ db. row (λ v. v.id) operation.virtual_machine_id db.virtual_machines)
  vm ← need found (runtime_error "operation references missing VM")
  raise_if (not (vm.owner_user_id == user_id)) (value_error "idempotency key already used")
  raise_if (not (request_matches vm request))
      (value_error "idempotency key reused with different request")
  pure (some vm)

unfoldable pub get_existing_vm_for_create_request :
    String → ℕ → VirtualMachineCreate → Exec Db (Option VirtualMachine)
get_existing_vm_for_create_request key user_id request = do
  operation ← gets (by_key key)
  option_case operation (pure none) (check_existing user_id request)

unfoldable pub validate_vm_quota : ComputePlan → Usage → VirtualMachineCreate → Exec Db Done
validate_vm_quota plan usage request = do
  raise_if (ltb plan.max_vms (usage.used_vms + 1)) (value_error "VM limit exceeded")
  raise_if (ltb plan.max_total_vcpus (usage.used_vcpus + request.requested_vcpus))
      (value_error "vCPU limit exceeded")
  raise_if (ltb plan.max_total_memory_mb (usage.used_memory_mb + request.requested_memory_mb))
      (value_error "memory limit exceeded")
  raise_if (ltb plan.max_total_storage_gb (usage.used_storage_gb + request.requested_storage_gb))
      (value_error "storage limit exceeded")

abbrev pub is_active : QuotaStatus → Bool
is_active QuotaStatus.active = true
is_active QuotaStatus.suspended = false

-- What the database and Python supply to a request: two new keys (`uuid4`), the time, and what
-- other transactions commit between the request's queries and its flush.
pub record Environment : Type 0 where
  pub new_vm_id : ℕ
  pub new_operation_id : ℕ
  pub now : ℕ
  pub others : Db → Db

abbrev pub new_vm : Environment → ℕ → VirtualMachineCreate → VirtualMachine
new_vm env user_id request = record {
  id = env.new_vm_id;
  owner_user_id = user_id;
  status = VmStatus.pending;
  requested_vcpus = request.requested_vcpus;
  requested_memory_mb = request.requested_memory_mb;
  requested_storage_gb = request.requested_storage_gb;
  image_id = request.image_id;
  provider_vmid = none;
  provider_node = none;
  ssh_public_key_id = some request.ssh_public_key_id;
  created_at = env.now;
}

-- A row of `operations` with the columns' defaults.
abbrev pub new_operation : Environment → ℕ → OperationType → Option String → String → Operation
new_operation env vm_id t phase key = record {
  id = env.new_operation_id;
  virtual_machine_id = vm_id;
  operation_type = t;
  status = OperationStatus.pending;
  phase = phase;
  idempotency_key = key;
  attempts = 0;
  last_error_code = none;
  provider_task_id = none;
  created_at = env.now;
  updated_at = env.now;
}

-- A machine whose SSH key has been deleted meanwhile, which the foreign key refuses.
abbrev pub is_dangling : Option VirtualMachine → Db → Bool
is_dangling none db = false
is_dangling (some vm) db =
    option_case vm.ssh_public_key_id false (λ k. is_none (row (λ s. s.id) k db.ssh_keys))

-- `db.flush()` of the new rows, by then among those of the other transactions: the constraint
-- `uq_operations_idempotency_key` refuses a key that is taken, the foreign key a machine without
-- its SSH key, and the transaction is rolled back.
unfoldable pub flush_rows : Environment → Option VirtualMachine → Operation → Exec Db Done
flush_rows env vm operation db =
    let seen = env.others db in
    if is_some (by_key operation.idempotency_key seen) || is_dangling vm seen
    then (err integrity_error, seen)
    else (
      ok tt,
      record seen {
        virtual_machines = option_case vm seen.virtual_machines (λ v. v ∷ seen.virtual_machines);
        operations = operation ∷ seen.operations;
      },
    )

-- The request is new: the checks, and the two rows.
unfoldable pub add_vm :
    Environment → ℕ → VirtualMachineCreate → String → UserQuota → Exec Db VirtualMachine
add_vm env user_id request key quota = do
  raise_if (not (is_active quota.status)) (permission_error "user quota is suspended")
  minimum ← need (image_min_storage_gb request.image_id) (value_error "image is not allowed")
  raise_if (ltb request.requested_storage_gb minimum)
      (value_error "storage must be at least 10 GB for this image")
  found ← gets (λ db. row (λ p. p.id) quota.compute_plan_id db.compute_plans)
  plan ← need found (runtime_error "compute plan is missing")
  usage ← gets (get_user_compute_usage user_id)
  validate_vm_quota plan usage request
  let vm : VirtualMachine = new_vm env user_id request
  flush_rows env (some vm) (new_operation env vm.id vm_create (some "clone") key)
  pure vm

unfoldable pub create_or_replay :
    Environment → ℕ → VirtualMachineCreate → String → UserQuota → Exec Db VirtualMachine
create_or_replay env user_id request key quota = do
  existing ← get_existing_vm_for_create_request key user_id request
  option_case existing (add_vm env user_id request key quota) pure

-- After the rollback: another transaction has taken the key.
unfoldable pub replay_after_conflict : ℕ → VirtualMachineCreate → String → Exec Db VirtualMachine
replay_after_conflict user_id request key = do
  existing ← get_existing_vm_for_create_request key user_id request
  need existing (value_error "idempotency key already used")

unfoldable pub create_vm : Environment → ℕ → VirtualMachineCreate → String → Exec Db VirtualMachine
create_vm env user_id request key = do
  ssh_key ← gets (λ db.
      first (λ k. k.id == request.ssh_public_key_id && k.owner_user_id == user_id) db.ssh_keys)
  need ssh_key (value_error "SSH public key not found or does not belong to user")
  found ← gets (λ db. first (λ q. q.user_id == user_id) db.user_quotas)
  quota ← need found (runtime_error "user quota is missing")
  except_integrity (create_or_replay env user_id request key quota)
      (replay_after_conflict user_id request key)
