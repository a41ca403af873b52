-- ===== src/Proxmox/Fake.antt =====
-- portal/app/proxmox/fake.py: the adapter of the tests and of local runs. The text of a UUID and
-- its parser are Python's; here they are parameters, and a UUID is its number.
pub mod Power
pub mod Removal
pub mod Promise
use server_npd.Prelude.{
  ℕ, String, Bool, true, false, Option, none, some, List, [], ◌∷◌, ◌+◌, ◌==◌, ◌||◌, ◌&&◌, ◌<>◌, not,
  str_eq, one_of, is_some, if◌then◌else◌, option_case,
}
use server_npd.Outcome.{
  Error, runtime_error, Done, Exec, ok, pure, raise, gets, need, raise_if, ◌>>=◌, ◌>>◌,
}
use server_npd.Proxmox.Contracts.{
  CreateVmRequest, ProviderTask, ProviderCloneResult, ProviderDeleteResult, SubmitState, TaskState,
  ProviderTaskStatus, PowerState, ProviderVmState, ProviderPlacement, ProxmoxAdapter,
}
use Prim.Native.String.{len, slice}
use Prim.Native.Nat.{zero, suc, ◌%◌}
use text.Mathlib.Text.{find?}

-- The attributes of the object.
pub record FakeState : Type 0 where
  pub created_vms : List (ℕ × CreateVmRequest)
  pub task_statuses : List (String × ProviderTaskStatus)
  pub deleted_vmids : List ℕ
  pub power_states : List (ℕ × PowerState)

unfoldable pub vmid_for_vm_id : ℕ → ℕ
vmid_for_vm_id vm_id = 100000 + vm_id % 899900000

-- `dict.get`, `dict.pop(key, None)` and `in` of a set.
unfoldable pub get_entry {ℓ} : {A : Type ℓ} → ℕ → List (ℕ × A) → Option A
get_entry k [] = none
get_entry k ((i, a) ∷ xs) = if i == k then some a else get_entry k xs

unfoldable pub pop_entry {ℓ} : {A : Type ℓ} → ℕ → List (ℕ × A) → List (ℕ × A)
pop_entry k [] = []
pop_entry k ((i, a) ∷ xs) = let rest = pop_entry k xs in if i == k then rest else (i, a) ∷ rest

unfoldable pub get_status : String → List (String × ProviderTaskStatus) → Option ProviderTaskStatus
get_status k [] = none
get_status k ((i, a) ∷ xs) = if str_eq i k then some a else get_status k xs

unfoldable pub has_vmid : ℕ → List ℕ → Bool
has_vmid k [] = false
has_vmid k (i ∷ xs) = i == k || has_vmid k xs

-- `text.split(":")`. A text has at most one part more than characters.
unfoldable pub split_colons : ℕ → String → List String
split_colons zero s = s ∷ []
split_colons (suc fuel) s =
    option_case (find? s ":") (s ∷ [])
      (λ i. slice s 0 i ∷ split_colons fuel (slice s (i + 1) (len s)))

abbrev has_entry {ℓ} : {A : Type ℓ} → ℕ → List (ℕ × A) → Bool
has_entry k xs = is_some (get_entry k xs)

-- The results and errors of every method.
abbrev pub task_succeeded : ProviderTaskStatus
task_succeeded = record { status = TaskState.succeeded; error_code = none }

abbrev task_id_error : Error
task_id_error = runtime_error "invalid fake provider task id"

-- `prefix, operation_type, raw_vm_id = parts`, where there are three.
abbrev three_parts : List String → Option (String × String × String)
three_parts (a ∷ b ∷ c ∷ []) = some (a, b, c)
three_parts _ = none

module _ (show_uuid : ℕ → String) (parse_uuid : String → Option ℕ) (own_node : String) where
  -- The two guards that every call but the first begins with.
  unfoldable pub check_target : ℕ → ProviderPlacement → Exec FakeState Done
  check_target vm_id place = do
    raise_if (not (str_eq place.node own_node)) (runtime_error "fake provider node does not match")
    raise_if (not (place.vmid == vmid_for_vm_id vm_id))
        (runtime_error "fake provider VMID does not match")

  abbrev fake_task : String → ℕ → ProviderPlacement → ProviderTask
  fake_task name vm_id place = record {
    task_id = "fake:" <> (name <> (":" <> show_uuid vm_id));
    vmid = place.vmid;
    node = place.node;
  }

  unfoldable pub store_status : ProviderTask → Exec FakeState Done
  store_status task s =
      (ok tt, record s { task_statuses = (task.task_id, task_succeeded) ∷ s.task_statuses })

  unfoldable pub set_power : ℕ → PowerState → Exec FakeState Done
  set_power vmid p s = (ok tt, record s { power_states = (vmid, p) ∷ s.power_states })

  unfoldable pub add_created : ℕ → CreateVmRequest → Exec FakeState Done
  add_created vmid request s = (ok tt, record s { created_vms = (vmid, request) ∷ s.created_vms })

  unfoldable pub fake_clone_vm :
      CreateVmRequest → ProviderPlacement → Exec FakeState ProviderCloneResult
  fake_clone_vm request place = do
    check_target request.vm_id place
    let task : ProviderTask = fake_task "clone" request.vm_id place
    add_created place.vmid request
    set_power place.vmid PowerState.stopped
    store_status task
    pure (record { state = SubmitState.submitted; task = some task })

  -- A task that is not in the table is judged by its text.
  unfoldable pub fake_task_by_text : ProviderTask → Exec FakeState ProviderTaskStatus
  fake_task_by_text task = do
    (prefix, operation_type, raw_vm_id) ←
        need (three_parts (split_colons (len task.task_id) task.task_id)) task_id_error
    raise_if
        (not (str_eq prefix "fake")
          || not (
              one_of operation_type
                ("clone" ∷ "resize" ∷ "start" ∷ "shutdown" ∷ "stop" ∷ "delete" ∷ [])))
        task_id_error
    vm_id ← need (parse_uuid raw_vm_id) task_id_error
    raise_if (not (task.vmid == vmid_for_vm_id vm_id))
        (runtime_error "fake provider VMID does not match task")
    raise_if (not (str_eq task.node own_node))
        (runtime_error "fake provider node does not match task")
    pure task_succeeded

  unfoldable pub fake_get_task_status : ProviderTask → Exec FakeState ProviderTaskStatus
  fake_get_task_status task = do
    status ← gets (λ s. get_status task.task_id s.task_statuses)
    option_case status (fake_task_by_text task) pure

  unfoldable pub fake_configure_vm :
      CreateVmRequest → ProviderPlacement → Exec FakeState (Option ProviderTask)
  fake_configure_vm request place = do check_target request.vm_id place; pure none

  unfoldable pub fake_resize_vm_disk :
      CreateVmRequest → ProviderPlacement → Exec FakeState (Option ProviderTask)
  fake_resize_vm_disk request place = do
    check_target request.vm_id place
    let task : ProviderTask = fake_task "resize" request.vm_id place
    store_status task
    pure (some task)

  unfoldable pub fake_start_vm : ℕ → ProviderPlacement → Exec FakeState (Option ProviderTask)
  fake_start_vm vm_id place = do
    check_target vm_id place
    let task : ProviderTask = fake_task "start" vm_id place
    store_status task
    set_power place.vmid PowerState.running
    pure (some task)

  unfoldable pub fake_shutdown_vm : ℕ → ProviderPlacement → Exec FakeState (Option ProviderTask)
  fake_shutdown_vm vm_id place = do
    check_target vm_id place
    let task : ProviderTask = fake_task "shutdown" vm_id place
    store_status task
    set_power place.vmid PowerState.stopped
    pure (some task)

  unfoldable pub fake_stop_vm : ℕ → ProviderPlacement → Exec FakeState (Option ProviderTask)
  fake_stop_vm vm_id place = do
    check_target vm_id place
    let task : ProviderTask = fake_task "stop" vm_id place
    store_status task
    set_power place.vmid PowerState.stopped
    pure (some task)

  abbrev pub power_of : ℕ → FakeState → ProviderVmState
  power_of vmid s =
      if has_vmid vmid s.deleted_vmids
        || not (has_entry vmid s.created_vms) && not (has_entry vmid s.power_states)
      then record { status = PowerState.missing; locked = false }
      else record {
        status = option_case (get_entry vmid s.power_states) PowerState.stopped (λ p. p);
        locked = false;
      }

  unfoldable pub fake_get_vm_power_state : ℕ → ProviderPlacement → Exec FakeState ProviderVmState
  fake_get_vm_power_state vm_id place = do check_target vm_id place; gets (power_of place.vmid)

  unfoldable pub drop_vm : ℕ → Exec FakeState Done
  drop_vm vmid s = (
    ok tt,
    record s {
      deleted_vmids = vmid ∷ s.deleted_vmids;
      created_vms = pop_entry vmid s.created_vms;
      power_states = pop_entry vmid s.power_states;
    },
  )

  unfoldable pub fake_delete_vm : ℕ → ProviderPlacement → Exec FakeState ProviderDeleteResult
  fake_delete_vm vm_id place = do
    check_target vm_id place
    deleted ← gets (λ s. has_vmid place.vmid s.deleted_vmids)
    if deleted then pure (record { state = SubmitState.succeeded; task = none }) else (do
      let task : ProviderTask = fake_task "delete" vm_id place
      store_status task
      drop_vm place.vmid
      pure (record { state = SubmitState.submitted; task = some task }))

  abbrev pub fake_adapter : ProxmoxAdapter FakeState
  fake_adapter = record {
    get_vm_power_state = fake_get_vm_power_state;
    choose_clone_target =
        λ request. pure (record { node = own_node; vmid = vmid_for_vm_id request.vm_id });
    get_task_status = fake_get_task_status;
    clone_vm = fake_clone_vm;
    configure_vm = fake_configure_vm;
    resize_vm_disk = fake_resize_vm_disk;
    start_vm = fake_start_vm;
    shutdown_vm = fake_shutdown_vm;
    stop_vm = fake_stop_vm;
    delete_vm = fake_delete_vm;
  }
