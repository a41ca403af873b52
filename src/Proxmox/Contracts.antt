-- ===== src/Proxmox/Contracts.antt =====
-- portal/app/proxmox/contracts.py. An adapter acts on a world `W` of its own, the provider's
-- state: each call returns a result or raises, and leaves a new world behind.
use server_npd.Prelude.{ℕ, String, Bool, Option, ◌==◌, str_eq, ◌&&◌}
use server_npd.Outcome.{Exec}

pub record CreateVmRequest : Type 0 where
  pub vm_id : ℕ
  pub image_id : String
  pub vcpus : ℕ
  pub memory_mb : ℕ
  pub storage_gb : ℕ
  pub ssh_public_key : String

pub record ProviderTask : Type 0 where
  pub task_id : String
  pub vmid : ℕ
  pub node : String

-- The `state` of a clone or a delete result.
pub data SubmitState : Type 0 where
  submitted in_progress succeeded : SubmitState

pub record ProviderCloneResult : Type 0 where
  pub state : SubmitState
  pub task : Option ProviderTask

pub record ProviderDeleteResult : Type 0 where
  pub state : SubmitState
  pub task : Option ProviderTask

pub data TaskState : Type 0 where
  running succeeded failed : TaskState

pub record ProviderTaskStatus : Type 0 where
  pub status : TaskState
  pub error_code : Option String

pub data PowerState : Type 0 where
  running stopped missing : PowerState

pub record ProviderVmState : Type 0 where
  pub status : PowerState
  pub locked : Bool

pub record ProviderPlacement : Type 0 where
  pub node : String
  pub vmid : ℕ

pub record ProxmoxAdapter (W : Type 0) : Type 0 where
  pub get_vm_power_state : ℕ → ProviderPlacement → Exec W ProviderVmState
  pub choose_clone_target : CreateVmRequest → Exec W ProviderPlacement
  pub get_task_status : ProviderTask → Exec W ProviderTaskStatus
  pub clone_vm : CreateVmRequest → ProviderPlacement → Exec W ProviderCloneResult
  pub configure_vm : CreateVmRequest → ProviderPlacement → Exec W (Option ProviderTask)
  pub resize_vm_disk : CreateVmRequest → ProviderPlacement → Exec W (Option ProviderTask)
  pub start_vm : ℕ → ProviderPlacement → Exec W (Option ProviderTask)
  pub shutdown_vm : ℕ → ProviderPlacement → Exec W (Option ProviderTask)
  pub stop_vm : ℕ → ProviderPlacement → Exec W (Option ProviderTask)
  pub delete_vm : ℕ → ProviderPlacement → Exec W ProviderDeleteResult

-- `task.node == node and task.vmid == vmid`
abbrev pub targets : ProviderTask → ProviderPlacement → Bool
targets task place = str_eq task.node place.node && task.vmid == place.vmid

abbrev power_rank : PowerState → ℕ
power_rank PowerState.running = 0
power_rank PowerState.stopped = 1
power_rank PowerState.missing = 2

abbrev pub is_power : PowerState → PowerState → Bool
is_power s t = power_rank s == power_rank t

-- The chain of tests on `result.state`: submitted, in progress, succeeded.
abbrev pub submit_state_case {ℓ} : {A : Type ℓ} → SubmitState → A → A → A → A
submit_state_case SubmitState.submitted a b c = a
submit_state_case SubmitState.in_progress a b c = b
submit_state_case SubmitState.succeeded a b c = c

-- The chain of tests on `task_status.status`: running, succeeded, failed.
abbrev pub task_state_case {ℓ} : {A : Type ℓ} → TaskState → A → A → A → A
task_state_case TaskState.running a b c = a
task_state_case TaskState.succeeded a b c = b
task_state_case TaskState.failed a b c = c
