-- ===== src/Models/Machines.antt =====
-- portal/app/virtual_machines/models.py, and the columns of portal/app/ssh_keys/models.py.
use server_npd.Prelude.{ℕ, String, Bool, Option, ◌==◌}

-- The CHECK constraint `vm_user_status`.
pub data VmStatus : Type 0 where
  pending pending_capacity provisioning running stopped failed deleting deleted : VmStatus

pub record VirtualMachine : Type 0 where
  pub id : ℕ
  pub owner_user_id : ℕ
  pub status : VmStatus
  pub requested_vcpus : ℕ
  pub requested_memory_mb : ℕ
  pub requested_storage_gb : ℕ
  pub image_id : String
  pub provider_vmid : Option ℕ
  pub provider_node : Option String
  pub ssh_public_key_id : Option ℕ
  pub created_at : ℕ

pub record SshPublicKey : Type 0 where
  pub id : ℕ
  pub owner_user_id : ℕ
  pub name : String
  pub key_type : String
  pub public_key : String
  pub fingerprint : String
  pub created_at : ℕ

abbrev vm_status_rank : VmStatus → ℕ
vm_status_rank VmStatus.pending = 0
vm_status_rank VmStatus.pending_capacity = 1
vm_status_rank VmStatus.provisioning = 2
vm_status_rank VmStatus.running = 3
vm_status_rank VmStatus.stopped = 4
vm_status_rank VmStatus.failed = 5
vm_status_rank VmStatus.deleting = 6
vm_status_rank VmStatus.deleted = 7

abbrev pub is_vm_status : VmStatus → VmStatus → Bool
is_vm_status s t = vm_status_rank s == vm_status_rank t
