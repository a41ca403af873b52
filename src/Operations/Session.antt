-- ===== src/Operations/Session.antt =====
-- What a service function of portal/app/operations/services.py reads and writes: the claimed
-- operation, the two tables that it looks up, the clock, and the provider behind the adapter.
-- The clock stands still within a call. `db.flush()` writes what a commit writes anyway, so it is
-- no step here.
pub mod Keeps
use server_npd.Prelude.{ℕ, String, List, ◌==◌, not}
use server_npd.Prelude.Rows.{row, put_row}
use server_npd.Outcome.{runtime_error, ok, Done, Exec, pure, gets, need, raise_if, ◌>>=◌, ◌>>◌}
use server_npd.Models.{Operation, VirtualMachine, VmStatus, SshPublicKey}
use server_npd.Proxmox.{CreateVmRequest, ProviderPlacement}

pub record Session (W : Type 0) : Type 0 where
  pub operation : Operation
  pub virtual_machines : List VirtualMachine
  pub ssh_keys : List SshPublicKey
  pub now : ℕ
  pub world : W

module _ {W : Type 0} where
  unfoldable pub the_operation : Exec (Session W) Operation
  the_operation s = (ok s.operation, s)

  unfoldable pub the_time : Exec (Session W) ℕ
  the_time s = (ok s.now, s)

  -- Assignments to attributes of the operation.
  unfoldable pub set_operation : (Operation → Operation) → Exec (Session W) Done
  set_operation f s = (ok tt, record s { operation = f s.operation })

  -- Assignments to attributes of a virtual machine that `db.get` returned.
  unfoldable pub save_vm : VirtualMachine → Exec (Session W) Done
  save_vm vm s = (ok tt, record s { virtual_machines = put_row (λ v. v.id) vm s.virtual_machines })

  abbrev pub set_vm_status : VirtualMachine → VmStatus → Exec (Session W) Done
  set_vm_status vm st = save_vm (record vm { status = st })

  -- `db.get(VirtualMachine, operation.virtual_machine_id)`
  unfoldable pub get_vm : String → Exec (Session W) VirtualMachine
  unfolding ◌>>=◌
  get_vm message = do
    found ← gets (λ s. row (λ v. v.id) s.operation.virtual_machine_id s.virtual_machines)
    need found (runtime_error message)

  -- A call of the adapter. Opening this opens the actions above too.
  unfoldable pub in_session : {A : Type 0} → Exec W A → Exec (Session W) A
  unfolding ◌>>=◌ the_operation the_time set_operation save_vm get_vm
  in_session m s = let (r, w) = m s.world in (r, record s { world = w })

  unfoldable pub placed : VirtualMachine → Exec (Session W) (VirtualMachine × ProviderPlacement)
  placed vm = do
    node ← need vm.provider_node (runtime_error "virtual machine has incomplete provider placement")
    vmid ← need vm.provider_vmid (runtime_error "virtual machine has incomplete provider placement")
    pure (vm, record { node = node; vmid = vmid })

  -- `_get_lifecycle_vm`, with the placement that it has found to be complete.
  unfoldable pub get_lifecycle_vm : Exec (Session W) (VirtualMachine × ProviderPlacement)
  get_lifecycle_vm = do vm ← get_vm "virtual machine is missing"; placed vm

  unfoldable pub build_create_vm_request : VirtualMachine → Exec (Session W) CreateVmRequest
  build_create_vm_request vm = do
    key_id ← need vm.ssh_public_key_id (runtime_error "virtual machine has no SSH public key")
    keys ← gets (λ s. s.ssh_keys)
    ssh_key ←
        need (row (λ k. k.id) key_id keys)
          (runtime_error "virtual machine references missing SSH public key")
    raise_if (not (ssh_key.owner_user_id == vm.owner_user_id))
        (runtime_error "SSH public key belongs to another user")
    pure (record {
      vm_id = vm.id;
      image_id = vm.image_id;
      vcpus = vm.requested_vcpus;
      memory_mb = vm.requested_memory_mb;
      storage_gb = vm.requested_storage_gb;
      ssh_public_key = ssh_key.public_key;
    })
