-- ===== src/Worker/Frame/Reads.antt =====
-- The queries of an adapter, and the steps that use no other call of it.
use server_npd.Prelude.{ℕ, refl, ◌≡◌, ◌∙◌, String, Option, Bool}
use server_npd.Outcome.{Exec}
use server_npd.Outcome.Keeps.{Keeps}
use server_npd.Models.{OperationType, VirtualMachine}
use server_npd.Proxmox.{
  CreateVmRequest, ProviderPlacement, ProviderTask, PowerState, TaskState, task_state_case,
  ProxmoxAdapter,
}
use server_npd.Operations.Session.{Session, in_session}
use server_npd.Operations.Session.Keeps.{session_rules}
use server_npd.Operations.Create.Refresh.{advance_create, refresh_create_vm_operation}
use server_npd.Operations.Create.Reconcile.{
  leave_create_unknown, compare_create, reconcile_create_vm_operation,
}
use server_npd.Operations.Start.{reconcile_start_vm_operation, process_start_vm_operation}
use server_npd.Operations.Lifecycle.Reconcile.{compare_lifecycle, reconcile_lifecycle_operation}

-- The queries of an adapter leave the provider as it is.
pub record IsReadOnly {W : Type 0} (adapter : ProxmoxAdapter W) : Type 0 where
  pub power : (id : ℕ) (p : ProviderPlacement) (w : W) → (adapter.get_vm_power_state id p w).1 ≡ w
  pub target : (r : CreateVmRequest) (w : W) → (adapter.choose_clone_target r w).1 ≡ w
  pub status : (t : ProviderTask) (w : W) → (adapter.get_task_status t w).1 ≡ w

-- What a poll or a reconciliation leaves as it was: the provider, the operation's identity and its
-- count of attempts.
pub record Mark (W : Type 0) : Type 0 where
  pub world : W
  pub id : ℕ
  pub attempts : ℕ
  pub virtual_machine_id : ℕ
  pub operation_type : OperationType
  pub idempotency_key : String

abbrev pub mark : {W : Type 0} → Session W → Mark W
mark s = record {
  world = s.world;
  id = s.operation.id;
  attempts = s.operation.attempts;
  virtual_machine_id = s.operation.virtual_machine_id;
  operation_type = s.operation.operation_type;
  idempotency_key = s.operation.idempotency_key;
}

abbrev pub Unmoved : {W : Type 0} → Mark W → Session W → Type 0
Unmoved b s =
    (s.world ≡ b.world)
    × (s.operation.id ≡ b.id)
    × (s.operation.attempts ≡ b.attempts)
    × (s.operation.virtual_machine_id ≡ b.virtual_machine_id)
    × (s.operation.operation_type ≡ b.operation_type)
    × (s.operation.idempotency_key ≡ b.idempotency_key)

pub Unmoved-refl : {W : Type 0} (s : Session W) → Unmoved (mark s) s
Unmoved-refl s = (refl, refl, refl, refl, refl, refl)

pub Keeps-task_state :
    {S A : Type 0} {P : S → Type 0} (t : TaskState) {a b c : Exec S A}
    → Keeps P a
    → Keeps P b
    → Keeps P c
    → Keeps P (task_state_case t a b c)
Keeps-task_state TaskState.running ka kb kc = ka
Keeps-task_state TaskState.succeeded ka kb kc = kb
Keeps-task_state TaskState.failed ka kb kc = kc

module _ {W : Type 0} {b : Mark W} where
  pub Unmoved-advance_create :
      (vm : VirtualMachine) (phase : Option String) → Keeps (Unmoved b) (advance_create vm phase)
  unfolding advance_create
  Unmoved-advance_create vm phase = search session_rules depth 20

  pub Unmoved-leave_create_unknown :
      (phase : Option String) → Keeps (Unmoved b) (leave_create_unknown phase)
  unfolding leave_create_unknown
  Unmoved-leave_create_unknown phase = search session_rules depth 20

  pub Unmoved-compare_create :
      (vm : VirtualMachine) (phase : Option String) (p : PowerState) (l : Bool)
      → Keeps (Unmoved b) (compare_create vm phase p l)
  unfolding compare_create
  Unmoved-compare_create vm phase p l =
      search (session_rules, Unmoved-leave_create_unknown) depth 20

  pub Unmoved-compare_lifecycle :
      (vm : VirtualMachine) (phase : Option String) (p : PowerState) (l : Bool)
      → Keeps (Unmoved b) (compare_lifecycle vm phase p l)
  unfolding compare_lifecycle
  Unmoved-compare_lifecycle vm phase p l = search session_rules depth 30

module _ {W : Type 0} {b : Mark W} {adapter : ProxmoxAdapter W} (reads : IsReadOnly adapter) where
  pub Unmoved-status :
      (t : ProviderTask) → Keeps (Unmoved b) (in_session (adapter.get_task_status t))
  unfolding in_session
  Unmoved-status t = record { at = λ s h. (reads.status t s.world ∙ h.0, h.1, h.2, h.3, h.4, h.5) }

  pub Unmoved-power :
      (id : ℕ) (p : ProviderPlacement)
      → Keeps (Unmoved b) (in_session (adapter.get_vm_power_state id p))
  unfolding in_session
  Unmoved-power id p = record {
    at = λ s h. (reads.power id p s.world ∙ h.0, h.1, h.2, h.3, h.4, h.5);
  }

  pub Unmoved-target :
      (r : CreateVmRequest) → Keeps (Unmoved b) (in_session (adapter.choose_clone_target r))
  unfolding in_session
  Unmoved-target r = record { at = λ s h. (reads.target r s.world ∙ h.0, h.1, h.2, h.3, h.4, h.5) }

  pub Unmoved-process_start : Keeps (Unmoved b) (process_start_vm_operation adapter)
  unfolding process_start_vm_operation
  Unmoved-process_start = search (session_rules, Unmoved-status, Keeps-task_state) depth 40

  pub Unmoved-refresh_create : Keeps (Unmoved b) (refresh_create_vm_operation adapter)
  unfolding refresh_create_vm_operation
  Unmoved-refresh_create =
      search (session_rules, Unmoved-status, Keeps-task_state, Unmoved-advance_create) depth 40

  pub Unmoved-reconcile_create : Keeps (Unmoved b) (reconcile_create_vm_operation adapter)
  unfolding reconcile_create_vm_operation
  Unmoved-reconcile_create =
      search (session_rules, Unmoved-power, Unmoved-leave_create_unknown, Unmoved-compare_create)
        depth 40

  pub Unmoved-reconcile_start : Keeps (Unmoved b) (reconcile_start_vm_operation adapter)
  unfolding reconcile_start_vm_operation
  Unmoved-reconcile_start = search (session_rules, Unmoved-power) depth 40

  pub Unmoved-reconcile_lifecycle : Keeps (Unmoved b) (reconcile_lifecycle_operation adapter)
  unfolding reconcile_lifecycle_operation
  Unmoved-reconcile_lifecycle =
      search (session_rules, Unmoved-power, Unmoved-compare_lifecycle) depth 40
