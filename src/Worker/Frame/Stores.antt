-- ===== src/Worker/Frame/Stores.antt =====
-- The second transaction leaves the operation's identity and its attempts alone, and calls nobody.
use server_npd.Prelude.{Option, none, some, String}
use server_npd.Outcome.{Exec}
use server_npd.Outcome.Keeps.{Keeps}
use server_npd.Models.{Operation, VirtualMachine}
use server_npd.Proxmox.{
  ProviderPlacement, ProviderTask, ProviderCloneResult, ProviderDeleteResult, SubmitState,
  submit_state_case,
}
use server_npd.Operations.Session.Keeps.{session_rules}
use server_npd.Operations.Create.Dispatch.{
  CreateResult, clone_result, complete_create_step, store_create_task, finish_clone,
  finish_create_result, finish_create_vm_dispatch,
}
use server_npd.Operations.Start.{finish_start_vm_dispatch}
use server_npd.Operations.Lifecycle.Dispatch.{
  LifecycleResult, delete_result, await_reboot, complete_lifecycle, store_lifecycle_task,
  finish_delete, finish_lifecycle_result, finish_lifecycle_dispatch,
}
use server_npd.Worker.Submit.{mark_create_unknown, mark_start_unknown, mark_lifecycle_unknown}
use server_npd.Worker.Frame.Reads.{Mark, Unmoved}

Keeps-submit_state :
    {S A : Type 0} {P : S → Type 0} (t : SubmitState) {a b c : Exec S A}
    → Keeps P a
    → Keeps P b
    → Keeps P c
    → Keeps P (submit_state_case t a b c)
Keeps-submit_state SubmitState.submitted ka kb kc = ka
Keeps-submit_state SubmitState.in_progress ka kb kc = kb
Keeps-submit_state SubmitState.succeeded ka kb kc = kc

module _ {W : Type 0} {b : Mark W} where
  Unmoved-complete_create_step :
      (vm : VirtualMachine) (phase : String) → Keeps (Unmoved b) (complete_create_step vm phase)
  unfolding complete_create_step
  Unmoved-complete_create_step vm phase = search session_rules depth 30

  Unmoved-store_create_task :
      (vm : VirtualMachine) (p : ProviderPlacement) (phase : String) (task : Option ProviderTask)
      → Keeps (Unmoved b) (store_create_task vm p phase task)
  unfolding store_create_task
  Unmoved-store_create_task vm p phase none = Unmoved-complete_create_step vm phase
  Unmoved-store_create_task vm p phase (some task) = search session_rules depth 30

  Unmoved-finish_clone :
      (vm : VirtualMachine) (p : ProviderPlacement) (phase : String) (r : ProviderCloneResult)
      → Keeps (Unmoved b) (finish_clone vm p phase r)
  unfolding finish_clone
  Unmoved-finish_clone vm p phase r =
      search (session_rules, Unmoved-store_create_task, Keeps-submit_state) depth 30

  Unmoved-finish_create_result :
      (vm : VirtualMachine) (p : ProviderPlacement) (phase : String) (r : CreateResult)
      → Keeps (Unmoved b) (finish_create_result vm p phase r)
  unfolding finish_create_result
  Unmoved-finish_create_result vm p phase (clone_result r) =
      search (session_rules, Unmoved-finish_clone) depth 30
  Unmoved-finish_create_result vm p phase (CreateResult.task_result r) =
      search (session_rules, Unmoved-store_create_task) depth 30

  pub Unmoved-finish_create :
      (phase : String) (r : CreateResult) → Keeps (Unmoved b) (finish_create_vm_dispatch phase r)
  unfolding finish_create_vm_dispatch
  Unmoved-finish_create phase r = search (session_rules, Unmoved-finish_create_result) depth 30

  pub Unmoved-finish_start :
      (r : Option ProviderTask) → Keeps (Unmoved b) (finish_start_vm_dispatch r)
  unfolding finish_start_vm_dispatch
  Unmoved-finish_start r = search session_rules depth 40

  Unmoved-await_reboot : (phase : Option String) → Keeps (Unmoved b) (await_reboot phase)
  unfolding await_reboot
  Unmoved-await_reboot phase = search session_rules depth 30

  Unmoved-complete_lifecycle :
      (vm : VirtualMachine) (phase : Option String)
      → Keeps (Unmoved b) (complete_lifecycle vm phase)
  unfolding complete_lifecycle
  Unmoved-complete_lifecycle vm phase = search session_rules depth 30

  Unmoved-store_lifecycle_task :
      (vm : VirtualMachine) (p : ProviderPlacement) (task : Option ProviderTask)
      → Keeps (Unmoved b) (store_lifecycle_task vm p task)
  unfolding store_lifecycle_task
  Unmoved-store_lifecycle_task vm p none =
      search (session_rules, Unmoved-complete_lifecycle) depth 30
  Unmoved-store_lifecycle_task vm p (some task) =
      search (session_rules, Unmoved-await_reboot) depth 30

  Unmoved-finish_delete :
      (vm : VirtualMachine) (p : ProviderPlacement) (r : ProviderDeleteResult)
      → Keeps (Unmoved b) (finish_delete vm p r)
  unfolding finish_delete
  Unmoved-finish_delete vm p r =
      search (session_rules, Unmoved-store_lifecycle_task, Keeps-submit_state) depth 30

  Unmoved-finish_lifecycle_result :
      (vm : VirtualMachine) (p : ProviderPlacement) (o : Operation) (r : LifecycleResult)
      → Keeps (Unmoved b) (finish_lifecycle_result vm p o r)
  unfolding finish_lifecycle_result
  Unmoved-finish_lifecycle_result vm p o (delete_result r) =
      search (session_rules, Unmoved-finish_delete) depth 30
  Unmoved-finish_lifecycle_result vm p o (LifecycleResult.task_result r) =
      search (session_rules, Unmoved-store_lifecycle_task) depth 30

  pub Unmoved-finish_lifecycle :
      (r : LifecycleResult) → Keeps (Unmoved b) (finish_lifecycle_dispatch r)
  unfolding finish_lifecycle_dispatch
  Unmoved-finish_lifecycle r = search (session_rules, Unmoved-finish_lifecycle_result) depth 30

  pub Unmoved-mark_create_unknown : (phase : String) → Keeps (Unmoved b) (mark_create_unknown phase)
  unfolding mark_create_unknown
  Unmoved-mark_create_unknown phase = search session_rules depth 30

  pub Unmoved-mark_start_unknown : Keeps (Unmoved b) mark_start_unknown
  unfolding mark_start_unknown
  Unmoved-mark_start_unknown = search session_rules depth 30

  pub Unmoved-mark_lifecycle_unknown : Keeps (Unmoved b) mark_lifecycle_unknown
  unfolding mark_lifecycle_unknown
  Unmoved-mark_lifecycle_unknown = search session_rules depth 30

pub ruleset store_rules = (
  Unmoved-finish_create, Unmoved-finish_start, Unmoved-finish_lifecycle,
  Unmoved-mark_create_unknown, Unmoved-mark_start_unknown, Unmoved-mark_lifecycle_unknown,
)
