-- ===== src/Proxmox/Promise.antt =====
-- What the services rely on in the answers of an adapter: a command that was submitted has a task
-- of the machine it was sent for, and an answer that promises no task has none.
use server_npd.Prelude.{ℕ, String, Option, none, some, true, ◌≡◌}
use server_npd.Outcome.Answers.{Answers}
use server_npd.Proxmox.Contracts.{
  CreateVmRequest, ProviderPlacement, ProviderTask, SubmitState, submitted, in_progress, succeeded,
  TaskState, ProviderTaskStatus, ProxmoxAdapter, targets,
}

abbrev pub Aimed : ProviderPlacement → Option ProviderTask → Type 0
Aimed place none = Unit
Aimed place (some task) = targets task place ≡ true

abbrev pub Submission : ProviderPlacement → SubmitState → Option ProviderTask → Type 0
Submission place submitted none = ⊥
Submission place submitted (some task) = targets task place ≡ true
Submission place in_progress task = task ≡ none
Submission place succeeded task = task ≡ none

-- A task has an error code exactly where it has failed.
abbrev pub HasCode : TaskState → Option String → Type 0
HasCode TaskState.failed code = (text : String) × (code ≡ some text)
HasCode TaskState.running code = code ≡ none
HasCode TaskState.succeeded code = code ≡ none

abbrev pub Coded : ProviderTaskStatus → Type 0
Coded a = HasCode a.status a.error_code

-- The promise of the commands.
pub record Submits {W : Type 0} (adapter : ProxmoxAdapter W) : Type 0 where
  pub clone :
      (r : CreateVmRequest) (p : ProviderPlacement)
      → Answers (λ c. Submission p c.state c.task) (adapter.clone_vm r p)
  pub configure :
      (r : CreateVmRequest) (p : ProviderPlacement) → Answers (Aimed p) (adapter.configure_vm r p)
  pub resize :
      (r : CreateVmRequest) (p : ProviderPlacement) → Answers (Aimed p) (adapter.resize_vm_disk r p)
  pub start : (id : ℕ) (p : ProviderPlacement) → Answers (Aimed p) (adapter.start_vm id p)
  pub shutdown : (id : ℕ) (p : ProviderPlacement) → Answers (Aimed p) (adapter.shutdown_vm id p)
  pub stop : (id : ℕ) (p : ProviderPlacement) → Answers (Aimed p) (adapter.stop_vm id p)
  pub delete :
      (id : ℕ) (p : ProviderPlacement)
      → Answers (λ c. Submission p c.state c.task) (adapter.delete_vm id p)

-- The promise of the commands and of the query for a task's status.
pub record Fulfils {W : Type 0} (adapter : ProxmoxAdapter W) : Type 0 where
  pub commands : Submits adapter
  pub task_status : (t : ProviderTask) → Answers Coded (adapter.get_task_status t)
