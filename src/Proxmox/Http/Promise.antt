-- ===== src/Proxmox/Http/Promise.antt =====
-- The HTTP adapter keeps the promise of the contract.
use server_npd.Prelude.{
  ℕ, String, Bool, true, false, Option, none, some, ◌≡◌, refl, arith, str_eq_refl, option_case,
  if◌then◌else◌,
}
use server_npd.Outcome.Answers.{answers_rules}
use server_npd.Proxmox.Contracts.{ProviderPlacement, targets, TaskState}
use server_npd.Proxmox.Promise.{Aimed, Coded, Fulfils}
use server_npd.Proxmox.Client.{Http, Python}
use server_npd.Proxmox.Http.{
  HttpConfig, task_at, http_adapter, http_clone_vm, http_configure_vm, http_resize_vm_disk,
  http_start_vm, http_shutdown_vm, http_stop_vm, http_delete_vm, http_get_task_status,
  finished_task, resume_clone, submit_clone, enlarge, delete_resource,
}

pub targets-task_at : (p : ProviderPlacement) (u : String) → targets (task_at p u) p ≡ true
targets-task_at p u = ground (arith, str_eq_refl p.node)

aimed_option :
    (p : ProviderPlacement) (u : Option String)
    → Aimed p (option_case u none (λ x. some (task_at p x)))
aimed_option p none = tt
aimed_option p (some u) = targets-task_at p u

task_end :
    (b : Bool)
    → Coded (
        if b
        then record { status = TaskState.succeeded; error_code = none }
        else record { status = TaskState.failed; error_code = some "proxmox_task_failed" })
task_end true = refl
task_end false = ("proxmox_task_failed", refl)

module _ {W : Type 0} (http : Http W) (python : Python) (config : HttpConfig)
    (uuid_text : ℕ → String) where
  -- Whatever the HTTP package, the settings and the cluster do: a clone or a delete that is
  -- answered as submitted has a task for the machine it was asked for, and has none otherwise; a
  -- task that another command answers with is for that machine; and a task's status has an error
  -- code exactly where it has failed.
  pub http_adapter-Fulfils : Fulfils (http_adapter http python config uuid_text)
  unfolding http_clone_vm http_configure_vm http_resize_vm_disk http_start_vm http_shutdown_vm
      http_stop_vm http_delete_vm http_get_task_status finished_task resume_clone submit_clone
      enlarge delete_resource
  http_adapter-Fulfils = record {
    commands = record {
      clone = λ r p. search (answers_rules, targets-task_at) depth 20;
      configure = λ r p. search (answers_rules, aimed_option) depth 20;
      resize = λ r p. search (answers_rules, targets-task_at) depth 20;
      start = λ r p. search (answers_rules, targets-task_at) depth 20;
      shutdown = λ r p. search (answers_rules, targets-task_at) depth 20;
      stop = λ r p. search (answers_rules, targets-task_at) depth 20;
      delete = λ r p. search (answers_rules, targets-task_at) depth 20;
    };
    task_status = λ t. search (answers_rules, task_end) depth 20;
  }
