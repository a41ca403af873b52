-- ===== src/Proxmox/Http/Reading.antt =====
-- The parts of the HTTP adapter that only read.
use server_npd.Prelude.{ℕ, String, ◌≡◌}
use server_npd.Outcome.Keeps.{Keeps, keeps_rules}
use server_npd.Proxmox.Contracts.{CreateVmRequest, ProviderPlacement, ProviderTask}
use server_npd.Proxmox.Json.{JsonObject}
use server_npd.Proxmox.Client.{Http, Python}
use server_npd.Proxmox.Client.Reading.{
  GetIsSafe, Still-get_next_vmid, Still-client_get_task_status, Still-find_vm_resource,
  Still-get_vm_current_status,
}
use server_npd.Proxmox.Http.{
  HttpConfig, check_node, check_owned, find_owned_vm_resource, need_power, http_choose_clone_target,
  finished_task, http_get_task_status, power_of_resource, http_get_vm_power_state,
}

module _ {W : Type 0} {http : Http W} (safe : GetIsSafe http) (python : Python)
    (config : HttpConfig) (uuid_text : ℕ → String) (w : W) where
  abbrev Still : W → Type 0
  Still v = v ≡ w

  pub Still-find_owned_vm_resource :
      (id : ℕ) (p : ProviderPlacement)
      → Keeps Still (find_owned_vm_resource http python config uuid_text id p)
  unfolding find_owned_vm_resource check_owned
  Still-find_owned_vm_resource id p =
      search (keeps_rules, Still-find_vm_resource safe w python) depth 20

  pub Still-http_choose_clone_target :
      (r : CreateVmRequest) → Keeps Still (http_choose_clone_target http python config uuid_text r)
  unfolding http_choose_clone_target
  Still-http_choose_clone_target r =
      search (keeps_rules, Still-get_next_vmid safe w python) depth 20

  pub Still-http_get_task_status :
      (t : ProviderTask) → Keeps Still (http_get_task_status http python config uuid_text t)
  unfolding http_get_task_status finished_task
  Still-http_get_task_status t =
      search (keeps_rules, Still-client_get_task_status safe w python) depth 20

  Still-power_of_resource :
      (p : ProviderPlacement) (r : JsonObject)
      → Keeps Still (power_of_resource http python config uuid_text p r)
  unfolding power_of_resource need_power
  Still-power_of_resource p r =
      search (keeps_rules, Still-get_vm_current_status safe w python) depth 20

  pub Still-http_get_vm_power_state :
      (id : ℕ) (p : ProviderPlacement)
      → Keeps Still (http_get_vm_power_state http python config uuid_text id p)
  unfolding http_get_vm_power_state check_node
  Still-http_get_vm_power_state id p =
      search (keeps_rules, Still-find_owned_vm_resource, Still-power_of_resource) depth 20
