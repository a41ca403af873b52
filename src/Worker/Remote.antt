-- ===== src/Worker/Remote.antt =====
-- The HTTP adapter's queries change nothing at the cluster, so what is shown of the worker holds
-- with it.
use server_npd.Prelude.{ℕ, String, refl}
use server_npd.Proxmox.Client.{Http, Python}
use server_npd.Proxmox.Client.Reading.{GetIsSafe}
use server_npd.Proxmox.Http.{HttpConfig, http_adapter}
use server_npd.Proxmox.Http.Reading.{
  Still-http_choose_clone_target, Still-http_get_task_status, Still-http_get_vm_power_state,
}
use server_npd.Worker.Frame.Reads.{IsReadOnly}

module _ {W : Type 0} {http : Http W} (safe : GetIsSafe http) (python : Python)
    (config : HttpConfig) (uuid_text : ℕ → String) where
  -- Where GET requests change nothing at the cluster, the three queries of the HTTP adapter (the
  -- power state, the target of a clone, the status of a task) change nothing, whatever they answer.
  pub http_adapter-IsReadOnly : IsReadOnly (http_adapter http python config uuid_text)
  http_adapter-IsReadOnly = record {
    power = λ id p w. (Still-http_get_vm_power_state safe python config uuid_text w id p).at w refl;
    target = λ r w. (Still-http_choose_clone_target safe python config uuid_text w r).at w refl;
    status = λ t w. (Still-http_get_task_status safe python config uuid_text w t).at w refl;
  }
