-- ===== src/Proxmox/Client/Reading.antt =====
-- The calls of the client that send GET requests only, over a cluster that such requests leave
-- alone.
use server_npd.Prelude.{ℕ, String, List, [], ◌∷◌, ◌≡◌, ◌∙◌, refl}
use server_npd.Outcome.Keeps.{Keeps, keeps_rules, Keeps-bind, Keeps-lift, Keeps-need, Keeps-pure}
use server_npd.Proxmox.Json.{JsonObject}
use server_npd.Proxmox.Client.{
  get_method, HttpRequest, Http, Python, request_data, plain, get_next_vmid, client_get_task_status,
  list_vm_resources, matching, sole_match, find_vm_resource, get_vm_current_status,
}

-- A GET request changes nothing at the other end.
pub record GetIsSafe {W : Type 0} (http : Http W) : Type 0 where
  pub at : (r : HttpRequest) (w : W) → r.method ≡ get_method → (http.request r w).1 ≡ w

module _ {W : Type 0} {http : Http W} (safe : GetIsSafe http) (w : W) where
  -- The world is still `w`.
  abbrev Still : W → Type 0
  Still v = v ≡ w

  sent : (r : HttpRequest) → r.method ≡ get_method → Keeps Still (http.request r)
  sent r h = record { at = λ v e. safe.at r v h ∙ e }

  Still-request_data : (r : HttpRequest) → r.method ≡ get_method → Keeps Still (request_data http r)
  unfolding request_data
  Still-request_data r h = Keeps-bind (sent r h) (λ response.
      Keeps-bind (Keeps-lift _) (λ done. Keeps-bind (Keeps-lift _) (λ body. search (keeps_rules))))

  gets_plain : (path : String) → Keeps Still (request_data http (plain get_method path))
  gets_plain path = Still-request_data _ refl

  module _ (python : Python) where
    pub Still-get_next_vmid : Keeps Still (get_next_vmid http python)
    unfolding get_next_vmid
    Still-get_next_vmid = search (keeps_rules, gets_plain)

    pub Still-client_get_task_status :
        (node upid : String) → Keeps Still (client_get_task_status http python node upid)
    unfolding client_get_task_status
    Still-client_get_task_status node upid = search (keeps_rules, gets_plain)

    Still-matching : (vmid : ℕ) (rs : List JsonObject) → Keeps Still (matching http python vmid rs)
    unfolding matching
    Still-matching vmid [] = search (keeps_rules)
    Still-matching vmid (r ∷ rs) =
        Keeps-bind (Keeps-need _ _)
          (λ z. Keeps-bind (Still-matching vmid rs) (λ matches. Keeps-pure _))

    Still-sole_match :
        (vmid : ℕ) (rs : List JsonObject) → Keeps Still (sole_match http python vmid rs)
    unfolding sole_match
    Still-sole_match vmid [] = search (keeps_rules)
    Still-sole_match vmid (r ∷ []) = search (keeps_rules)
    Still-sole_match vmid (r ∷ s ∷ rs) = search (keeps_rules)

    Still-list_vm_resources : Keeps Still (list_vm_resources http python)
    unfolding list_vm_resources
    Still-list_vm_resources = search (keeps_rules, Still-request_data _ refl)

    pub Still-find_vm_resource : (vmid : ℕ) → Keeps Still (find_vm_resource http python vmid)
    unfolding find_vm_resource
    Still-find_vm_resource vmid =
        search (keeps_rules, Still-list_vm_resources, Still-matching vmid, Still-sole_match vmid)

    pub Still-get_vm_current_status :
        (node : String) (vmid : ℕ) → Keeps Still (get_vm_current_status http python node vmid)
    unfolding get_vm_current_status
    Still-get_vm_current_status node vmid = search (keeps_rules, gets_plain)
