-- ===== src/Proxmox/Http/Ownership.antt =====
-- Which machines the commands of the HTTP adapter touch.
use server_npd.Prelude.{ℕ, String, true, none, some, ◌≡◌, ◌⊎◌, inl, inr, refl, ap, ◌∙◌, Bool-cases}
use server_npd.Outcome.{Result, ok, err, pure}
use server_npd.Outcome.Keeps.{Keeps, keeps_rules}
use server_npd.Outcome.Guards.{after_ok, after_err, after_raise_if}
use server_npd.Proxmox.Contracts.{CreateVmRequest, ProviderPlacement, ProviderVmState}
use server_npd.Proxmox.Json.{JsonObject, is_null, get}
use server_npd.Proxmox.Client.{Http, Python}
use server_npd.Proxmox.Client.Reading.{GetIsSafe}
use server_npd.Proxmox.Http.{
  HttpConfig, check_node, http_get_vm_power_state, resume_clone, http_clone_vm, http_configure_vm,
  http_resize_vm_disk, http_start_vm, http_shutdown_vm, http_stop_vm, delete_resource,
  http_delete_vm,
}
use server_npd.Proxmox.Http.Owned.{is_own, Looked, after_owned}
use server_npd.Proxmox.Http.Found.{
  Free, Known, after-Found, need_unlocked-Found, get_owned_vm_status-Found,
  http_get_vm_power_state-Known,
}

module _ {W : Type 0} {http : Http W} (safe : GetIsSafe http) (python : Python)
    (config : HttpConfig) (uuid_text : ℕ → String) (id : ℕ) (p : ProviderPlacement) (w : W) where
  -- Nothing was changed, or the machine was the portal's to change.
  abbrev pub Guarded : {A : Type 0} → Result A × W → Type 0
  Guarded q = (q.1 ≡ w) ⊎ Free safe python config uuid_text id p w

  http_start_vm-Guarded : Guarded (http_start_vm http python config uuid_text id p w)
  unfolding http_start_vm pure
  http_start_vm-Guarded =
      started _ refl (http_get_vm_power_state-Known safe python config uuid_text id p w)
    where
      started :
          (q : Result ProviderVmState × W)
          → http_get_vm_power_state http python config uuid_text id p w ≡ q
          → Known safe python config uuid_text id p w q
          → Guarded (http_start_vm http python config uuid_text id p w)
      started (err e, v) h same = after_err Guarded _ _ h (inl same)
      started (ok st, v) h (same, inl missing) =
          after_ok Guarded _ _ (h ∙ ap (λ x. (ok x, v)) missing) (
            after_raise_if Guarded _ _ _ (inl same)
              (λ _. after_raise_if Guarded true _ _ (inl same) (λ off. cc)))
      started (ok st, v) h (same, inr free) =
          after_ok Guarded _ _ h (after_raise_if Guarded _ _ _ (inl same) (λ off. inr (free off)))

  http_shutdown_vm-Guarded : Guarded (http_shutdown_vm http python config uuid_text id p w)
  unfolding http_shutdown_vm
  http_shutdown_vm-Guarded =
      after-Found safe python config uuid_text id p w Guarded _ _ _ refl
        (get_owned_vm_status-Found safe python config uuid_text id p w) (λ e. inl refl)
        (λ a free. inr free)

  http_stop_vm-Guarded : Guarded (http_stop_vm http python config uuid_text id p w)
  unfolding http_stop_vm
  http_stop_vm-Guarded =
      after-Found safe python config uuid_text id p w Guarded _ _ _ refl
        (get_owned_vm_status-Found safe python config uuid_text id p w) (λ e. inl refl)
        (λ a free. inr free)

  delete_resource-Guarded :
      (r : JsonObject)
      → Looked http python config uuid_text p w (some r)
      → is_own config uuid_text id p r ≡ true
      → Guarded (delete_resource http python config uuid_text p r w)
  unfolding delete_resource pure
  delete_resource-Guarded r seen own = elim (Bool-cases (is_null (get "lock" r))) [
    | inl free ↦ inr (r, seen, own, free)
    | inr locked ↦ rw locked (inl refl)
  ]

  http_delete_vm-Guarded : Guarded (http_delete_vm http python config uuid_text id p w)
  unfolding http_delete_vm check_node pure
  http_delete_vm-Guarded = after_raise_if Guarded _ _ _ (inl refl) (λ node.
      after_owned http python config uuid_text Guarded safe id p _ w (λ e. inl refl) (λ _. inl refl)
        delete_resource-Guarded)

-- The two commands of a create request for a machine that is there.
module _ {W : Type 0} {http : Http W} (safe : GetIsSafe http) (python : Python)
    (config : HttpConfig) (uuid_text : ℕ → String) (r : CreateVmRequest) (p : ProviderPlacement)
    (w : W) where
  -- Nothing was changed, or no resource has the VMID.
  abbrev pub Fresh : {A : Type 0} → Result A × W → Type 0
  Fresh q = (q.1 ≡ w) ⊎ Looked http python config uuid_text p w none

  resume_clone-same : (x : JsonObject) → (resume_clone http python config uuid_text p x w).1 ≡ w
  unfolding resume_clone
  resume_clone-same x =
      let kept : Keeps (λ v. v ≡ w) (resume_clone http python config uuid_text p x) =
        search (keeps_rules) in
      kept.at w refl

  http_clone_vm-Fresh : Fresh (http_clone_vm http python config uuid_text r p w)
  unfolding http_clone_vm check_node
  http_clone_vm-Fresh = after_raise_if Fresh _ _ _ (inl refl) (λ node.
      after_raise_if Fresh _ _ _ (inl refl) (λ image.
        after_owned http python config uuid_text Fresh safe r.vm_id p _ w (λ e. inl refl)
          (λ absent. inr absent) (λ x seen own. inl (resume_clone-same x))))

  abbrev pub Kept : {A : Type 0} → Result A × W → Type 0
  Kept q = Guarded safe python config uuid_text r.vm_id p w q

  http_configure_vm-Guarded : Kept (http_configure_vm http python config uuid_text r p w)
  unfolding http_configure_vm check_node
  http_configure_vm-Guarded = after_raise_if Kept _ _ _ (inl refl) (λ node.
      after-Found safe python config uuid_text r.vm_id p w Kept _ _ _ refl
        (need_unlocked-Found safe python config uuid_text r.vm_id p w _ _) (λ e. inl refl)
        (λ a free. inr free))

  http_resize_vm_disk-Guarded : Kept (http_resize_vm_disk http python config uuid_text r p w)
  unfolding http_resize_vm_disk check_node
  http_resize_vm_disk-Guarded = after_raise_if Kept _ _ _ (inl refl) (λ node.
      after-Found safe python config uuid_text r.vm_id p w Kept _ _ _ refl
        (need_unlocked-Found safe python config uuid_text r.vm_id p w _ _) (λ e. inl refl)
        (λ a free. inr free))

  -- Where GET requests change nothing at the cluster: configure, resize, start, shutdown, stop and
  -- delete change nothing either, or the cluster has listed exactly the portal's machine under the
  -- VMID (a QEMU machine with its name, in the pool of the portal and on the node that was asked
  -- for), without a lock; and a clone changes nothing, or the cluster has listed nothing under the
  -- VMID.
  pub commands-Guarded :
      Kept (http_configure_vm http python config uuid_text r p w)
      × Kept (http_resize_vm_disk http python config uuid_text r p w)
      × Kept (http_start_vm http python config uuid_text r.vm_id p w)
      × Kept (http_shutdown_vm http python config uuid_text r.vm_id p w)
      × Kept (http_stop_vm http python config uuid_text r.vm_id p w)
      × Kept (http_delete_vm http python config uuid_text r.vm_id p w)
      × Fresh (http_clone_vm http python config uuid_text r p w)
  commands-Guarded = (
    http_configure_vm-Guarded,
    http_resize_vm_disk-Guarded,
    http_start_vm-Guarded safe python config uuid_text r.vm_id p w,
    http_shutdown_vm-Guarded safe python config uuid_text r.vm_id p w,
    http_stop_vm-Guarded safe python config uuid_text r.vm_id p w,
    http_delete_vm-Guarded safe python config uuid_text r.vm_id p w,
    http_clone_vm-Fresh,
  )
