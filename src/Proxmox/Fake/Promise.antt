-- ===== src/Proxmox/Fake/Promise.antt =====
-- The fake adapter keeps the promise of the contract.
use server_npd.Prelude.{ℕ, String, true, Option, ◌≡◌, arith, str_eq_refl}
use server_npd.Outcome.Answers.{answers_rules}
use server_npd.Proxmox.Contracts.{ProviderPlacement, targets}
use server_npd.Proxmox.Fake.{
  fake_adapter, fake_clone_vm, fake_configure_vm, fake_resize_vm_disk, fake_start_vm,
  fake_shutdown_vm, fake_stop_vm, fake_delete_vm,
}
use server_npd.Proxmox.Promise.{Submits}

targets-place :
    (p : ProviderPlacement) (u : String)
    → targets (record { task_id = u; vmid = p.vmid; node = p.node }) p ≡ true
targets-place p u = ground (arith, str_eq_refl p.node)

module _ (show_uuid : ℕ → String) (parse_uuid : String → Option ℕ) (own_node : String) where
  -- Whatever was done before: a clone or a delete that the fake adapter answers as submitted has a
  -- task for the machine it was asked for, and has none otherwise; and a task that another command
  -- answers with is for that machine.
  pub fake_adapter-Submits : Submits (fake_adapter show_uuid parse_uuid own_node)
  unfolding fake_clone_vm fake_configure_vm fake_resize_vm_disk fake_start_vm fake_shutdown_vm
      fake_stop_vm fake_delete_vm
  fake_adapter-Submits = record {
    clone = λ r p. search (answers_rules, targets-place) depth 20;
    configure = λ r p. search (answers_rules, targets-place) depth 20;
    resize = λ r p. search (answers_rules, targets-place) depth 20;
    start = λ r p. search (answers_rules, targets-place) depth 20;
    shutdown = λ r p. search (answers_rules, targets-place) depth 20;
    stop = λ r p. search (answers_rules, targets-place) depth 20;
    delete = λ r p. search (answers_rules, targets-place) depth 20;
  }
