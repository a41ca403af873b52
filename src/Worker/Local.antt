-- ===== src/Worker/Local.antt =====
-- The fake adapter's queries change nothing, so what is shown of the worker holds with it.
use server_npd.Prelude.{ℕ, String, ◌≡◌, refl, inl, inr, Option, none, some, option_case}
use server_npd.Outcome.{Result, pure, gets}
use server_npd.Outcome.Guards.{after_ok, after_err, after_need, after_raise_if, after_gets}
use server_npd.Proxmox.{ProviderPlacement, ProviderTask, ProviderTaskStatus}
use server_npd.Proxmox.Fake.{
  FakeState, fake_adapter, fake_get_vm_power_state, get_status, fake_get_task_status,
  fake_task_by_text,
}
use server_npd.Proxmox.Fake.Power.{check_target_cases}
use server_npd.Worker.Frame.Reads.{IsReadOnly}

module _ (show_uuid : ℕ → String) (parse_uuid : String → Option ℕ) (own_node : String) where
  abbrev Same : {A : Type 0} → FakeState → Result A × FakeState → Type 0
  Same w q = q.1 ≡ w

  same_power :
      (id : ℕ) (p : ProviderPlacement) (w : FakeState)
      → Same w (fake_get_vm_power_state show_uuid parse_uuid own_node id p w)
  unfolding fake_get_vm_power_state gets
  same_power id p w = elim (check_target_cases show_uuid parse_uuid own_node id p) [
    | inl passed ↦ after_ok (Same w) _ _ (passed w) refl
    | inr (_, refused) ↦ after_err (Same w) _ _ (refused w) refl
  ]

  same_text :
      (t : ProviderTask) (w : FakeState)
      → Same w (fake_task_by_text show_uuid parse_uuid own_node t w)
  unfolding fake_task_by_text pure
  same_text t w = after_need (Same w) _ _ _ refl (λ parts _.
      after_raise_if (Same w) _ _ _ refl (λ _. after_need (Same w) _ _ _ refl (λ id _.
        after_raise_if (Same w) _ _ _ refl (λ _. after_raise_if (Same w) _ _ _ refl (λ _. refl)))))

  same_case :
      (t : ProviderTask) (w : FakeState) (o : Option ProviderTaskStatus)
      → Same w (option_case o (fake_task_by_text show_uuid parse_uuid own_node t) pure w)
  unfolding pure
  same_case t w none = same_text t w
  same_case t w (some x) = refl

  same_status :
      (t : ProviderTask) (w : FakeState)
      → Same w (fake_get_task_status show_uuid parse_uuid own_node t w)
  unfolding fake_get_task_status
  same_status t w = after_gets (Same w) _ _ (same_case t w (get_status t.task_id w.task_statuses))

  -- Whatever the text of a UUID, its parser and the node's name: the three queries of the fake
  -- adapter change nothing.
  pub fake_adapter-IsReadOnly : IsReadOnly (fake_adapter show_uuid parse_uuid own_node)
  unfolding pure
  fake_adapter-IsReadOnly = record {
    power = same_power;
    target = λ r w. refl;
    status = same_status;
  }
