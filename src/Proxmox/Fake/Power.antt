-- ===== src/Proxmox/Fake/Power.antt =====
-- What the fake adapter reports after the commands that it took.
use server_npd.Prelude.{
  ℕ, String, ◌≡◌, ◌⊎◌, arith, refl, true, false, Option, none, some, ◌==◌, str_eq, str_eq_refl, inl,
  inr, Bool-cases,
}
use server_npd.Outcome.{Error, Result, ok, err, runtime_error, pure, gets, ◌>>=◌, ◌>>◌}
use server_npd.Outcome.Guards.{after_ok, after_err}
use server_npd.Proxmox.Contracts.{
  ProviderTask, PowerState, ProviderPlacement, ProxmoxAdapter, targets,
}
use server_npd.Proxmox.Fake.{
  FakeState, vmid_for_vm_id, get_entry, get_status, has_vmid, task_succeeded, check_target,
  store_status, set_power, fake_task, power_of, fake_adapter, fake_start_vm, fake_shutdown_vm,
  fake_stop_vm, fake_get_vm_power_state, fake_get_task_status,
}

module _ (show_uuid : ℕ → String) (parse_uuid : String → Option ℕ) (own_node : String) where
  -- The guards change nothing, and depend on the machine and the placement only.
  pub check_target_cases :
      (vm_id : ℕ) (place : ProviderPlacement)
      → ((s : FakeState) → check_target show_uuid parse_uuid own_node vm_id place s ≡ (ok tt, s))
        ⊎ ((e : Error) × ((s : FakeState)
              → check_target show_uuid parse_uuid own_node vm_id place s ≡ (err e, s)))
  unfolding check_target ◌>>=◌
  check_target_cases vm_id place = elim (Bool-cases (str_eq place.node own_node)) [
    | inr other ↦ inr (runtime_error "fake provider node does not match", λ s. rw other refl)
    | inl same ↦ elim (Bool-cases (place.vmid == vmid_for_vm_id vm_id)) [
      | inr other ↦
          inr (runtime_error "fake provider VMID does not match", λ s. rw (same, other) refl)
      | inl same_id ↦ inl (λ s. rw (same, same_id) refl)
    ]
  ]

  -- How a power command ends: refused with nothing changed, or with a task for the machine that it
  -- was given for; the task is reported as succeeded, and the machine in the state asked for.
  abbrev pub Powered :
      PowerState
      → ℕ
      → ProviderPlacement
      → FakeState
      → Result (Option ProviderTask) × FakeState
      → Type 0
  Powered power vm_id place s (err e, s') = s' ≡ s
  Powered power vm_id place s (ok none, s') = ⊥
  Powered power vm_id place s (ok (some task), s') =
      (targets task place ≡ true)
      × (fake_get_task_status show_uuid parse_uuid own_node task s' ≡ (ok task_succeeded, s'))
      × (fake_get_vm_power_state show_uuid parse_uuid own_node vm_id place s'
          ≡ (ok (record { status = power; locked = false }), s'))

  status_of_stored :
      (task : ProviderTask) (s : FakeState)
      → get_status task.task_id s.task_statuses ≡ some task_succeeded
      → fake_get_task_status show_uuid parse_uuid own_node task s ≡ (ok task_succeeded, s)
  unfolding fake_get_task_status ◌>>=◌
  status_of_stored task s h = rw h refl

  abbrev pub Passes : ℕ → ProviderPlacement → Type 0
  Passes vm_id place =
      (t : FakeState) → check_target show_uuid parse_uuid own_node vm_id place t ≡ (ok tt, t)

  settled :
      (vmid : ℕ) (s : FakeState) {power : PowerState}
      → has_vmid vmid s.deleted_vmids ≡ false
      → get_entry vmid s.power_states ≡ some power
      → gets (power_of show_uuid parse_uuid own_node vmid) s
        ≡ (ok (record { status = power; locked = false }), s)
  unfolding ◌>>=◌
  settled vmid s {power} alive h = rw (alive, h) ground arith

  reported :
      (vm_id : ℕ) (place : ProviderPlacement) (s : FakeState) {power : PowerState}
      → Passes vm_id place
      → has_vmid place.vmid s.deleted_vmids ≡ false
      → get_entry place.vmid s.power_states ≡ some power
      → fake_get_vm_power_state show_uuid parse_uuid own_node vm_id place s
        ≡ (ok (record { status = power; locked = false }), s)
  unfolding fake_get_vm_power_state
  reported vm_id place s {power} passed alive h =
      after_ok (λ q. q ≡ (ok (record { status = power; locked = false }), s)) _ _ (passed s)
        (settled place.vmid s alive h)

  taken :
      (name : String) (power : PowerState) (vm_id : ℕ) (place : ProviderPlacement) (s : FakeState)
      → has_vmid place.vmid s.deleted_vmids ≡ false
      → Passes vm_id place
      → Powered power vm_id place s (
          (store_status show_uuid parse_uuid own_node
                (fake_task show_uuid parse_uuid own_node name vm_id place)
              >> (set_power show_uuid parse_uuid own_node place.vmid power
                  >> pure (some (fake_task show_uuid parse_uuid own_node name vm_id place))))
            s)
  unfolding store_status set_power get_status get_entry ◌>>=◌
  taken name power vm_id place s alive passed =
      let task : ProviderTask = fake_task show_uuid parse_uuid own_node name vm_id place in
      (
        ground (arith, str_eq_refl place.node),
        status_of_stored task _ (rw (str_eq_refl task.task_id) refl),
        reported vm_id place _ passed alive (ground arith),
      )

  command-Powered :
      (name : String) (power : PowerState) (vm_id : ℕ) (place : ProviderPlacement) (s : FakeState)
      → has_vmid place.vmid s.deleted_vmids ≡ false
      → Powered power vm_id place s (
          (check_target show_uuid parse_uuid own_node vm_id place
              >> (store_status show_uuid parse_uuid own_node
                    (fake_task show_uuid parse_uuid own_node name vm_id place)
                  >> (set_power show_uuid parse_uuid own_node place.vmid power
                      >> pure (some (fake_task show_uuid parse_uuid own_node name vm_id place)))))
            s)
  command-Powered name power vm_id place s alive = elim (check_target_cases vm_id place) [
    | inr (x, refused) ↦ after_err (Powered power vm_id place s) _ _ (refused s) refl
    | inl passed ↦
        after_ok (Powered power vm_id place s) _ _ (passed s)
          (taken name power vm_id place s alive passed)
  ]

  abbrev pub adapter : ProxmoxAdapter FakeState
  adapter = fake_adapter show_uuid parse_uuid own_node

  -- For a machine that has not been deleted, each of the adapter's `start_vm`, `shutdown_vm` and
  -- `stop_vm` is refused with nothing changed, or gives a task for the machine that is reported as
  -- succeeded; and then the machine is reported as running after a start, and as stopped after a
  -- shutdown or a stop.
  pub fake_adapter-Powered :
      (vm_id : ℕ) (place : ProviderPlacement) (s : FakeState)
      → has_vmid place.vmid s.deleted_vmids ≡ false
      → Powered PowerState.running vm_id place s (adapter.start_vm vm_id place s)
        × Powered PowerState.stopped vm_id place s (adapter.shutdown_vm vm_id place s)
        × Powered PowerState.stopped vm_id place s (adapter.stop_vm vm_id place s)
  unfolding fake_start_vm fake_shutdown_vm fake_stop_vm
  fake_adapter-Powered vm_id place s alive = (
    command-Powered "start" PowerState.running vm_id place s alive,
    command-Powered "shutdown" PowerState.stopped vm_id place s alive,
    command-Powered "stop" PowerState.stopped vm_id place s alive,
  )
