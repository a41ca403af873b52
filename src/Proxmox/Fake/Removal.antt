-- ===== src/Proxmox/Fake/Removal.antt =====
-- What the fake adapter reports after a delete.
use server_npd.Prelude.{
  ℕ, String, ◌≡◌, arith, refl, Bool, true, false, Option, none, some, List, ◌∷◌, inl, inr,
  if◌then◌else◌,
}
use server_npd.Outcome.{Result, ok, err, pure, gets, ◌>>=◌, ◌>>◌}
use server_npd.Outcome.Guards.{after_ok, after_err, after_gets}
use server_npd.Proxmox.Contracts.{ProviderPlacement, ProviderDeleteResult, SubmitState, PowerState}
use server_npd.Proxmox.Fake.{
  FakeState, has_vmid, store_status, drop_vm, fake_task, power_of, fake_get_vm_power_state,
  fake_delete_vm,
}
use server_npd.Proxmox.Fake.Power.{check_target_cases, Passes}

module _ (show_uuid : ℕ → String) (parse_uuid : String → Option ℕ) (own_node : String) where
  -- How a delete ends: refused with nothing changed, or taken; then the machine is reported as
  -- missing, and deleting it again succeeds at once and changes nothing.
  abbrev pub Removed :
      ℕ → ProviderPlacement → FakeState → Result ProviderDeleteResult × FakeState → Type 0
  Removed vm_id place s (err e, s') = s' ≡ s
  Removed vm_id place s (ok result, s') =
      (fake_get_vm_power_state show_uuid parse_uuid own_node vm_id place s'
        ≡ (ok (record { status = PowerState.missing; locked = false }), s'))
      × (fake_delete_vm show_uuid parse_uuid own_node vm_id place s'
          ≡ (ok (record { state = SubmitState.succeeded; task = none }), s'))

  gone_state :
      (vmid : ℕ) (s : FakeState)
      → has_vmid vmid s.deleted_vmids ≡ true
      → gets (power_of show_uuid parse_uuid own_node vmid) s
        ≡ (ok (record { status = PowerState.missing; locked = false }), s)
  unfolding ◌>>=◌
  gone_state vmid s gone = rw gone refl

  module _ (vm_id : ℕ) (place : ProviderPlacement) (s : FakeState)
      (passed : Passes show_uuid parse_uuid own_node vm_id place) where
    gone-reported :
        has_vmid place.vmid s.deleted_vmids ≡ true
        → Removed vm_id place s (ok (record { state = SubmitState.succeeded; task = none }), s)
    unfolding fake_get_vm_power_state fake_delete_vm pure
    gone-reported gone = (
      after_ok (λ q. q ≡ (ok (record { status = PowerState.missing; locked = false }), s)) _ _
          (passed s) (gone_state place.vmid s gone),
      after_ok (λ q. q ≡ (ok (record { state = SubmitState.succeeded; task = none }), s)) _ _
          (passed s)
          (after_gets (λ q. q ≡ (ok (record { state = SubmitState.succeeded; task = none }), s)) _ _
            (rw gone refl)),
    )

  has_vmid_self : (vmid : ℕ) (vmids : List ℕ) → has_vmid vmid (vmid ∷ vmids) ≡ true
  unfolding has_vmid
  has_vmid_self vmid vmids = ground arith

  taken :
      (vm_id : ℕ) (place : ProviderPlacement) (s : FakeState) (b : Bool)
      → Passes show_uuid parse_uuid own_node vm_id place
      → has_vmid place.vmid s.deleted_vmids ≡ b
      → Removed vm_id place s (
          (if b
              then pure (record { state = SubmitState.succeeded; task = none })
              else (store_status show_uuid parse_uuid own_node
                    (fake_task show_uuid parse_uuid own_node "delete" vm_id place)
                  >> (drop_vm show_uuid parse_uuid own_node place.vmid
                      >> pure (record {
                        state = SubmitState.submitted;
                        task = some (fake_task show_uuid parse_uuid own_node "delete" vm_id place);
                      }))))
            s)
  unfolding store_status drop_vm pure ◌>>=◌
  taken vm_id place s true passed e = gone-reported vm_id place s passed e
  taken vm_id place s false passed e =
      gone-reported vm_id place _ passed (has_vmid_self place.vmid s.deleted_vmids)

  -- Whatever the machine, the placement and the state: a delete is refused with nothing changed, or
  -- after it the machine is reported as missing, and deleting it again succeeds at once and changes
  -- nothing.
  pub fake_delete_vm-Removed :
      (vm_id : ℕ) (place : ProviderPlacement) (s : FakeState)
      → Removed vm_id place s (fake_delete_vm show_uuid parse_uuid own_node vm_id place s)
  unfolding fake_delete_vm
  fake_delete_vm-Removed vm_id place s =
      elim (check_target_cases show_uuid parse_uuid own_node vm_id place) [
        | inr (x, refused) ↦ after_err (Removed vm_id place s) _ _ (refused s) refl
        | inl passed ↦
            after_ok (Removed vm_id place s) _ _ (passed s)
              (after_gets (Removed vm_id place s) _ _ (taken vm_id place s _ passed refl))
      ]
