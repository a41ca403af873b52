-- ===== src/Proxmox/Http/Found.antt =====
-- What the queries that a command begins with have found where they return.
use server_npd.Prelude.{
  not_inv, ℕ, String, Bool, true, false, none, some, ◌≡◌, ◌⊎◌, inl, inr, refl, sym, ap, ◌∙◌, subst,
  not, ◌||◌, arith,
}
use server_npd.Outcome.{Error, Result, ok, err, Exec, pure, ◌>>=◌}
use server_npd.Outcome.Keeps.{Keeps, Keeps-bind, keeps_rules}
use server_npd.Outcome.Guards.{after_ok, after_err, after_raise_if, after_need, after_some}
use server_npd.Proxmox.Contracts.{ProviderPlacement, PowerState, ProviderVmState}
use server_npd.Proxmox.Json.{Json, JsonObject, is_null, get}
use server_npd.Proxmox.Client.{Http, Python}
use server_npd.Proxmox.Client.Reading.{GetIsSafe, Still-get_vm_current_status}
use server_npd.Proxmox.Http.{
  HttpConfig, check_node, need_unlocked, need_power, power_of_resource, http_get_vm_power_state,
  get_owned_vm_status,
}
use server_npd.Proxmox.Http.Owned.{is_own, Looked, after_owned}

module _ {W : Type 0} {http : Http W} (safe : GetIsSafe http) (python : Python)
    (config : HttpConfig) (uuid_text : ℕ → String) (id : ℕ) (p : ProviderPlacement) (w : W) where
  -- The VMID belongs to the portal's own machine, which is not locked.
  abbrev pub Free : Type 0
  Free =
      (r : JsonObject) × Looked http python config uuid_text p w (some r)
      × (is_own config uuid_text id p r ≡ true)
      × (is_null (get "lock" r) ≡ true)

  -- Nothing was changed, and what returned has found a machine that is free.
  abbrev pub Found : {A : Type 0} → Result A × W → Type 0
  Found (ok a, v) = (v ≡ w) × Free
  Found (err e, v) = v ≡ w

  pub after-Found :
      {A B : Type 0} (P : Result B × W → Type 0) (m : Exec W A) (k : A → Exec W B)
      (q : Result A × W)
      → m w ≡ q
      → Found q
      → ((e : Error) → P (err e, w))
      → ((a : A) → Free → P (k a w))
      → P ((m >>= k) w)
  after-Found P m k (ok a, v) h (same, free) failed rest =
      after_ok P m k h (subst (λ x. P (k a x)) (sym same) (rest a free))
  after-Found P m k (err e, v) h same failed rest =
      after_err P m k h (subst (λ x. P (err e, x)) (sym same) (failed e))

  Found-still : {A : Type 0} (q : Result A × W) → Free → q.1 ≡ w → Found q
  Found-still (ok a, v) free same = (same, free)
  Found-still (err e, v) free same = same

  pub need_unlocked-Found :
      (absent locked : String)
      → Found (need_unlocked http python config uuid_text id p absent locked w)
  unfolding need_unlocked pure
  need_unlocked-Found absent locked =
      after_owned http python config uuid_text Found safe id p _ w (λ e. refl)
        (λ _. after_need Found none _ _ refl (λ a h. absurd (ground arith)))
        (λ r seen own. after_some Found _ _ refl (
          after_raise_if Found _ _ _ refl
            (λ locked_off. (refl, (r, seen, own, not_inv (is_null (get "lock" r)) locked_off)))))

  pub still : {A : Type 0} (m : Exec W A) → Keeps (λ v. v ≡ w) m → (m w).1 ≡ w
  still m kept = kept.at w refl

  pub after_still :
      {A B : Type 0} (P : Result B × W → Type 0) (m : Exec W A) (k : A → Exec W B)
      (q : Result A × W)
      → m w ≡ q
      → (m w).1 ≡ w
      → ((e : Error) → P (err e, w))
      → ((a : A) → P (k a w))
      → P ((m >>= k) w)
  after_still P m k (ok a, v) h same failed rest =
      after_ok P m k h (subst (λ x. P (k a x)) (sym (sym (ap (λ x. x.1) h) ∙ same)) (rest a))
  after_still P m k (err e, v) h same failed rest =
      after_err P m k h (subst (λ x. P (err e, x)) (sym (sym (ap (λ x. x.1) h) ∙ same)) (failed e))

  Still-need_power : (v : Json) (e : Error) → Keeps (λ x. x ≡ w) (need_power v e)
  unfolding need_power
  Still-need_power v e = search (keeps_rules)

  neither : (a b : Bool) → (not a || b) ≡ false → a ≡ true
  neither true b h = refl
  neither false b h = cc

  pub get_owned_vm_status-Found : Found (get_owned_vm_status http python config uuid_text id p w)
  unfolding get_owned_vm_status need_power
  get_owned_vm_status-Found =
      after-Found Found _ _ _ refl (need_unlocked-Found _ _) (λ e. refl)
        (λ a free. Found-still _ free (
          still _ (
            Keeps-bind (Still-get_vm_current_status safe w python p.node p.vmid)
              (λ s. search (keeps_rules)))))

  -- A state that was read, and what is known where it is not locked.
  abbrev pub Known : Result ProviderVmState × W → Type 0
  Known (ok st, v) =
      (v ≡ w)
      × ((st ≡ record { status = PowerState.missing; locked = false }) ⊎ (st.locked ≡ false → Free))
  Known (err e, v) = v ≡ w

  power_of_resource-Known :
      (r : JsonObject)
      → Looked http python config uuid_text p w (some r)
      → is_own config uuid_text id p r ≡ true
      → Known (power_of_resource http python config uuid_text p r w)
  unfolding power_of_resource pure
  power_of_resource-Known r seen own =
      after_still Known _ _ _ refl (still _ (Still-get_vm_current_status safe w python _ _))
        (λ e. refl)
        (λ s.
          after_still Known _ _ _ refl (still _ (Still-need_power _ _)) (λ e. refl)
            (λ st. (refl, inr (λ off. (r, seen, own, neither (is_null (get "lock" r)) _ off)))))

  pub http_get_vm_power_state-Known :
      Known (http_get_vm_power_state http python config uuid_text id p w)
  unfolding http_get_vm_power_state check_node pure
  http_get_vm_power_state-Known = after_raise_if Known _ _ _ refl (λ node.
      after_owned http python config uuid_text Known safe id p _ w (λ e. refl)
        (λ _. (refl, inl refl)) power_of_resource-Known)
