-- ===== src/VirtualMachines/Creation/Quota.antt =====
-- A new machine fits the plan of its owner.
use server_npd.Prelude.{
  ℕ, String, ◌≡◌, ◌≤◌, ◌+◌, ◌⊎◌, inl, inr, arith, refl, true, false, Option, none, some, ◌∷◌,
  option_case, is_some, ◌||◌, Bool-cases,
}
use server_npd.Outcome.Guards.{
  after_raise_if, after_need, after_ok, after_err, after_gets, at_raise_if,
}
use mathlib.Core.Logic.{◌↔◌}
use server_npd.Prelude.Rows.{row}
use server_npd.Outcome.{Error, Result, ok, err, Done, integrity_error, pure, ◌>>=◌}
use server_npd.Models.{Db, Operation, UserQuota, ComputePlan, VirtualMachine, vm_create}
use server_npd.Compute.{Usage, get_user_compute_usage}
use server_npd.Outcome.Integrity.{is_integrity_error}
use server_npd.VirtualMachines.Creation.{
  VirtualMachineCreate, Environment, new_vm, new_operation, is_active, validate_vm_quota,
  is_dangling, flush_rows, by_key, add_vm,
}

pub record IsWithin (plan : ComputePlan) (u : Usage) : Type 0 where
  pub vms : u.used_vms ≤ plan.max_vms
  pub vcpus : u.used_vcpus ≤ plan.max_total_vcpus
  pub memory : u.used_memory_mb ≤ plan.max_total_memory_mb
  pub storage : u.used_storage_gb ≤ plan.max_total_storage_gb

abbrev pub plus_request : Usage → VirtualMachineCreate → Usage
plus_request u r = record {
  used_vms = u.used_vms + 1;
  used_vcpus = u.used_vcpus + r.requested_vcpus;
  used_memory_mb = u.used_memory_mb + r.requested_memory_mb;
  used_storage_gb = u.used_storage_gb + r.requested_storage_gb;
}

-- The check of a plan changes no table, and passes exactly when the user's usage with the new
-- machine is within each of the plan's four limits.
pub validate_vm_quota-IsWithin :
    (plan : ComputePlan) (u : Usage) (r : VirtualMachineCreate) (db : Db)
    → let (q, db') = validate_vm_quota plan u r db in
      (db' ≡ db) × ((q ≡ ok tt) ↔ IsWithin plan (plus_request u r))
unfolding validate_vm_quota ◌>>=◌
validate_vm_quota-IsWithin plan u r db = (ground arith, (λ h. ground arith, λ h. ground arith))

-- The check reads its arguments only: it raises, or it passes and the machine fits.
validate_vm_quota_cases :
    (plan : ComputePlan) (u : Usage) (r : VirtualMachineCreate) (db : Db)
    → ((e : Error) × (is_integrity_error e ≡ false) × (validate_vm_quota plan u r db ≡ (err e, db)))
      ⊎ ((validate_vm_quota plan u r db ≡ (ok tt, db)) × IsWithin plan (plus_request u r))
unfolding validate_vm_quota
validate_vm_quota_cases plan u r db = after_raise_if P _ _ _ (inl (_, refl, refl)) (λ vms.
    after_raise_if P _ _ _ (inl (_, refl, refl)) (λ vcpus.
      after_raise_if P _ _ _ (inl (_, refl, refl)) (λ memory.
        at_raise_if P _ _ (inl (_, refl, refl)) (λ storage. inr (
          refl,
          record {
            vms = ground arith;
            vcpus = ground arith;
            memory = ground arith;
            storage = ground arith;
          },
        )))))
  where
    P : Result Done × Db → Type 0
    P q =
        ((e : Error) × (is_integrity_error e ≡ false) × (q ≡ (err e, db)))
        ⊎ ((q ≡ (ok tt, db)) × IsWithin plan (plus_request u r))

-- The usage of a table with the new machine.
pub usage-new_vm :
    (env : Environment) (user_id : ℕ) (r : VirtualMachineCreate) (db : Db)
    → get_user_compute_usage user_id
        (record db { virtual_machines = new_vm env user_id r ∷ db.virtual_machines })
      ≡ plus_request (get_user_compute_usage user_id db) r
unfolding get_user_compute_usage
usage-new_vm env user_id r db = ground arith

-- The tables after a request has been added to what other transactions committed.
abbrev pub with_new_vm : Environment → ℕ → VirtualMachineCreate → String → Db → Db
with_new_vm env user_id r key db = record db {
  virtual_machines = new_vm env user_id r ∷ db.virtual_machines;
  operations = new_operation env env.new_vm_id vm_create (some "clone") key ∷ db.operations;
}

-- How `add_vm` ends: with an exception and nothing of the request in the tables, or with the two
-- new rows, for an active quota and within its plan.
abbrev pub Added :
    Environment
    → ℕ
    → VirtualMachineCreate
    → String
    → UserQuota
    → Db
    → Result VirtualMachine × Db
    → Type 0
Added env user_id r key quota db (err e, db') =
    ((db' ≡ db) × (is_integrity_error e ≡ false)) ⊎ ((db' ≡ env.others db) × (e ≡ integrity_error))
Added env user_id r key quota db (ok vm, db') =
    (vm ≡ new_vm env user_id r)
    × (db' ≡ with_new_vm env user_id r key (env.others db))
    × (by_key key (env.others db) ≡ none)
    × (is_active quota.status ≡ true)
    × ((plan : ComputePlan) × (row (λ (p : ComputePlan). p.id) quota.compute_plan_id
            db.compute_plans
          ≡ some plan)
        × IsWithin plan (plus_request (get_user_compute_usage user_id db) r))

-- A flush either finds the key taken, or adds its rows.
pub flush_rows_cases :
    (env : Environment) (vm : Option VirtualMachine) (o : Operation) (db : Db)
    → (flush_rows env vm o db ≡ (err integrity_error, env.others db))
      ⊎ ((by_key o.idempotency_key (env.others db) ≡ none)
          × (flush_rows env vm o db ≡ (
            ok tt,
            record (env.others db) {
              virtual_machines =
                  option_case vm
                    (env.others db).virtual_machines
                    (λ v. v ∷ (env.others db).virtual_machines);
              operations = o ∷ (env.others db).operations;
            },
          )))
unfolding flush_rows
flush_rows_cases env vm o db =
    let seen : Db = env.others db in
    elim (Bool-cases (is_some (by_key o.idempotency_key seen) || is_dangling vm seen)) [
      | inl refused ↦ inl (rw refused refl)
      | inr passed ↦ inr (ground arith, rw passed refl)
    ]

module _ (env : Environment) (user_id : ℕ) (r : VirtualMachineCreate) (key : String)
    (quota : UserQuota) (db : Db) where
  pub add_vm-Added : Added env user_id r key quota db (add_vm env user_id r key quota db)
  unfolding add_vm pure
  add_vm-Added = after_raise_if P _ _ _ (inl (refl, refl)) (λ active.
      after_need P _ _ _ (inl (refl, refl)) (λ minimum _.
        after_raise_if P _ _ _ (inl (refl, refl)) (λ _. after_gets P _ _ (
          after_need P _ _ _ (inl (refl, refl)) (λ plan found.
            after_gets P _ _
              (elim (validate_vm_quota_cases plan (get_user_compute_usage user_id db) r db) [
                | inl (x, other, e) ↦ after_err P _ _ e (inl (refl, other))
                | inr (e, fits) ↦
                    after_ok P _ _ e
                      (elim (flush_rows_cases env (some (new_vm env user_id r))
                        (new_operation env env.new_vm_id vm_create (some "clone") key) db) [
                          | inl f ↦ after_err P _ _ f (inr (refl, refl))
                          | inr (free, f) ↦
                              after_ok P _ _ f (refl, refl, free, ground arith, (plan, found, fits))
                        ])
              ]))))))
    where
      P : Result VirtualMachine × Db → Type 0
      P q = Added env user_id r key quota db q
