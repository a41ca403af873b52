-- ===== src/Web/Dashboard.antt =====
-- portal/app/web/router.py: what the dashboard shows. The template, which writes the page, is left
-- out.
use server_npd.Prelude.{
  ℕ, zero, suc, true, ◌≡◌, refl, Option, none, some, List, [], ◌∷◌, arith, ◌==◌, option_case,
}
use server_npd.Prelude.Rows.{first, row, select, IsIn, here, there}
use server_npd.Prelude.Sorting.{
  order_desc, IsIn-select, IsIn-order_desc, order_desc-IsIn, select-IsIn,
}
use server_npd.Outcome.{Result, ok, err, Exec, gets}
use server_npd.Models.{Db, ComputePlan, UserQuota, VirtualMachine, SshPublicKey, Operation}
use server_npd.Compute.{Usage, get_user_compute_usage}
use server_npd.VirtualMachines.Router.{is_owned}

-- `.limit(n)`
unfoldable pub take {ℓ} : {A : Type ℓ} → ℕ → List A → List A
take zero xs = []
take (suc n) [] = []
take (suc n) (x ∷ xs) = x ∷ take n xs

pub record DashboardContext : Type 0 where
  pub quota : Option UserQuota
  pub plan : Option ComputePlan
  pub usage : Option Usage
  pub vms : List VirtualMachine
  pub ssh_keys : List SshPublicKey
  pub operations : List Operation

unfoldable pub dashboard : ℕ → Exec Db DashboardContext
dashboard user_id = gets (λ db.
    let quota = first (λ q. q.user_id == user_id) db.user_quotas in
    let plan : Option ComputePlan =
      option_case quota none (λ q. row (λ p. p.id) q.compute_plan_id db.compute_plans) in
    record {
      quota = quota;
      plan = plan;
      usage = option_case plan none (λ p. some (get_user_compute_usage user_id db));
      vms =
          order_desc (λ v. v.created_at)
            (select (λ v. v.owner_user_id == user_id) db.virtual_machines);
      ssh_keys =
          order_desc (λ k. k.created_at) (select (λ k. k.owner_user_id == user_id) db.ssh_keys);
      operations = take 10 (
          order_desc (λ o. o.created_at)
            (select (λ o. is_owned user_id o.virtual_machine_id db) db.operations));
    })

IsIn-take {ℓ} : {A : Type ℓ} (n : ℕ) (xs : List A) {x : A} → IsIn x (take n xs) → IsIn x xs
unfolding take
IsIn-take zero xs m = elim m [ ]
IsIn-take (suc n) [] m = elim m [ ]
IsIn-take (suc n) (x ∷ xs) here = here
IsIn-take (suc n) (x ∷ xs) (there m) = there (IsIn-take n xs m)

-- Nothing of another user's, and every machine and key of the user's.
abbrev pub Shown : ℕ → Db → Result DashboardContext × Db → Type 0
Shown user_id db (ok c, t) =
    (t ≡ db)
    × ((v : VirtualMachine)
        → IsIn v c.vms
        → IsIn v db.virtual_machines × (v.owner_user_id ≡ user_id))
    × ((v : VirtualMachine)
        → IsIn v db.virtual_machines × (v.owner_user_id ≡ user_id)
        → IsIn v c.vms)
    × ((k : SshPublicKey) → IsIn k c.ssh_keys → IsIn k db.ssh_keys × (k.owner_user_id ≡ user_id))
    × ((k : SshPublicKey) → IsIn k db.ssh_keys × (k.owner_user_id ≡ user_id) → IsIn k c.ssh_keys)
    × ((o : Operation)
        → IsIn o c.operations
        → IsIn o db.operations × (is_owned user_id o.virtual_machine_id db ≡ true))
Shown user_id db (err e, t) = ⊥

-- The dashboard shows exactly the user's machines and keys, and of operations only those of the
-- user's machines; showing it changes nothing.
pub dashboard-Shown : (user_id : ℕ) (db : Db) → Shown user_id db (dashboard user_id db)
unfolding dashboard gets
dashboard-Shown user_id db = (
  refl,
  (λ v m.
      let (n, e) =
        IsIn-select (λ v. v.owner_user_id == user_id) db.virtual_machines
          (IsIn-order_desc (λ v. v.created_at) _ m) in
      (n, ground (arith))),
  (λ v m.
      order_desc-IsIn (λ v. v.created_at)
        (select-IsIn (λ v. v.owner_user_id == user_id) m.0 (ground (arith)))),
  (λ k m.
      let (n, e) =
        IsIn-select (λ k. k.owner_user_id == user_id) db.ssh_keys
          (IsIn-order_desc (λ k. k.created_at) _ m) in
      (n, ground (arith))),
  (λ k m.
      order_desc-IsIn (λ k. k.created_at)
        (select-IsIn (λ k. k.owner_user_id == user_id) m.0 (ground (arith)))),
  (λ o m.
      IsIn-select (λ o. is_owned user_id o.virtual_machine_id db) db.operations
        (IsIn-order_desc (λ o. o.created_at) _ (IsIn-take 10 _ m))),
)
