-- ===== src/Web/Quota/Fits.antt =====
-- What the answer about a user's quota says of the machines that the user can still ask for.
use server_npd.Prelude.{ℕ, ◌≡◌, ◌≤◌, ◌⊎◌, ◌==◌, none, some}
use mathlib.Core.Logic.{◌↔◌}
use server_npd.Prelude.Int.{ℤ, pos, negsuc}
use server_npd.Prelude.Rows.{first, row}
use server_npd.Outcome.{runtime_error, Result, ok, err}
use server_npd.Models.{Db, UserQuota, ComputePlan}
use server_npd.Compute.{get_user_compute_usage}
use server_npd.VirtualMachines.Creation.{VirtualMachineCreate, validate_vm_quota}
use server_npd.Web.Quota.{Remaining, QuotaRead, limits_of, used_of}

-- n <= z
abbrev pub AtMost : ℕ → ℤ → Type 0
AtMost n (pos m) = n ≤ m
AtMost n (negsuc m) = ⊥

-- One more machine of this request fits into what remains.
pub record Fits (r : VirtualMachineCreate) (q : Remaining) : Type 0 where
  pub vms : AtMost 1 q.vms
  pub vcpus : AtMost r.requested_vcpus q.vcpus
  pub memory : AtMost r.requested_memory_mb q.memory_mb
  pub storage : AtMost r.requested_storage_gb q.storage_gb

module _ (user_id : ℕ) (db : Db) where
  -- The quota of the user, and the plan that it names.
  abbrev pub Holds : UserQuota → ComputePlan → Type 0
  Holds uq cp =
      (first (λ q. q.user_id == user_id) db.user_quotas ≡ some uq)
      × (row (λ p. p.id) uq.compute_plan_id db.compute_plans ≡ some cp)

  abbrev pub QuotaShown : Result QuotaRead × Db → Type 0
  QuotaShown (ok q, t) =
      (t ≡ db)
      × (uq : UserQuota) × (cp : ComputePlan) × Holds uq cp
      × (q.status ≡ uq.status)
      × (q.plan ≡ cp.code)
      × (q.limits ≡ limits_of cp)
      × (q.usage ≡ used_of (get_user_compute_usage user_id db))
      × (q.remaining.shared_storage_gb ≡ pos cp.max_shared_storage_gb)
      × ((r : VirtualMachineCreate)
          → (validate_vm_quota cp (get_user_compute_usage user_id db) r db ≡ (ok tt, db))
            ↔ Fits r q.remaining)
  QuotaShown (err e, t) =
      (t ≡ db)
      × (((first (λ q. q.user_id == user_id) db.user_quotas ≡ none)
            × (e ≡ runtime_error "user quota missing"))
          ⊎ ((uq : UserQuota) × (first (λ q. q.user_id == user_id) db.user_quotas ≡ some uq)
              × (row (λ p. p.id) uq.compute_plan_id db.compute_plans ≡ none)
              × (e ≡ runtime_error "compute plan missing")))
