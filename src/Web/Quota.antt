-- ===== src/Web/Quota.antt =====
-- portal/app/compute/router.py: the user's plan, usage and what remains of the plan.
pub mod Fits
use server_npd.Prelude.{ℕ, String, ◌==◌}
use server_npd.Prelude.Int.{ℤ, sub_ℕ}
use server_npd.Prelude.Rows.{first, row}
use server_npd.Outcome.{runtime_error, Exec, pure, gets, need, ◌>>=◌}
use server_npd.Models.{Db, ComputePlan, QuotaStatus}
use server_npd.Compute.{Usage, get_user_compute_usage}

-- The five amounts under "limits" and under "usage".
pub record Amounts : Type 0 where
  pub vms : ℕ
  pub vcpus : ℕ
  pub memory_mb : ℕ
  pub storage_gb : ℕ
  pub shared_storage_gb : ℕ

-- Those under "remaining", which may be negative.
pub record Remaining : Type 0 where
  pub vms : ℤ
  pub vcpus : ℤ
  pub memory_mb : ℤ
  pub storage_gb : ℤ
  pub shared_storage_gb : ℤ

-- The answer.
pub record QuotaRead : Type 0 where
  pub status : QuotaStatus
  pub plan : String
  pub limits : Amounts
  pub usage : Amounts
  pub remaining : Remaining

abbrev pub limits_of : ComputePlan → Amounts
limits_of cp = record {
  vms = cp.max_vms;
  vcpus = cp.max_total_vcpus;
  memory_mb = cp.max_total_memory_mb;
  storage_gb = cp.max_total_storage_gb;
  shared_storage_gb = cp.max_shared_storage_gb;
}

abbrev pub used_of : Usage → Amounts
used_of usage = record {
  vms = usage.used_vms;
  vcpus = usage.used_vcpus;
  memory_mb = usage.used_memory_mb;
  storage_gb = usage.used_storage_gb;
  shared_storage_gb = 0;
}

abbrev pub remaining_of : ComputePlan → Usage → Remaining
remaining_of cp usage = record {
  vms = sub_ℕ cp.max_vms usage.used_vms;
  vcpus = sub_ℕ cp.max_total_vcpus usage.used_vcpus;
  memory_mb = sub_ℕ cp.max_total_memory_mb usage.used_memory_mb;
  storage_gb = sub_ℕ cp.max_total_storage_gb usage.used_storage_gb;
  shared_storage_gb = sub_ℕ cp.max_shared_storage_gb 0;
}

unfoldable pub get_quota : ℕ → Exec Db QuotaRead
get_quota user_id = do
  found ← gets (λ db. first (λ q. q.user_id == user_id) db.user_quotas)
  uq ← need found (runtime_error "user quota missing")
  plan ← gets (λ db. row (λ p. p.id) uq.compute_plan_id db.compute_plans)
  cp ← need plan (runtime_error "compute plan missing")
  usage ← gets (get_user_compute_usage user_id)
  pure (record {
    status = uq.status;
    plan = cp.code;
    limits = limits_of cp;
    usage = used_of usage;
    remaining = remaining_of cp usage;
  })
