-- ===== src/Models/Plans.antt =====
-- portal/app/compute/models.py.
use server_npd.Prelude.{ℕ, String, Bool}

pub record ComputePlan : Type 0 where
  pub id : ℕ
  pub code : String
  pub max_vms : ℕ
  pub max_total_vcpus : ℕ
  pub max_total_memory_mb : ℕ
  pub max_total_storage_gb : ℕ
  pub max_shared_storage_gb : ℕ
  pub is_active : Bool

-- The CHECK constraint `ck_user_status`.
pub data QuotaStatus : Type 0 where
  active suspended : QuotaStatus

pub record UserQuota : Type 0 where
  pub user_id : ℕ
  pub compute_plan_id : ℕ
  pub status : QuotaStatus
