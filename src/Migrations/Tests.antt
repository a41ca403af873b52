-- ===== src/Migrations/Tests.antt =====
-- The migration of quotas at concrete tables.
use server_npd.Prelude.{ℕ, true, [], ◌∷◌, ◌≡◌, refl}
use server_npd.Prelude.Rows.{row, select}
use server_npd.Models.{User, ComputePlan, UserQuota, QuotaStatus, Accounts}
use server_npd.Migrations.{upgrade, cross_join, quotas_of}
use server_npd.Migrations.Backfilled.{Backfilled, upgrade-Backfilled}

abbrev member : ℕ → User
member id = record { id = id; is_active = true; created_at = 0 }

abbrev plan_with : ℕ → ComputePlan
plan_with id = record {
  id = id;
  code = "starter";
  max_vms = 2;
  max_total_vcpus = 4;
  max_total_memory_mb = 4096;
  max_total_storage_gb = 40;
  max_shared_storage_gb = 0;
  is_active = true;
}

abbrev quota_for : ℕ → ℕ → QuotaStatus → UserQuota
quota_for user_id plan_id status = record {
  user_id = user_id;
  compute_plan_id = plan_id;
  status = status;
}

abbrev two_members : Accounts
two_members = record {
  users = member 1 ∷ member 2 ∷ [];
  identities = [];
  sessions = [];
  db = record {
    operations = [];
    virtual_machines = [];
    ssh_keys = [];
    user_quotas = quota_for 1 8 QuotaStatus.suspended ∷ [];
    compute_plans = record (plan_with 8) { code = "pro" } ∷ plan_with 9 ∷ [];
  };
}

second_gets_starter :
    (upgrade two_members).db.user_quotas
    ≡ quota_for 2 9 QuotaStatus.active ∷ quota_for 1 8 QuotaStatus.suspended ∷ []
unfolding upgrade cross_join quotas_of row select
second_gets_starter = refl

upgrade-Backfilled_example : Backfilled two_members (upgrade two_members)
upgrade-Backfilled_example = upgrade-Backfilled two_members
