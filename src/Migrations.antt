-- ===== src/Migrations.antt =====
-- portal/alembic/versions/1b47a1f1aaff: the migration that gives a starter quota to every user who
-- has no quota. The others make the schema, which the models stand for, and add the starter plan.
pub mod Backfilled
mod Tests
use server_npd.Prelude.{ℕ, Bool, List, [], ◌∷◌, ◌++◌, not, is_some, str_eq}
use server_npd.Prelude.Rows.{row, select}
use server_npd.Models.{User, ComputePlan, UserQuota, QuotaStatus, Db, Accounts}

abbrev pub starter_quota : User → ComputePlan → UserQuota
starter_quota user plan = record {
  user_id = user.id;
  compute_plan_id = plan.id;
  status = QuotaStatus.active;
}

abbrev pub quota_user : UserQuota → ℕ
quota_user q = q.user_id

abbrev pub is_starter : ComputePlan → Bool
is_starter plan = str_eq plan.code "starter"

-- `EXISTS (SELECT 1 FROM user_quota WHERE user_quota.user_id = users.id)`
abbrev pub has_quota : List UserQuota → User → Bool
has_quota quotas user = is_some (row quota_user user.id quotas)

-- The rows of `users CROSS JOIN compute_plans`, as quotas.
unfoldable pub quotas_of : User → List ComputePlan → List UserQuota
quotas_of user [] = []
quotas_of user (plan ∷ plans) = starter_quota user plan ∷ quotas_of user plans

unfoldable pub cross_join : List User → List ComputePlan → List UserQuota
cross_join [] plans = []
cross_join (user ∷ users) plans = quotas_of user plans ++ cross_join users plans

abbrev pub missing_quotas : List UserQuota → List User → List ComputePlan → List UserQuota
missing_quotas quotas users plans =
    cross_join (select (λ u. not (has_quota quotas u)) users) (select is_starter plans)

-- `compute_plans.code` is unique, so the insertion adds at most one row for a user and violates no
-- primary key.
unfoldable pub upgrade : Accounts → Accounts
upgrade a = record a {
  db = record a.db {
    user_quotas = missing_quotas a.db.user_quotas a.users a.db.compute_plans ++ a.db.user_quotas;
  };
}
