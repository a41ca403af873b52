-- ===== src/Compute.antt =====
-- portal/app/compute/services.py: the starter quota, and what a user's machines take up.
use server_npd.Prelude.{ℕ, ◌+◌, ◌==◌, Bool, true, false, List, [], ◌∷◌, ◌&&◌, not, str_eq}
use server_npd.Prelude.Rows.{first, select}
use server_npd.Outcome.{Exec, Done, runtime_error, ok, gets, need, raise_if, pure, ◌>>=◌, ◌>>◌}
use server_npd.Models.{Db, VirtualMachine, VmStatus, UserQuota, QuotaStatus}

-- `QUOTA_CONSUMING_STATUSES`: all but failed and deleted.
abbrev pub quota_consuming : VmStatus → Bool
quota_consuming VmStatus.pending = true
quota_consuming VmStatus.pending_capacity = true
quota_consuming VmStatus.provisioning = true
quota_consuming VmStatus.running = true
quota_consuming VmStatus.stopped = true
quota_consuming VmStatus.deleting = true
quota_consuming VmStatus.failed = false
quota_consuming VmStatus.deleted = false

-- The row of the query's result.
pub record Usage : Type 0 where
  pub used_vms : ℕ
  pub used_vcpus : ℕ
  pub used_memory_mb : ℕ
  pub used_storage_gb : ℕ

-- `func.count`, and `func.coalesce(func.sum(…), 0)` over the selected rows.
unfoldable pub total : List VirtualMachine → Usage
total [] = record { used_vms = 0; used_vcpus = 0; used_memory_mb = 0; used_storage_gb = 0 }
total (vm ∷ vms) =
    let rest = total vms in
    record {
      used_vms = rest.used_vms + 1;
      used_vcpus = rest.used_vcpus + vm.requested_vcpus;
      used_memory_mb = rest.used_memory_mb + vm.requested_memory_mb;
      used_storage_gb = rest.used_storage_gb + vm.requested_storage_gb;
    }

abbrev pub counts_for : ℕ → VirtualMachine → Bool
counts_for user_id vm = vm.owner_user_id == user_id && quota_consuming vm.status

unfoldable pub get_user_compute_usage : ℕ → Db → Usage
unfolding total select
get_user_compute_usage user_id db = total (select (counts_for user_id) db.virtual_machines)

-- `db.add(uq)`
unfoldable pub add_quota : UserQuota → Exec Db Done
add_quota quota db = (ok tt, record db { user_quotas = quota ∷ db.user_quotas })

-- `db.add` of a second quota for a user is refused by the primary key when it is flushed.
unfoldable pub assign_starter_quota : ℕ → Exec Db UserQuota
unfolding ◌>>=◌ first add_quota
assign_starter_quota user_id = do
  found ← gets (λ db. first (λ p. str_eq p.code "starter") db.compute_plans)
  plan ← need found (runtime_error "compute plan is missing")
  raise_if (not plan.is_active) (runtime_error "compute plan is inactive")
  let quota : UserQuota = record {
    user_id = user_id;
    compute_plan_id = plan.id;
    status = QuotaStatus.active;
  }
  add_quota quota
  pure quota
