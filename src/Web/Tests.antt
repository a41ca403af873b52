-- ===== src/Web/Tests.antt =====
-- The answers to requests, at small tables.
use server_npd.Prelude.{true, [], ◌∷◌}
use server_npd.Outcome.Raises.{Raises}
use server_npd.Models.{Db, vm_shutdown, QuotaStatus}
use server_npd.VirtualMachines.Creation.{Environment, VirtualMachineCreate}
use server_npd.VirtualMachines.Router.{enqueue_lifecycle_operation, create_my_vm}
use server_npd.VirtualMachines.Answers.{
  IsLifecycleAnswer, enqueue_lifecycle_operation-IsLifecycleAnswer, IsCreateAnswer,
  create_my_vm-IsCreateAnswer,
}
use server_npd.Web.Dashboard.{dashboard, Shown, dashboard-Shown}

abbrev tables : Db
tables = record {
  operations = [];
  virtual_machines = [];
  ssh_keys = [];
  user_quotas = record { user_id = 1; compute_plan_id = 4; status = QuotaStatus.active } ∷ [];
  compute_plans =
      record {
        id = 4;
        code = "starter";
        max_vms = 2;
        max_total_vcpus = 4;
        max_total_memory_mb = 4096;
        max_total_storage_gb = 40;
        max_shared_storage_gb = 0;
        is_active = true;
      }
      ∷ [];
}

abbrev environment : Environment
environment = record { new_vm_id = 7; new_operation_id = 2; now = 5; others = λ db. db }

abbrev small : VirtualMachineCreate
small = record {
  requested_vcpus = 2;
  requested_memory_mb = 2048;
  requested_storage_gb = 20;
  image_id = "almalinux-9";
  ssh_public_key_id = 3;
}

enqueue_lifecycle_operation-IsLifecycleAnswer_example :
    Raises IsLifecycleAnswer (enqueue_lifecycle_operation environment 1 7 vm_shutdown "k")
enqueue_lifecycle_operation-IsLifecycleAnswer_example =
    enqueue_lifecycle_operation-IsLifecycleAnswer environment 1 7 vm_shutdown "k"

create_my_vm-IsCreateAnswer_example : Raises IsCreateAnswer (create_my_vm environment 1 small "k")
create_my_vm-IsCreateAnswer_example = create_my_vm-IsCreateAnswer environment 1 small "k"

dashboard-Shown_example : Shown 1 tables (dashboard 1 tables)
dashboard-Shown_example = dashboard-Shown 1 tables
