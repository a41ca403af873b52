-- ===== src/Models/Requests.antt =====
-- portal/app/operations/models.py. The phase stays a text, since the code builds and cuts it.
use server_npd.Prelude.{ℕ, String, Bool, Option, ◌==◌}

-- The CHECK constraint `operation_type_list`.
pub data OperationType : Type 0 where
  vm_create vm_start vm_shutdown vm_stop vm_reboot vm_delete : OperationType

-- The CHECK constraint `operations_status_list`.
pub data OperationStatus : Type 0 where
  pending processing succeeded failed : OperationStatus

pub record Operation : Type 0 where
  pub id : ℕ
  pub virtual_machine_id : ℕ
  pub operation_type : OperationType
  pub status : OperationStatus
  pub phase : Option String
  pub idempotency_key : String
  pub attempts : ℕ
  pub last_error_code : Option String
  pub provider_task_id : Option String
  pub created_at : ℕ
  pub updated_at : ℕ

abbrev type_rank : OperationType → ℕ
type_rank vm_create = 0
type_rank vm_start = 1
type_rank vm_shutdown = 2
type_rank vm_stop = 3
type_rank vm_reboot = 4
type_rank vm_delete = 5

abbrev pub is_type : OperationType → OperationType → Bool
is_type s t = type_rank s == type_rank t

abbrev status_rank : OperationStatus → ℕ
status_rank pending = 0
status_rank processing = 1
status_rank succeeded = 2
status_rank failed = 3

abbrev pub is_status : OperationStatus → OperationStatus → Bool
is_status s t = status_rank s == status_rank t
