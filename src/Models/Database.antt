-- ===== src/Models/Database.antt =====
-- The tables together.
use server_npd.Prelude.{List}
use server_npd.Models.Requests.{Operation}
use server_npd.Models.Machines.{VirtualMachine, SshPublicKey}
use server_npd.Models.Plans.{ComputePlan, UserQuota}

pub record Db : Type 0 where
  pub operations : List Operation
  pub virtual_machines : List VirtualMachine
  pub ssh_keys : List SshPublicKey
  pub user_quotas : List UserQuota
  pub compute_plans : List ComputePlan
