-- ===== src/Operations/Session/Keeps.antt =====
-- The invariants of a session's basic actions and of the two lookups that the steps share.
use server_npd.Prelude.{String}
use server_npd.Prelude.Rows.{put_row}
use server_npd.Outcome.{Exec}
use server_npd.Outcome.Keeps.{Keeps, keeps_rules, Keeps-need}
use server_npd.Models.{Operation, VirtualMachine}
use server_npd.Operations.Session.{
  Session, in_session, the_operation, the_time, set_operation, save_vm, get_vm, placed,
  get_lifecycle_vm, build_create_vm_request,
}

module _ {W : Type 0} {P : Session W → Type 0} where
  pub Keeps-the_operation : Keeps P the_operation
  unfolding the_operation
  Keeps-the_operation = record { at = λ s h. h }

  pub Keeps-the_time : Keeps P the_time
  unfolding the_time
  Keeps-the_time = record { at = λ s h. h }

  pub Keeps-get_vm : (message : String) → Keeps P (get_vm message)
  unfolding get_vm
  Keeps-get_vm message = search keeps_rules

  pub Keeps-set_operation :
      (f : Operation → Operation)
      → ((s : Session W) → P s → P (record s { operation = f s.operation }))
      → Keeps P (set_operation f)
  unfolding set_operation
  Keeps-set_operation f k = record { at = k }

  pub Keeps-save_vm :
      (vm : VirtualMachine)
      → ((s : Session W)
          → P s
          → P (record s { virtual_machines = put_row (λ v. v.id) vm s.virtual_machines }))
      → Keeps P (save_vm vm)
  unfolding save_vm
  Keeps-save_vm vm k = record { at = k }

  pub Keeps-in_session :
      {A : Type 0} (m : Exec W A)
      → ((s : Session W) → P s → P (record s { world = (m s.world).1 }))
      → Keeps P (in_session m)
  unfolding in_session
  Keeps-in_session m k = record { at = k }

  pub Keeps-placed : (vm : VirtualMachine) → Keeps P (placed vm)
  unfolding placed
  Keeps-placed vm = search keeps_rules

  pub Keeps-get_lifecycle_vm : Keeps P get_lifecycle_vm
  unfolding get_lifecycle_vm
  Keeps-get_lifecycle_vm = search (keeps_rules, Keeps-get_vm, Keeps-placed)

  pub Keeps-build_create_vm_request : (vm : VirtualMachine) → Keeps P (build_create_vm_request vm)
  unfolding build_create_vm_request
  Keeps-build_create_vm_request vm = search keeps_rules depth 12

pub ruleset session_rules = (
  keeps_rules, Keeps-the_operation, Keeps-the_time, Keeps-get_vm, Keeps-get_lifecycle_vm,
  Keeps-build_create_vm_request, Keeps-set_operation, Keeps-save_vm, Keeps-in_session,
)
