-- ===== src/Worker/Frame/Took.antt =====
-- What a step has done by how it ended: a command that is to be sent has its marker in the row.
use server_npd.Prelude.{◌+◌, ◌<>◌, ◌≡◌, arith, String, some, none, if◌then◌else◌}
use server_npd.Outcome.{Result, ok, err}
use server_npd.Models.{OperationStatus, OperationType, is_type, vm_reboot}
use server_npd.Operations.Session.{
  Session, in_session, get_lifecycle_vm, placed, build_create_vm_request,
}
use server_npd.Operations.Create.Dispatch.{prepare_create_vm_dispatch}
use server_npd.Operations.Start.{prepare_start_vm_dispatch}
use server_npd.Operations.Lifecycle.Dispatch.{prepare_lifecycle_dispatch}
use server_npd.Worker.Frame.Reads.{Mark, mark, Unmoved}
use server_npd.Worker.Frame.Silent.{NoDispatch}
use server_npd.Worker.Step.{
  Dispatch, no_dispatch, create_dispatch, start_dispatch, lifecycle_dispatch, prepare_create,
}

-- The row is committed as processing, in the phase that stands for a command which may have been
-- sent, with no task, with one attempt more and with the time.
abbrev pub Marked : {W : Type 0} → Mark W → String → Session W → Type 0
Marked b phase t =
    (t.world ≡ b.world)
    × (t.operation.id ≡ b.id)
    × (t.operation.attempts ≡ b.attempts + 1)
    × (t.operation.virtual_machine_id ≡ b.virtual_machine_id)
    × (t.operation.operation_type ≡ b.operation_type)
    × (t.operation.status ≡ OperationStatus.processing)
    × (t.operation.phase ≡ some phase)
    × (t.operation.provider_task_id ≡ none)
    × (t.operation.updated_at ≡ t.now)

abbrev pub lifecycle_marker : OperationType → String → String
lifecycle_marker t command =
    if is_type t vm_reboot then "dispatch_reboot_" <> command else "dispatch_" <> command

-- After an exception the transaction is rolled back, so only the provider counts.
abbrev pub Took : {W : Type 0} → Mark W → Result Dispatch → Session W → Type 0
Took b (ok no_dispatch) t = Unmoved b t
Took b (ok (create_dispatch id vm_id phase _ _)) t =
    (id ≡ b.id) × Marked b ("dispatch_create_" <> phase) t
Took b (ok (start_dispatch id vm_id _)) t = (id ≡ b.id) × Marked b "dispatching" t
Took b (ok (lifecycle_dispatch id vm_id command _)) t =
    (id ≡ b.id) × Marked b (lifecycle_marker b.operation_type command) t
Took b (err e) t = t.world ≡ b.world

pub Took-of_Unmoved :
    {W : Type 0} (b : Mark W) (r : Result Dispatch) (t : Session W)
    → NoDispatch r
    → Unmoved b t
    → Took b r t
Took-of_Unmoved b (ok no_dispatch) t n u = u
Took-of_Unmoved b (ok (create_dispatch _ _ _ _ _)) t n u = absurd n
Took-of_Unmoved b (ok (start_dispatch _ _ _)) t n u = absurd n
Took-of_Unmoved b (ok (lifecycle_dispatch _ _ _ _)) t n u = absurd n
Took-of_Unmoved b (err e) t n u = u.0

module _ {W : Type 0} (s : Session W) where
  session-get_lifecycle_vm : (get_lifecycle_vm s).1 ≡ s
  unfolding get_lifecycle_vm placed in_session
  session-get_lifecycle_vm = ground arith

  pub Took-prepare_create : let (r, t) = prepare_create s in Took (mark s) r t
  unfolding prepare_create prepare_create_vm_dispatch get_lifecycle_vm placed
      build_create_vm_request in_session
  Took-prepare_create = grind arith

abbrev pub Prepared : {W A : Type 0} → Mark W → (A → String) → Result A → Session W → Type 0
Prepared b phase (ok a) t = Marked b (phase a) t
Prepared b phase (err e) t = t.world ≡ b.world

module _ {W : Type 0} (s : Session W) where
  pub Prepared-start :
      let (r, t) = prepare_start_vm_dispatch s in Prepared (mark s) (λ _. "dispatching") r t
  unfolding prepare_start_vm_dispatch get_lifecycle_vm placed in_session
  Prepared-start = grind arith

  pub Prepared-lifecycle :
      let (r, t) = prepare_lifecycle_dispatch s in
      Prepared (mark s) (λ c. lifecycle_marker s.operation.operation_type c.0) r t
  unfolding prepare_lifecycle_dispatch get_lifecycle_vm placed in_session
  Prepared-lifecycle = grind arith
