-- ===== src/Worker/Frame/Steps.antt =====
-- The step of a claimed operation sends nothing itself. It ends with the operation's identity and
-- attempts as they were, or with the marker of the one command that is to be sent.
use server_npd.Prelude.{◌≡◌, arith, true, false, some, is_none, is_text, inl, inr, Option-cases}
use server_npd.Prelude.Rows.{row}
use server_npd.Outcome.Keeps.{Keeps}
use server_npd.Models.{VirtualMachine}
use server_npd.Proxmox.{ProxmoxAdapter}
use server_npd.Operations.Session.{Session, in_session, build_create_vm_request}
use server_npd.Operations.Session.Keeps.{session_rules}
use server_npd.Operations.Create.Provision.{place_or_clone, start_create_vm_operation}
use server_npd.Operations.Create.Refresh.{process_create_vm_operation}
use server_npd.Worker.Frame.Reads.{
  IsReadOnly, Mark, mark, Unmoved, Unmoved-refl, Unmoved-process_start, Unmoved-reconcile_start,
  Unmoved-reconcile_create, Unmoved-reconcile_lifecycle,
}
use server_npd.Worker.Frame.Polls.{is_pending, Unmoved-poll_create, Unmoved-poll_lifecycle}
use server_npd.Worker.Frame.Silent.{
  Silent-poll_create, Silent-settle_create, Silent-poll_start, Silent-settle_start,
  Silent-poll_lifecycle, Silent-settle_lifecycle,
}
use server_npd.Worker.Frame.Took.{
  Took, Took-of_Unmoved, Took-prepare_create, Prepared-start, Prepared-lifecycle,
}
use server_npd.Worker.Step.{
  step_pending_clone, poll_create, settle_create, poll_start, settle_start, poll_lifecycle,
  settle_lifecycle, step_create, step_start, step_lifecycle, step,
}

module _ {W : Type 0} {adapter : ProxmoxAdapter W} (reads : IsReadOnly adapter) where
  Unmoved-start_create :
      (s : Session W) (vm : VirtualMachine)
      → row (λ v. v.id) s.operation.virtual_machine_id s.virtual_machines ≡ some vm
      → is_none vm.provider_node ≡ true
      → Unmoved (mark s) (start_create_vm_operation adapter s).1
  unfolding start_create_vm_operation place_or_clone build_create_vm_request in_session
  Unmoved-start_create s vm found unplaced = grind (arith, reads.target)

  Unmoved-process_create_unplaced :
      (s : Session W) (vm : VirtualMachine)
      → row (λ v. v.id) s.operation.virtual_machine_id s.virtual_machines ≡ some vm
      → is_none vm.provider_node ≡ true
      → is_pending s ≡ true
      → is_text s.operation.phase "clone" ≡ true
      → Unmoved (mark s) (process_create_vm_operation adapter s).1
  unfolding process_create_vm_operation in_session
  Unmoved-process_create_unplaced s vm found unplaced pend clone =
      rw (pend, clone) (Unmoved-start_create s vm found unplaced)

  Took-step_pending_clone :
      (s : Session W)
      → is_pending s ≡ true
      → is_text s.operation.phase "clone" ≡ true
      → let (r, t) = step_pending_clone adapter s in Took (mark s) r t
  unfolding step_pending_clone in_session
  Took-step_pending_clone s pend clone =
      elim (Option-cases (row (λ v. v.id) s.operation.virtual_machine_id s.virtual_machines)) [
        | inl missing ↦ ground arith
        | inr (vm, found) ↦
            ground (arith, Unmoved-process_create_unplaced s vm found, Took-prepare_create s)
      ]

  Unmoved-settle_create : {b : Mark W} → Keeps (Unmoved b) (settle_create adapter)
  unfolding settle_create
  Unmoved-settle_create = search (session_rules, Unmoved-reconcile_create reads) depth 20

  Unmoved-settle_lifecycle : {b : Mark W} → Keeps (Unmoved b) (settle_lifecycle adapter)
  unfolding settle_lifecycle
  Unmoved-settle_lifecycle = search (session_rules, Unmoved-reconcile_lifecycle reads) depth 20

  Unmoved-poll_start : {b : Mark W} → Keeps (Unmoved b) (poll_start adapter)
  unfolding poll_start
  Unmoved-poll_start = search (session_rules, Unmoved-process_start reads) depth 20

  Unmoved-settle_start : {b : Mark W} → Keeps (Unmoved b) (settle_start adapter)
  unfolding settle_start
  Unmoved-settle_start = search (session_rules, Unmoved-reconcile_start reads) depth 20

  module _ (s : Session W) where
    Took-poll_start : let (r, t) = poll_start adapter s in Took (mark s) r t
    Took-poll_start =
        Took-of_Unmoved (mark s) _ _ ((Silent-poll_start adapter).at s)
          (Unmoved-poll_start.at s (Unmoved-refl s))

    Took-settle_start : let (r, t) = settle_start adapter s in Took (mark s) r t
    Took-settle_start =
        Took-of_Unmoved (mark s) _ _ ((Silent-settle_start adapter).at s)
          (Unmoved-settle_start.at s (Unmoved-refl s))

    Took-settle_create : let (r, t) = settle_create adapter s in Took (mark s) r t
    Took-settle_create =
        Took-of_Unmoved (mark s) _ _ ((Silent-settle_create adapter).at s)
          (Unmoved-settle_create.at s (Unmoved-refl s))

    Took-settle_lifecycle : let (r, t) = settle_lifecycle adapter s in Took (mark s) r t
    Took-settle_lifecycle =
        Took-of_Unmoved (mark s) _ _ ((Silent-settle_lifecycle adapter).at s)
          (Unmoved-settle_lifecycle.at s (Unmoved-refl s))

    Took-poll_create :
        is_pending s ≡ false → let (r, t) = poll_create adapter s in Took (mark s) r t
    Took-poll_create h =
        Took-of_Unmoved (mark s) _ _ ((Silent-poll_create adapter).at s)
          (Unmoved-poll_create reads (mark s) s (Unmoved-refl s, h))

    Took-poll_lifecycle :
        is_pending s ≡ false → let (r, t) = poll_lifecycle adapter s in Took (mark s) r t
    Took-poll_lifecycle h =
        Took-of_Unmoved (mark s) _ _ ((Silent-poll_lifecycle adapter).at s)
          (Unmoved-poll_lifecycle reads (mark s) s (Unmoved-refl s, h))

    Took-step_create : let (r, t) = step_create adapter s in Took (mark s) r t
    unfolding step_create in_session
    Took-step_create = ground (
      arith,
      Took-step_pending_clone s,
      Took-prepare_create s,
      Took-poll_create,
      Took-settle_create,
    )

    Took-step_start : let (r, t) = step_start adapter s in Took (mark s) r t
    unfolding step_start in_session
    Took-step_start = ground (arith, Prepared-start s, Took-poll_start, Took-settle_start)

    Took-step_lifecycle : let (r, t) = step_lifecycle adapter s in Took (mark s) r t
    unfolding step_lifecycle in_session
    Took-step_lifecycle =
        ground (arith, Prepared-lifecycle s, Took-poll_lifecycle, Took-settle_lifecycle)

    -- Where the adapter's queries change nothing, a step on any operation changes nothing at the
    -- provider. It ends with no command, and the operation's identity and attempts as they were; or
    -- with a command for that operation, whose marker it carries with one attempt more; or with an
    -- exception.
    pub Took-step : let (r, t) = step adapter s in Took (mark s) r t
    unfolding step in_session
    Took-step = ground (arith, Took-step_create, Took-step_start, Took-step_lifecycle)
