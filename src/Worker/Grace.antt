-- ===== src/Worker/Grace.antt =====
-- A command that is on its way keeps its operation from being claimed for the time of grace.
use server_npd.Prelude.{
  ℕ, String, ◌≡◌, ◌+◌, ◌<◌, ◌<>◌, arith, refl, sym, ◌∙◌, ap, subst, Bool, true, false, some, none,
  begins, inl, inr, Bool-cases,
}
use server_npd.Outcome.{ok}
use server_npd.Models.{Operation, OperationStatus, OperationType, is_type, vm_reboot}
use server_npd.Proxmox.{ProxmoxAdapter}
use server_npd.Operations.Session.{Session}
use server_npd.Worker.Claim.{claimable, like_poll_backoff, dispatch_grace}
use server_npd.Worker.Step.{
  Dispatch, no_dispatch, create_dispatch, start_dispatch, lifecycle_dispatch, step,
}
use server_npd.Worker.Transaction.{stamp}
use server_npd.Worker.Frame.Reads.{IsReadOnly, Mark, mark}
use server_npd.Worker.Frame.Took.{Took, Marked, lifecycle_marker}
use server_npd.Worker.Frame.Steps.{Took-step}
use Prim.Native.String.{slice, len}
use text.Mathlib.TextPositions.{slice-append_left}
use text.Mathlib.TextLemmas.{append_assoc}

slice-append_append : (a b c : String) → slice ((a <> b) <> c) 0 (len a) ≡ a
slice-append_append a b c =
    ap (λ u. slice u 0 (len a)) (append_assoc a b c) ∙ slice-append_left a (b <> c)

-- A text that the query takes neither for a reconciliation nor for a postponed poll.
record IsMarker (m : String) : Type 0 where
  no_reconcile : begins (some m) "reconcile" ≡ false
  no_backoff : like_poll_backoff (some m) ≡ false

IsMarker-dispatch : (p : String) → IsMarker ("dispatch_" <> p)
IsMarker-dispatch p = record {
  no_reconcile = rw (slice-append_left "dispatch_" p) refl;
  no_backoff = rw (slice-append_append "disp" "atch_" p) refl;
}

IsMarker-create : (p : String) → IsMarker ("dispatch_create_" <> p)
IsMarker-create p =
    subst IsMarker (sym (append_assoc "dispatch_" "create_" p)) (IsMarker-dispatch ("create_" <> p))

IsMarker-lifecycle : (t : OperationType) (c : String) → IsMarker (lifecycle_marker t c)
IsMarker-lifecycle t c = elim (Bool-cases (is_type t vm_reboot)) [
  | inl reboot ↦ rw reboot (
      subst IsMarker (sym (append_assoc "dispatch_" "reboot_" c))
        (IsMarker-dispatch ("reboot_" <> c)))
  | inr other ↦ rw other (IsMarker-dispatch c)
]

refused :
    (o : Operation) (m : String) (later : ℕ)
    → o.status ≡ OperationStatus.processing
    → o.phase ≡ some m
    → o.provider_task_id ≡ none
    → IsMarker m
    → later < o.updated_at + dispatch_grace
    → claimable later o ≡ false
unfolding claimable
refused o m later processing phase task h early =
    let no_reconcile : begins o.phase "reconcile" ≡ false =
      ap (λ p. begins p "reconcile") phase ∙ h.no_reconcile in
    let no_backoff : like_poll_backoff o.phase ≡ false =
      ap like_poll_backoff phase ∙ h.no_backoff in
    ground arith

-- What a commit leaves of a row that was given the time.
record IsStamped (now : ℕ) (b c : Operation) : Type 0 where
  same_status : c.status ≡ b.status
  same_phase : c.phase ≡ b.phase
  same_task : c.provider_task_id ≡ b.provider_task_id
  timed : c.updated_at ≡ now

IsStamped-stamp : (now : ℕ) (a b : Operation) → b.updated_at ≡ now → IsStamped now b (stamp now a b)
unfolding stamp
IsStamped-stamp now a b h = record {
  same_status = ground arith;
  same_phase = ground arith;
  same_task = ground arith;
  timed = ground arith;
}

abbrev pub is_command : Dispatch → Bool
is_command no_dispatch = false
is_command (create_dispatch _ _ _ _ _) = true
is_command (start_dispatch _ _ _) = true
is_command (lifecycle_dispatch _ _ _ _) = true

module _ {W : Type 0} (b : Mark W) (o : Operation) (t : Session W) (later : ℕ)
    (early : later < t.now + dispatch_grace) where
  graced :
      (m : String) → Marked b m t → IsMarker m → claimable later (stamp t.now o t.operation) ≡ false
  graced m (_, _, _, _, _, status, phase, task, timed) marker =
      let h = IsStamped-stamp t.now o t.operation timed in
      refused (stamp t.now o t.operation) m later (h.same_status ∙ status) (h.same_phase ∙ phase)
        (h.same_task ∙ task) marker (omega (arith, h.timed, early))

  graced_case :
      (d : Dispatch)
      → is_command d ≡ true
      → Took b (ok d) t
      → claimable later (stamp t.now o t.operation) ≡ false
  graced_case no_dispatch c took = cc
  graced_case (create_dispatch _ _ p _ _) c took =
      graced ("dispatch_create_" <> p) took.1 (IsMarker-create p)
  graced_case (start_dispatch _ _ _) c took =
      graced "dispatching" took.1 (record { no_reconcile = refl; no_backoff = refl })
  graced_case (lifecycle_dispatch _ _ p _) c took =
      graced (lifecycle_marker b.operation_type p) took.1 (IsMarker-lifecycle b.operation_type p)

module _ {W : Type 0} {adapter : ProxmoxAdapter W} (reads : IsReadOnly adapter) where
  -- Where the adapter's queries change nothing: an operation whose step ends with a command is
  -- committed so that the worker's query does not return it within the five minutes after the step,
  -- whatever operation the step was for.
  pub step-graced :
      (s : Session W) (d : Dispatch) (later : ℕ)
      → (step adapter s).0 ≡ ok d
      → is_command d ≡ true
      → later < (step adapter s).1.now + dispatch_grace
      → claimable later (stamp (step adapter s).1.now s.operation (step adapter s).1.operation)
        ≡ false
  step-graced s d later e command early =
      graced_case (mark s) s.operation (step adapter s).1 later early d command
        (subst (λ r. Took (mark s) r (step adapter s).1) e (Took-step reads s))
