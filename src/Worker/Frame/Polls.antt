-- ===== src/Worker/Frame/Polls.antt =====
-- Polling sends nothing: the handlers of a lifecycle operation that is not pending only read.
use server_npd.Prelude.{◌≡◌, arith, false, Bool, if◌then◌else◌}
use server_npd.Outcome.{Error, Result, ok, err, Exec, Done, pure, catch, ◌>>=◌, ◌>>◌}
use server_npd.Outcome.Keeps.{Keeps}
use server_npd.Models.{Operation, OperationStatus, OperationType, is_status, VirtualMachine}
use server_npd.Proxmox.{ProxmoxAdapter, ProviderPlacement}
use server_npd.Operations.Session.{Session, the_operation, in_session}
use server_npd.Operations.Session.Keeps.{session_rules}
use server_npd.Operations.Create.Refresh.{process_create_vm_operation}
use server_npd.Operations.Lifecycle.Polling.{
  poll_power_off, poll_reboot, poll_delete, process_power_off_vm_operation,
  process_reboot_vm_operation, process_delete_vm_operation,
}
use server_npd.Worker.Frame.Reads.{
  Mark, IsReadOnly, Unmoved, Keeps-task_state, Unmoved-status, Unmoved-refresh_create,
}
use server_npd.Worker.Step.{no_dispatch, poll_create, poll_lifecycle_handler, poll_lifecycle}

abbrev pub is_pending : {W : Type 0} → Session W → Bool
is_pending s = is_status s.operation.status OperationStatus.pending

module _ {S A : Type 0} {P : S → Type 0} where
  Keeps-if_false :
      {b : Bool} (m : Exec S A) {n : Exec S A}
      → b ≡ false
      → Keeps P n
      → Keeps P (if b then m else n)
  Keeps-if_false {b} m {n} e k = rw e k

module _ {W A : Type 0} {P : Session W → Type 0} where
  -- An action that begins by reading the operation.
  Keeps-from :
      (k : Operation → Exec (Session W) A) (s : Session W)
      → Keeps P (k s.operation)
      → P s
      → P ((the_operation >>= k) s).1
  unfolding in_session
  Keeps-from k s keeps h = keeps.at s h

module _ {W : Type 0} {b : Mark W} {adapter : ProxmoxAdapter W} (reads : IsReadOnly adapter)
    (o : Operation) (vm : VirtualMachine) (p : ProviderPlacement) where
  Unmoved-poll_power_off : Keeps (Unmoved b) (poll_power_off adapter o vm p)
  unfolding poll_power_off
  Unmoved-poll_power_off = search (session_rules, Unmoved-status reads, Keeps-task_state) depth 40

  Unmoved-poll_reboot : Keeps (Unmoved b) (poll_reboot adapter o vm p)
  unfolding poll_reboot
  Unmoved-poll_reboot = search (session_rules, Unmoved-status reads, Keeps-task_state) depth 40

  Unmoved-poll_delete : Keeps (Unmoved b) (poll_delete adapter o vm p)
  unfolding poll_delete
  Unmoved-poll_delete = search (session_rules, Unmoved-status reads, Keeps-task_state) depth 40

module _ {S A B : Type 0} {P Q : S → Type 0} where
  -- The first action keeps `P`, which the second one needs to establish the weaker `Q`.
  then_weaken :
      (m : Exec S A) (f : A → Exec S B)
      → Keeps P m
      → ((s : S) → P s → Q s)
      → ((a : A) (s : S) → P s → Q (f a s).1)
      → (s : S) → P s
      → Q ((m >>= f) s).1
  unfolding ◌>>=◌
  then_weaken m f km weaken kf s h = next (m s).0 (m s).1 (km.at s h)
    where
      next : (r : Result A) (s : S) → P s → Q (((λ t. (r, t)) >>= f) s).1
      next (ok a) s h = kf a s h
      next (err e) s h = weaken s h

module _ {W : Type 0} {adapter : ProxmoxAdapter W} (reads : IsReadOnly adapter) where
  abbrev Polled : Mark W → Session W → Type 0
  Polled b s = Unmoved b s × (is_pending s ≡ false)

  module _ (b : Mark W) (s : Session W) (h : Polled b s) where
    Unmoved-process_power_off : Unmoved b (process_power_off_vm_operation adapter s).1
    unfolding process_power_off_vm_operation
    Unmoved-process_power_off =
        Keeps-from {P = Unmoved b} _ s
          (search (session_rules, Keeps-if_false, Unmoved-poll_power_off reads, h.1) depth 40) h.0

    Unmoved-process_reboot : Unmoved b (process_reboot_vm_operation adapter s).1
    unfolding process_reboot_vm_operation
    Unmoved-process_reboot =
        Keeps-from {P = Unmoved b} _ s
          (search (session_rules, Keeps-if_false, Unmoved-poll_reboot reads, h.1) depth 40) h.0

    Unmoved-process_delete : Unmoved b (process_delete_vm_operation adapter s).1
    unfolding process_delete_vm_operation
    Unmoved-process_delete =
        Keeps-from {P = Unmoved b} _ s
          (search (session_rules, Keeps-if_false, Unmoved-poll_delete reads, h.1) depth 40) h.0

    Unmoved-process_create : Unmoved b (process_create_vm_operation adapter s).1
    unfolding process_create_vm_operation
    Unmoved-process_create =
        Keeps-from {P = Unmoved b} _ s
          (search (session_rules, Keeps-if_false, Unmoved-refresh_create reads, h.1) depth 40) h.0

    Unmoved-poll_lifecycle_handler :
        (t : OperationType) → Unmoved b (poll_lifecycle_handler adapter t s).1
    unfolding poll_lifecycle_handler
    Unmoved-poll_lifecycle_handler t =
        ground (arith, Unmoved-process_power_off, Unmoved-process_reboot, Unmoved-process_delete)

  module _ {b : Mark W} (m : Exec (Session W) Done) (handler : Error → Exec (Session W) Done) where
    -- A poll with its handler, and the end of the transaction's body.
    Unmoved-catch :
        ((s : Session W) → Polled b s → Unmoved b (m s).1)
        → ((e : Error) → Keeps (Unmoved b) (handler e))
        → (s : Session W) → Polled b s
        → Unmoved b ((catch m handler >> pure no_dispatch) s).1
    unfolding ◌>>=◌
    Unmoved-catch km kh s h = caught (m s).0 (m s).1 (km s h)
      where
        after :
            (t : Session W) (r : Result Done)
            → Unmoved b t
            → Unmoved b (((λ _. (r, t)) >> pure no_dispatch) t).1
        after t (ok a) e = e
        after t (err x) e = e

        caught :
            (r : Result Done) (t : Session W)
            → Unmoved b t
            → Unmoved b ((catch (λ _. (r, t)) handler >> pure no_dispatch) t).1
        caught (ok a) t e = e
        caught (err x) t e = after (handler x t).1 (handler x t).0 ((kh x).at t e)

  module _ (b : Mark W) (s : Session W) (h : Polled b s) where
    pub Unmoved-poll_create : Unmoved b (poll_create adapter s).1
    unfolding poll_create
    Unmoved-poll_create =
        then_weaken {P = Polled b} {Q = Unmoved b} _ _ (search session_rules) (λ t k. k.0)
          (λ a t k.
            Unmoved-catch _ _ (Unmoved-process_create b) (λ e. search session_rules depth 12) t k)
          s h

    pub Unmoved-poll_lifecycle : Unmoved b (poll_lifecycle adapter s).1
    unfolding poll_lifecycle
    Unmoved-poll_lifecycle =
        then_weaken {P = Polled b} {Q = Unmoved b} _ _ (search session_rules) (λ t k. k.0)
          (λ o t k.
            then_weaken {P = Polled b} {Q = Unmoved b} _ _ (search session_rules) (λ u l. l.0)
              (λ a u l.
                Unmoved-catch _ _ (λ v m. Unmoved-poll_lifecycle_handler b v m o.operation_type)
                  (λ e. search session_rules depth 12) u l)
              t k)
          s h
