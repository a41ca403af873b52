-- ===== src/Worker/Accepted.antt =====
-- The answers of an adapter whose commands keep their promise are stored.
use server_npd.Prelude.{
  ℕ, String, Bool, true, false, Option, none, some, ◌≡◌, inl, inr, refl, ◌∷◌, [], ap, ◌||◌, str_eq,
  not, Bool-cases, one_of, is_some, is_text, subst, sym, ◌<>◌, arith,
}
use server_npd.Outcome.{runtime_error, Result, ok, Done, Exec, pure, need, ◌>>=◌}
use server_npd.Outcome.Guards.{after_ok, after_test, after_some}
use server_npd.Prelude.Rows.{row}
use server_npd.Outcome.Lands.{
  Lands, IsOk, Lands-raise_if, Lands-chain, Lands-bind, Lands-need-some, lands_rules,
}
use server_npd.Outcome.Answers.{
  Answers, Answers-pure, Answers-bind, Answers-then, Answers-if, Answers-raise,
}
use server_npd.Models.{Operation, OperationStatus, is_status, is_type, vm_create, VirtualMachine}
use server_npd.Proxmox.{
  CreateVmRequest, ProviderPlacement, ProviderTask, ProviderCloneResult, targets, SubmitState,
  submitted, in_progress, succeeded, ProxmoxAdapter,
}
use server_npd.Proxmox.Promise.{Aimed, Submission, Submits}
use server_npd.Operations.Session.{
  Session, in_session, the_operation, the_time, set_operation, save_vm, get_vm, placed,
  get_lifecycle_vm,
}
use server_npd.Worker.Submit.{Reply, create_reply, send_create}
use server_npd.Operations.Create.Dispatch.{
  CreateResult, clone_result, task_result, finish_create_result, finish_clone, store_create_task,
  complete_create_step, finish_create_vm_dispatch,
}

module _ {W : Type 0} where
  Lands-set_operation : (f : Operation → Operation) → Lands {S = Session W} (set_operation f)
  unfolding in_session
  Lands-set_operation f = record { at = λ s. tt }

  Lands-save_vm : (vm : VirtualMachine) → Lands {S = Session W} (save_vm vm)
  unfolding in_session
  Lands-save_vm vm = record { at = λ s. tt }

  Lands-the_time : Lands {S = Session W} the_time
  unfolding in_session
  Lands-the_time = record { at = λ s. tt }

  ruleset session_lands = (lands_rules, Lands-set_operation, Lands-save_vm, Lands-the_time)

  module _ (vm : VirtualMachine) (place : ProviderPlacement) where
    complete-Lands :
        (phase : String)
        → one_of phase ("configure" ∷ "resize" ∷ "start" ∷ []) ≡ true
        → Lands {S = Session W} (complete_create_step vm phase)
    unfolding complete_create_step
    complete-Lands phase h =
        Lands-bind
          (Lands-chain (str_eq phase "configure") (str_eq phase "resize") (str_eq phase "start") _ h
            (Lands-set_operation _) (Lands-set_operation _)
            (Lands-bind (Lands-set_operation _) (λ _. Lands-save_vm _)))
          (λ _. Lands-set_operation _)

    store_task-Lands :
        (phase : String) (task : ProviderTask)
        → targets task place ≡ true
        → Lands {S = Session W} (store_create_task vm place phase (some task))
    unfolding store_create_task
    store_task-Lands phase task h =
        Lands-bind (Lands-raise_if _ _ (ap not h)) (λ _. Lands-set_operation _)

    store-Lands :
        (phase : String) (o : Option ProviderTask)
        → one_of phase ("configure" ∷ "resize" ∷ "start" ∷ []) ≡ true
        → Aimed place o
        → Lands {S = Session W} (store_create_task vm place phase o)
    unfolding store_create_task
    store-Lands phase none h a = complete-Lands phase h
    store-Lands phase (some task) h a = store_task-Lands phase task a

    clone-Lands :
        (phase : String) (c : ProviderCloneResult)
        → Submission place c.state c.task
        → Lands {S = Session W} (finish_clone vm place phase c)
    unfolding finish_clone
    clone-Lands phase c h = by_state c.state c.task h
      where
        by_state :
            (state : SubmitState) (task : Option ProviderTask)
            → Submission place state task
            → Lands {S = Session W}
                (finish_clone vm place phase (record { state = state; task = task }))
        by_state submitted none h = absurd h
        by_state submitted (some task) h =
            Lands-need-some task _ _
              (Lands-bind (Lands-save_vm _) (λ _. store_task-Lands phase task h))
        by_state in_progress task h =
            rw h (search (session_lands, Lands-raise_if _ _ refl) depth 10)
        by_state succeeded task h = rw h (search (session_lands, Lands-raise_if _ _ refl) depth 10)

module _ {W : Type 0} (place : ProviderPlacement) (phase : String) where
  -- The operation still carries the marker of the command, and its machine the placement.
  abbrev pub Marked : Session W → Type 0
  Marked s =
      (is_type s.operation.operation_type vm_create ≡ true)
      × (is_status s.operation.status OperationStatus.processing ≡ true)
      × (is_text s.operation.phase ("dispatch_create_" <> phase) ≡ true)
      × (is_some s.operation.provider_task_id ≡ false)
      × (vm : VirtualMachine) × (row (λ v. v.id) s.operation.virtual_machine_id s.virtual_machines
          ≡ some vm)
      × (vm.provider_node ≡ some place.node)
      × (vm.provider_vmid ≡ some place.vmid)

  found_vm :
      (message : String) (s : Session W) (vm : VirtualMachine)
      → row (λ v. v.id) s.operation.virtual_machine_id s.virtual_machines ≡ some vm
      → get_vm message s ≡ (ok vm, s)
  unfolding get_vm need ◌>>=◌
  found_vm message s vm found =
      subst
        (λ o.
          ◌≡◌ {A = Result VirtualMachine × Session W} (need o (runtime_error message) s) (ok vm, s))
        (sym found) refl

  placed_vm :
      (s : Session W) (vm : VirtualMachine)
      → row (λ v. v.id) s.operation.virtual_machine_id s.virtual_machines ≡ some vm
      → vm.provider_node ≡ some place.node
      → vm.provider_vmid ≡ some place.vmid
      → get_lifecycle_vm s ≡ (ok (vm, place), s)
  unfolding get_lifecycle_vm placed pure
  placed_vm s vm found node vmid =
      let P : Result (VirtualMachine × ProviderPlacement) × Session W → Type 0 =
        λ q. q ≡ (ok (vm, place), s) in
      after_ok P _ _ (found_vm _ s vm found) (after_some P _ _ node (after_some P _ _ vmid refl))

  -- The whole of the second transaction's body.
  stored :
      (result : CreateResult) (s : Session W)
      → ((vm : VirtualMachine) → Lands {S = Session W} (finish_create_result vm place phase result))
      → Marked s
      → IsOk (finish_create_vm_dispatch phase result s).0
  unfolding finish_create_vm_dispatch the_operation
  stored result s lands (created, busy, marker, no_task, vm, found, node, vmid) =
      let P : Result Done × Session W → Type 0 = λ q. IsOk q.0 in
      after_ok P _ _ refl (
        after_test P _ _ _ (λ h. absurd (ground (arith)))
          (λ _.
            after_test P _ _ _ (λ h. absurd (ground (arith)))
              (λ _. after_ok P _ _ (placed_vm s vm found node vmid) ((lands vm).at s))))

-- A reply to a command of vm.create whose storing returns, from every session in which the
-- operation still carries the command's marker and its machine the placement that the command was
-- sent to.
abbrev pub Storable : Type 0 → ProviderPlacement → String → Reply → Type 0
Storable W place phase reply =
    (result : CreateResult) × (reply ≡ create_reply result)
    × ((s : Session W) → Marked place phase s → IsOk (finish_create_vm_dispatch phase result s).0)

module _ {W : Type 0} (adapter : ProxmoxAdapter W) (kept : Submits adapter) (vm_id : ℕ)
    (place : ProviderPlacement) (phase : String) where
  clone-Storable :
      (c : ProviderCloneResult)
      → str_eq phase "clone" ≡ true
      → Submission place c.state c.task
      → Storable W place phase (create_reply (clone_result c))
  unfolding finish_create_result
  clone-Storable c e h = (
    clone_result c,
    refl,
    λ s. stored place phase (clone_result c) s (λ vm. rw e (clone-Lands vm place phase c h)),
  )

  task-Storable :
      (o : Option ProviderTask)
      → str_eq phase "clone" ≡ false
      → one_of phase ("configure" ∷ "resize" ∷ "start" ∷ []) ≡ true
      → Aimed place o
      → Storable W place phase (create_reply (task_result o))
  unfolding finish_create_result
  task-Storable o e h a = (
    task_result o,
    refl,
    λ s. stored place phase (task_result o) s (λ vm. rw e (store-Lands vm place phase o h a)),
  )

  -- A call whose answer is storable as a result.
  reply-Storable :
      {A : Type 0} {R : A → Type 0} (m : Exec W A) (g : A → CreateResult)
      → Answers R m
      → ((a : A) → R a → Storable W place phase (create_reply (g a)))
      → Answers
          (Storable W place phase)
          (m >>= (λ a. pure (g a)) >>= (λ result. pure (create_reply result)))
  reply-Storable m g answers storable =
      Answers-then {R = λ x. Storable W place phase (create_reply x)} _
        (Answers-then m answers (λ a h. Answers-pure (g a) (storable a h)))
        (λ result h. Answers-pure _ h)

  rest_known :
      (a b c d : Bool)
      → (a || (b || (c || (d || false)))) ≡ true
      → a ≡ false
      → (b || (c || (d || false))) ≡ true
  rest_known true b c d h e = cc
  rest_known false b c d h e = h

  -- A vm.create command with its request, sent through an adapter whose commands keep their
  -- promise, raises or is answered with a result that the second transaction's body stores without
  -- an exception, from every session in which the operation still has the marker that was written
  -- before the call, and its machine the placement that the command was sent to.
  pub send_create-Storable :
      (r : CreateVmRequest)
      → one_of phase ("clone" ∷ "configure" ∷ "resize" ∷ "start" ∷ []) ≡ true
      → Answers (Storable W place phase) (send_create adapter vm_id phase (some r) place)
  unfolding send_create
  send_create-Storable r known = elim (Bool-cases (str_eq phase "clone")) [
    | inl c ↦ rw c (
        Answers-bind _
          (λ x. reply-Storable _ clone_result (kept.clone x place) (λ a h. clone-Storable a c h)))
    | inr c ↦
        let task : (o : Option ProviderTask)
            → Aimed place o
            → Storable W place phase (create_reply (task_result o)) =
          λ o h.
            task-Storable o c
              (rest_known (str_eq phase "clone") (str_eq phase "configure") (str_eq phase "resize")
                (str_eq phase "start") known c)
              h in
        rw c (
          Answers-if (str_eq phase "configure")
            (Answers-bind _ (λ x. reply-Storable _ task_result (kept.configure x place) task))
            (Answers-if (str_eq phase "resize")
              (Answers-bind _ (λ x. reply-Storable _ task_result (kept.resize x place) task))
              (Answers-if (str_eq phase "start")
                (Answers-then _ (kept.start vm_id place) (λ o h. Answers-pure _ (task o h)))
                (Answers-raise _))))
  ]
