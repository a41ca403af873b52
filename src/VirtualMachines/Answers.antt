-- ===== src/VirtualMachines/Answers.antt =====
-- Which answers the requests about machines get.
use server_npd.Prelude.{
  ℕ, String, Bool, true, false, Option, ◌≡◌, refl, ◌⊎◌, inl, inr, if◌then◌else◌,
}
use server_npd.Outcome.{
  Error, runtime_error, value_error, permission_error, lookup_error, conflict_error,
  invalid_ssh_public_key_error, ssh_public_key_conflict_error, type_error, transport_error,
  key_error, integrity_error, http_exception, Done, Result, ok, err,
}
use server_npd.Outcome.Raises.{Raises, Fails, OrIntegrity, Raises-answer, raises_rules}
use server_npd.Models.{Db, Operation, OperationType, VirtualMachine}
use server_npd.VirtualMachines.Creation.{
  VirtualMachineCreate, Environment, create_vm, create_or_replay, add_vm, replay_after_conflict,
  get_existing_vm_for_create_request, check_existing, validate_vm_quota, flush_rows,
}
use server_npd.VirtualMachines.Enqueue.{
  enqueue_vm_operation, add_or_replay, add_operation, requeue_after_conflict,
}
use server_npd.VirtualMachines.Router.{
  lifecycle_answer, enqueue_lifecycle_operation, create_answer, create_my_vm,
}

-- The exceptions that the two services raise.
abbrev pub IsLifecycleRefusal : Error → Type 0
IsLifecycleRefusal (lookup_error m) = Unit
IsLifecycleRefusal (value_error m) = Unit
IsLifecycleRefusal (runtime_error m) = ⊥
IsLifecycleRefusal (permission_error m) = ⊥
IsLifecycleRefusal (conflict_error m) = ⊥
IsLifecycleRefusal (invalid_ssh_public_key_error m) = ⊥
IsLifecycleRefusal (ssh_public_key_conflict_error m) = ⊥
IsLifecycleRefusal (type_error m) = ⊥
IsLifecycleRefusal (transport_error m) = ⊥
IsLifecycleRefusal (key_error m) = ⊥
IsLifecycleRefusal (http_exception c m) = ⊥
IsLifecycleRefusal integrity_error = ⊥

clashes :
    (R : Error → Type 0) (b : Bool) (s t : Db)
    → let q : Result Done × Db = if b then (err integrity_error, s) else (ok tt, t) in
      Fails (OrIntegrity R) q.0
clashes R true s t = inr refl
clashes R false s t = tt

flush_rows-Raises :
    {R : Error → Type 0} (env : Environment) (vm : Option VirtualMachine) (o : Operation)
    → Raises (OrIntegrity R) (flush_rows env vm o)
unfolding flush_rows
flush_rows-Raises {R} env vm o = record { at = λ s. clashes R _ (env.others s) _ }

refuses : (m : String) → OrIntegrity IsLifecycleRefusal (value_error m)
refuses m = inl tt

enqueue-Raises :
    (env : Environment) (user_id vm_id : ℕ) (t : OperationType) (key : String)
    → Raises IsLifecycleRefusal (enqueue_vm_operation env user_id vm_id t key)
unfolding enqueue_vm_operation add_or_replay add_operation requeue_after_conflict
enqueue-Raises env user_id vm_id t key = search (raises_rules, flush_rows-Raises, refuses) depth 30

abbrev pub IsLifecycleAnswer : Error → Type 0
IsLifecycleAnswer e =
    (message : String) × ((e ≡ http_exception 404 message) ⊎ (e ≡ http_exception 409 message))

turned : (e : Error) → IsLifecycleRefusal e → IsLifecycleAnswer (lifecycle_answer e)
unfolding lifecycle_answer
turned (lookup_error m) h = (m, inl refl)
turned (value_error m) h = (m, inr refl)
turned (runtime_error m) h = absurd h
turned (permission_error m) h = absurd h
turned (conflict_error m) h = absurd h
turned (invalid_ssh_public_key_error m) h = absurd h
turned (ssh_public_key_conflict_error m) h = absurd h
turned (type_error m) h = absurd h
turned (transport_error m) h = absurd h
turned (key_error m) h = absurd h
turned (http_exception c m) h = absurd h
turned integrity_error h = absurd h

-- A lifecycle request, whatever the tables, its key and what other transactions commit meanwhile,
-- is answered with an operation, with 404 or with 409: no other exception comes out of it.
pub enqueue_lifecycle_operation-IsLifecycleAnswer :
    (env : Environment) (user_id vm_id : ℕ) (t : OperationType) (key : String)
    → Raises IsLifecycleAnswer (enqueue_lifecycle_operation env user_id vm_id t key)
unfolding enqueue_lifecycle_operation
enqueue_lifecycle_operation-IsLifecycleAnswer env user_id vm_id t key =
    Raises-answer lifecycle_answer (enqueue-Raises env user_id vm_id t key) turned

abbrev pub IsCreateRefusal : Error → Type 0
IsCreateRefusal (permission_error m) = Unit
IsCreateRefusal (value_error m) = Unit
IsCreateRefusal (runtime_error m) = Unit
IsCreateRefusal (lookup_error m) = ⊥
IsCreateRefusal (conflict_error m) = ⊥
IsCreateRefusal (invalid_ssh_public_key_error m) = ⊥
IsCreateRefusal (ssh_public_key_conflict_error m) = ⊥
IsCreateRefusal (type_error m) = ⊥
IsCreateRefusal (transport_error m) = ⊥
IsCreateRefusal (key_error m) = ⊥
IsCreateRefusal (http_exception c m) = ⊥
IsCreateRefusal integrity_error = ⊥

bad_value : (m : String) → OrIntegrity IsCreateRefusal (value_error m)
bad_value m = inl tt

broken : (m : String) → OrIntegrity IsCreateRefusal (runtime_error m)
broken m = inl tt

forbidden : (m : String) → OrIntegrity IsCreateRefusal (permission_error m)
forbidden m = inl tt

create-Raises :
    (env : Environment) (user_id : ℕ) (r : VirtualMachineCreate) (key : String)
    → Raises IsCreateRefusal (create_vm env user_id r key)
unfolding create_vm create_or_replay add_vm replay_after_conflict get_existing_vm_for_create_request
    check_existing validate_vm_quota
create-Raises env user_id r key =
    search (raises_rules, flush_rows-Raises, bad_value, broken, forbidden) depth 40

abbrev pub IsCreateAnswer : Error → Type 0
IsCreateAnswer e =
    (message : String) × ((e ≡ http_exception 403 message)
      ⊎ (e ≡ http_exception 409 message)
      ⊎ (e ≡ runtime_error message))

create_turned : (e : Error) → IsCreateRefusal e → IsCreateAnswer (create_answer e)
unfolding create_answer
create_turned (permission_error m) h = (m, inl refl)
create_turned (value_error m) h = (m, inr (inl refl))
create_turned (runtime_error m) h = (m, inr (inr refl))
create_turned (lookup_error m) h = absurd h
create_turned (conflict_error m) h = absurd h
create_turned (invalid_ssh_public_key_error m) h = absurd h
create_turned (ssh_public_key_conflict_error m) h = absurd h
create_turned (type_error m) h = absurd h
create_turned (transport_error m) h = absurd h
create_turned (key_error m) h = absurd h
create_turned (http_exception c m) h = absurd h
create_turned integrity_error h = absurd h

-- A create request, whatever the tables, its key and what other transactions commit meanwhile, is
-- answered with a machine, with 403, with 409, or raises RuntimeError (for a missing row of the
-- program's own making); a violated constraint never comes out of it.
pub create_my_vm-IsCreateAnswer :
    (env : Environment) (user_id : ℕ) (r : VirtualMachineCreate) (key : String)
    → Raises IsCreateAnswer (create_my_vm env user_id r key)
unfolding create_my_vm
create_my_vm-IsCreateAnswer env user_id r key =
    Raises-answer create_answer (create-Raises env user_id r key) create_turned
