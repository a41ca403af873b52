-- ===== src/VirtualMachines/Creation/Replay.antt =====
-- A key that an operation has answers again what it answered first.
use server_npd.Prelude.{
  ℕ, String, ◌≡◌, ◌⊎◌, inl, inr, arith, refl, sym, ◌∙◌, ap, subst, true, false, Option, none, some,
  ◌==◌, ◌&&◌, str_eq_refl, option_case,
}
use server_npd.Prelude.Rows.{row, first}
use server_npd.Outcome.{Error, Result, ok, err, integrity_error, need, pure, ◌>>=◌}
use server_npd.Outcome.Guards.{
  after_raise_if, after_need, after_ok, after_err, after_some, after_gets,
}
use server_npd.Models.{
  Db, Operation, is_type, vm_create, VirtualMachine, UserQuota, ComputePlan, SshPublicKey,
}
use server_npd.Compute.{Usage, get_user_compute_usage}
use server_npd.Outcome.Integrity.{is_integrity_error}
use server_npd.VirtualMachines.Creation.{
  VirtualMachineCreate, Environment, new_operation, by_key, request_matches, check_existing,
  get_existing_vm_for_create_request, add_vm, create_or_replay, replay_after_conflict, create_vm,
}
use server_npd.Outcome.Integrity.{Caught, after_except}
use server_npd.VirtualMachines.Creation.Quota.{
  IsWithin, plus_request, usage-new_vm, Added, with_new_vm, add_vm-Added,
}

-- An earlier request with this key was for this machine, by this user, with the same sizes, image
-- and SSH key.
pub record IsReplay (user_id : ℕ) (r : VirtualMachineCreate) (key : String) (db : Db)
    (vm : VirtualMachine) : Type 0 where
  pub operation : Operation
  pub keyed : by_key key db ≡ some operation
  pub creates : is_type operation.operation_type vm_create ≡ true
  pub found :
      row (λ (v : VirtualMachine). v.id) operation.virtual_machine_id db.virtual_machines ≡ some vm
  pub owned : vm.owner_user_id == user_id ≡ true
  pub matches : request_matches vm r ≡ true

module _ (user_id : ℕ) (r : VirtualMachineCreate) (key : String) (db : Db) where
  -- How the look-up ends: it changes nothing, and finds no key, a replay, or a request to refuse.
  abbrev pub Looked : Result (Option VirtualMachine) × Db → Type 0
  Looked (ok none, db') = (db' ≡ db) × (by_key key db ≡ none)
  Looked (ok (some vm), db') = (db' ≡ db) × IsReplay user_id r key db vm
  Looked (err e, db') = (db' ≡ db) × (is_integrity_error e ≡ false)

  looked :
      (o : Option Operation)
      → by_key key db ≡ o
      → Looked (option_case o (pure none) (check_existing user_id r) db)
  unfolding check_existing pure
  looked none e = (refl, e)
  looked (some o) e =
      after_raise_if Looked _ _ _ (refl, refl)
        (λ creates. after_gets Looked _ _ (
          after_need Looked _ _ _ (refl, refl)
            (λ vm found.
              after_raise_if Looked _ _ _ (refl, refl)
                (λ owned.
                  after_raise_if Looked _ _ _ (refl, refl)
                    (λ matches. (
                      refl,
                      record {
                        operation = o;
                        keyed = e;
                        creates = ground arith;
                        found = found;
                        owned = ground arith;
                        matches = ground arith;
                      },
                    ))))))

  get_existing-Looked : Looked (get_existing_vm_for_create_request key user_id r db)
  unfolding get_existing_vm_for_create_request
  get_existing-Looked = after_gets Looked _ _ (looked _ refl)

  IsReplay-get_existing :
      (vm : VirtualMachine)
      → IsReplay user_id r key db vm
      → get_existing_vm_for_create_request key user_id r db ≡ (ok (some vm), db)
  unfolding get_existing_vm_for_create_request check_existing ◌>>=◌
  IsReplay-get_existing vm h = rw (h.keyed, h.creates, h.found, h.owned, h.matches) refl

-- How a create request ends. With an exception, nothing of it is in the tables: they are as they
-- were, or hold what other transactions committed meanwhile. With a machine, that is the one of an
-- earlier request, or a new one with its operation, as `Added` says, for the user's own quota.
pub data Created (env : Environment) (user_id : ℕ) (r : VirtualMachineCreate) (key : String)
    (db : Db) : Result VirtualMachine × Db → Type 0 where
  refused :
      (e : Error) (db' : Db)
      → (db' ≡ db) ⊎ (db' ≡ env.others db)
      → Created env user_id r key db (err e, db')
  replayed :
      (vm : VirtualMachine) (db' : Db)
      → (db' ≡ db) ⊎ (db' ≡ env.others db)
      → IsReplay user_id r key db' vm
      → Created env user_id r key db (ok vm, db')
  added :
      (vm : VirtualMachine) (db' : Db) (quota : UserQuota)
      → first (λ (q : UserQuota). q.user_id == user_id) db.user_quotas ≡ some quota
      → by_key key db ≡ none
      → Added env user_id r key quota db (ok vm, db')
      → Created env user_id r key db (ok vm, db')

module _ (env : Environment) (user_id : ℕ) (r : VirtualMachineCreate) (key : String) (db : Db) where
  abbrev P : Result VirtualMachine × Db → Type 0
  P q = Created env user_id r key db q

  module _ (quota : UserQuota)
      (owned : first (λ (q : UserQuota). q.user_id == user_id) db.user_quotas ≡ some quota) where
    -- The request's transaction, in which an IntegrityError may still be on its way out.
    abbrev Tried : Result VirtualMachine × Db → Type 0
    Tried (ok vm, db') = P (ok vm, db')
    Tried (err e, db') =
        ((db' ≡ db) × (is_integrity_error e ≡ false))
        ⊎ ((db' ≡ env.others db) × (e ≡ integrity_error))

    Tried-Added :
        by_key key db ≡ none
        → (q : Result VirtualMachine × Db) → Added env user_id r key quota db q
        → Tried q
    Tried-Added free (ok vm, db') h = added vm db' quota owned free h
    Tried-Added free (err e, db') h = h

    Tried-case :
        (q : Result (Option VirtualMachine)) (db' : Db)
        → Looked user_id r key db (q, db')
        → get_existing_vm_for_create_request key user_id r db ≡ (q, db')
        → Tried (create_or_replay env user_id r key quota db)
    unfolding create_or_replay pure
    Tried-case (err e) db' h looked = after_err Tried _ _ looked (inl h)
    Tried-case (ok none) db' h looked = after_ok Tried _ _ looked (
        subst (λ d. Tried (add_vm env user_id r key quota d)) (sym h.0)
          (Tried-Added h.1 _ (add_vm-Added env user_id r key quota db)))
    Tried-case (ok (some vm)) db' h looked =
        after_ok Tried _ _ looked
          (subst (λ d. Tried (ok vm, d)) (sym h.0) (replayed vm db (inl refl) h.1))

    Tried-create_or_replay : Tried (create_or_replay env user_id r key quota db)
    Tried-create_or_replay = Tried-case _ _ (get_existing-Looked user_id r key db) refl

  Conflicted :
      (q : Result (Option VirtualMachine)) (db' : Db)
      → Looked user_id r key (env.others db) (q, db')
      → get_existing_vm_for_create_request key user_id r (env.others db) ≡ (q, db')
      → P (replay_after_conflict user_id r key (env.others db))
  unfolding replay_after_conflict need
  Conflicted (err e) db' h looked = after_err P _ _ looked (refused e _ (inr h.0))
  Conflicted (ok none) db' h looked = after_ok P _ _ looked (refused _ _ (inr h.0))
  Conflicted (ok (some vm)) db' h looked =
      after_ok P _ _ looked
        (replayed vm db' (inr h.0) (subst (λ d. IsReplay user_id r key d vm) (sym h.0) h.1))

  handled :
      (quota : UserQuota)
      (owned : first (λ (x : UserQuota). x.user_id == user_id) db.user_quotas ≡ some quota)
      → P (replay_after_conflict user_id r key (env.others db))
      → (q : Result VirtualMachine × Db) → Tried quota owned q
      → Caught P (replay_after_conflict user_id r key) q
  handled quota owned after (ok vm, db') h = h
  handled quota owned after (err x, db') (inl (same, other)) = inl (other, refused x db' (inl same))
  handled quota owned after (err x, db') (inr (same, clash)) =
      inr (clash, subst (λ d. P (replay_after_conflict user_id r key d)) (sym same) after)

  -- How `create_vm` ends, whatever the tables, the request, and the rows that other transactions
  -- commit meanwhile: nothing is added where it raises; otherwise the machine is that of an earlier
  -- equal request, or it is new, with one operation, for the user's active quota and within its
  -- plan.
  pub create_vm-Created : Created env user_id r key db (create_vm env user_id r key db)
  unfolding create_vm
  create_vm-Created = after_gets P _ _ (
      after_need P _ _ _ (refused _ _ (inl refl)) (λ ssh_key _. after_gets P _ _ (
        after_need P _ _ _ (refused _ _ (inl refl)) (λ quota owned. after_except P _ _ _ refl (
          handled quota owned
            (Conflicted _ _ (get_existing-Looked user_id r key (env.others db)) refl) _
            (Tried-create_or_replay quota owned))))))

  IsReplay-Added :
      (quota : UserQuota) (vm : VirtualMachine) (db' : Db)
      → Added env user_id r key quota db (ok vm, db')
      → IsReplay user_id r key db' vm
  unfolding row first request_matches
  IsReplay-Added quota vm db' (same_vm, same_db, _, _, _) =
      subst (λ d. IsReplay user_id r key d vm) (sym same_db)
        (subst (IsReplay user_id r key (with_new_vm env user_id r key (env.others db)))
          (sym same_vm)
          (record {
            operation = new_operation env env.new_vm_id vm_create (some "clone") key;
            keyed = rw (str_eq_refl key) refl;
            creates = refl;
            found = ground arith;
            owned = ground arith;
            matches = ground (arith, str_eq_refl r.image_id);
          }))

  IsReplay-Created :
      (vm : VirtualMachine) (db' : Db)
      → Created env user_id r key db (ok vm, db')
      → IsReplay user_id r key db' vm
  IsReplay-Created vm db' (replayed _ _ _ h) = h
  IsReplay-Created vm db' (added _ _ quota _ _ h) = IsReplay-Added quota vm db' h

module _ (user_id : ℕ) (r : VirtualMachineCreate) where
  -- What a request needs before it looks at its key: the SSH key is the user's, and the user has a
  -- quota.
  pub record IsEquipped (db : Db) : Type 0 where
    pub ssh_key : SshPublicKey
    pub has_key :
        first
          (λ (k : SshPublicKey). k.id == r.ssh_public_key_id && k.owner_user_id == user_id)
          db.ssh_keys
        ≡ some ssh_key
    pub quota : UserQuota
    pub has_quota : first (λ (q : UserQuota). q.user_id == user_id) db.user_quotas ≡ some quota

module _ (user_id : ℕ) (r : VirtualMachineCreate) (key : String) (db : Db)
    (vm : VirtualMachine) where
  create_vm-IsReplay :
      (env : Environment)
      → IsEquipped user_id r db
      → IsReplay user_id r key db vm
      → create_vm env user_id r key db ≡ (ok vm, db)
  unfolding create_vm create_or_replay pure
  create_vm-IsReplay env h replay = after_gets Same _ _ (
      after_some Same _ _ h.has_key (
        after_gets Same _ _ (
          after_some Same _ _ h.has_quota (
            after_except Same _ _ (ok vm, db)
              (after_ok Same _ _ (IsReplay-get_existing user_id r key db vm replay) refl) refl))))
    where
      Same : Result VirtualMachine × Db → Type 0
      Same q = q ≡ (ok vm, db)

-- A request that succeeded gives the same machine when it is sent again with its key, and changes
-- nothing the second time: at any later time and whatever others commit during the second call, as
-- long as the user still has the SSH key and a quota when it begins.
pub create_vm-again :
    (env env' : Environment) (user_id : ℕ) (r : VirtualMachineCreate) (key : String) (db db' : Db)
    (vm : VirtualMachine)
    → create_vm env user_id r key db ≡ (ok vm, db')
    → IsEquipped user_id r db'
    → create_vm env' user_id r key db' ≡ (ok vm, db')
create_vm-again env env' user_id r key db db' vm e h =
    create_vm-IsReplay user_id r key db' vm env' h (
      IsReplay-Created env user_id r key db vm db'
        (subst (Created env user_id r key db) e (create_vm-Created env user_id r key db)))

-- The plan that the user's quota names.
pub record IsOwnPlan (user_id : ℕ) (db : Db) (plan : ComputePlan) : Type 0 where
  pub quota : UserQuota
  pub has_quota : first (λ (q : UserQuota). q.user_id == user_id) db.user_quotas ≡ some quota
  pub has_plan : row (λ (p : ComputePlan). p.id) quota.compute_plan_id db.compute_plans ≡ some plan

-- If the rows that other transactions commit during the request leave the user's usage as it was,
-- then a request that returns a machine leaves the user's usage as it was, or within the plan
-- that the user's quota names.
pub create_vm-IsWithin :
    (env : Environment) (user_id : ℕ) (r : VirtualMachineCreate) (key : String) (db db' : Db)
    (vm : VirtualMachine)
    → get_user_compute_usage user_id (env.others db) ≡ get_user_compute_usage user_id db
    → create_vm env user_id r key db ≡ (ok vm, db')
    → (get_user_compute_usage user_id db' ≡ get_user_compute_usage user_id db)
      ⊎ ((plan : ComputePlan) × IsOwnPlan user_id db plan
          × IsWithin plan (get_user_compute_usage user_id db'))
unfolding get_user_compute_usage
create_vm-IsWithin env user_id r key db db' vm calm e =
    used (subst (Created env user_id r key db) e (create_vm-Created env user_id r key db))
  where
    usage : Db → Usage
    usage d = get_user_compute_usage user_id d

    used :
        Created env user_id r key db (ok vm, db')
        → (usage db' ≡ usage db)
          ⊎ ((plan : ComputePlan) × IsOwnPlan user_id db plan × IsWithin plan (usage db'))
    used (replayed _ _ (inl same) _) = inl (ap usage same)
    used (replayed _ _ (inr same) _) = inl (ap usage same ∙ calm)
    used (added _ _ quota owned _ (_, same, _, _, (plan, found, fits))) = inr (
      plan,
      record { quota = quota; has_quota = owned; has_plan = found },
      subst (IsWithin plan)
          (sym (
            ap usage same
            ∙ usage-new_vm env user_id r (env.others db)
            ∙ ap (λ u. plus_request u r) calm))
          fits,
    )
