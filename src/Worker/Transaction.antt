-- ===== src/Worker/Transaction.antt =====
-- A transaction of the worker, `async with SessionLocal() as db, db.begin()`: as SQLAlchemy has it,
-- the session is written to the tables when the body ends, and dropped when it raises or when the
-- commit is refused. What the provider did meanwhile stays.
use server_npd.Prelude.{
  option_case, ℕ, String, Bool, true, false, Option, none, some, List, [], ◌∷◌, ◌==◌, ◌||◌, ◌&&◌,
  not, if◌then◌else◌, str_eq,
}
use server_npd.Prelude.Rows.{row, put_row}
use server_npd.Outcome.{runtime_error, integrity_error, Result, ok, err, Exec}
use server_npd.Models.{Db, Operation, is_status, VirtualMachine}
use server_npd.Operations.Session.{Session}

-- The database and the provider.
pub record Server (W : Type 0) : Type 0 where
  pub db : Db
  pub world : W

abbrev pub same_text : Option String → Option String → Bool
same_text none none = true
same_text none (some t) = false
same_text (some s) none = false
same_text (some s) (some t) = str_eq s t

-- The columns that the services assign, `updated_at` left out.
unfoldable pub same_columns : Operation → Operation → Bool
same_columns a b =
    is_status a.status b.status
    && same_text a.phase b.phase
    && a.attempts == b.attempts
    && same_text a.last_error_code b.last_error_code
    && same_text a.provider_task_id b.provider_task_id

-- `onupdate=func.now()`: an UPDATE that does not assign `updated_at` sets it to the time.
unfoldable pub stamp : ℕ → Operation → Operation → Operation
stamp now before after =
    if same_columns before after
    then after
    else if after.updated_at == before.updated_at
    then record after { updated_at = now }
    else after

-- The constraint `vm_provider_vmid_unique`; NULL is equal to nothing.
abbrev pub uses_vmid : ℕ → VirtualMachine → Bool
uses_vmid i vm = option_case vm.provider_vmid (false) (λ j. i == j)

unfoldable pub vmid_is_used : ℕ → List VirtualMachine → Bool
vmid_is_used i [] = false
vmid_is_used i (vm ∷ vms) = uses_vmid i vm || vmid_is_used i vms

abbrev pub is_repeated : Option ℕ → List VirtualMachine → Bool
is_repeated none vms = false
is_repeated (some i) vms = vmid_is_used i vms

unfoldable pub vmids_are_unique : List VirtualMachine → Bool
vmids_are_unique [] = true
vmids_are_unique (vm ∷ vms) = not (is_repeated vm.provider_vmid vms) && vmids_are_unique vms

module _ {W : Type 0} where
  abbrev pub open_session : Server W → Operation → ℕ → Session W
  open_session s o now = record {
    operation = o;
    virtual_machines = s.db.virtual_machines;
    ssh_keys = s.db.ssh_keys;
    now = now;
    world = s.world;
  }

  -- The tables with what the session changed in them.
  unfoldable pub written : Db → Operation → Session W → Db
  written db before t = record db {
    operations = put_row (λ o. o.id) (stamp t.now before t.operation) db.operations;
    virtual_machines = t.virtual_machines;
  }

  unfoldable pub close_transaction :
      {A : Type 0} → Server W → Operation → Result A × Session W → Result A × Server W
  close_transaction s before (err e, t) = (err e, record s { world = t.world })
  close_transaction s before (ok a, t) =
      if vmids_are_unique t.virtual_machines
      then (ok a, record { db = written s.db before t; world = t.world })
      else (err integrity_error, record s { world = t.world })

  -- A transaction over the row that `db.get(Operation, …, with_for_update=True)` returns.
  unfoldable pub with_operation :
      {A : Type 0} → ℕ → ℕ → String → Exec (Session W) A → Exec (Server W) A
  with_operation id now message body s =
      option_case (row (λ o. o.id) id s.db.operations) ((err (runtime_error message), s))
        (λ o. close_transaction s o (body (open_session s o now)))
