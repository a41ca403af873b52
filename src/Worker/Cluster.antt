-- ===== src/Worker/Cluster.antt =====
-- Any number of workers over one database. A worker that has committed a dispatch holds it until it
-- calls the provider, and then holds the answer until it stores it; it may die at any point, and
-- what it held is lost. Users add operations at any time. The transactions run one after another.
pub mod Attempts
use server_npd.Prelude.{
  ℕ, ◌≡◌, Bool, true, false, Option, none, some, List, [], ◌∷◌, ◌++◌, ◌==◌, ◌+◌, if◌then◌else◌,
}
use server_npd.Prelude.Rows.{row}
use server_npd.Outcome.{Result, ok, err}
use server_npd.Models.{Db, Operation}
use server_npd.Proxmox.{ProxmoxAdapter}
use server_npd.Worker.Step.{
  Dispatch, no_dispatch, create_dispatch, start_dispatch, lifecycle_dispatch,
}
use server_npd.Worker.Transaction.{Server}
use server_npd.Worker.Submit.{Reply, send}
use server_npd.Worker.Round.{claim_and_step, store_outcome}
use server_npd.Worker.Ledger.{operation_id}

pub record Answer : Type 0 where
  pub dispatch : Dispatch
  pub outcome : Result Reply

pub record Cluster (W : Type 0) : Type 0 where
  pub server : Server W
  pub in_flight : List Dispatch
  pub answered : List Answer
  pub sent : List Dispatch

-- The worker's local variables after the first transaction.
abbrev pub launched : Result (Option Dispatch) → List Dispatch → List Dispatch
launched (ok none) ds = ds
launched (ok (some d)) ds = d ∷ ds
launched (err e) ds = ds

module _ {W : Type 0} where
  abbrev pub after_claim : ProxmoxAdapter W → (ℕ → Bool) → ℕ → Cluster W → Cluster W
  after_claim adapter locked now c =
      let (r, s) = claim_and_step adapter locked now c.server in
      record c { server = s; in_flight = launched r c.in_flight }

  abbrev pub after_call : ProxmoxAdapter W → Dispatch → List Dispatch → Cluster W → Cluster W
  after_call adapter d rest c =
      let (r, w) = send adapter d c.server.world in
      record c {
        server = record c.server { world = w };
        in_flight = rest;
        answered = record { dispatch = d; outcome = r } ∷ c.answered;
        sent = d ∷ c.sent;
      }

  abbrev pub after_store : ℕ → Answer → List Answer → Cluster W → Cluster W
  after_store now a rest c = record c {
    server = (store_outcome now a.dispatch a.outcome c.server).1;
    answered = rest;
  }

  abbrev pub after_request : Operation → Cluster W → Cluster W
  after_request o c = record c {
    server = record c.server {
      db = record c.server.db { operations = o ∷ c.server.db.operations };
    };
  }

  pub data Move (adapter : ProxmoxAdapter W) : Cluster W → Cluster W → Type 0 where
    claim :
        (c : Cluster W) (locked : ℕ → Bool) (now : ℕ)
        → Move adapter c (after_claim adapter locked now c)
    call :
        (c : Cluster W) (before after : List Dispatch) (d : Dispatch)
        → c.in_flight ≡ before ++ d ∷ after
        → Move adapter c (after_call adapter d (before ++ after) c)
    store :
        (c : Cluster W) (before after : List Answer) (a : Answer) (now : ℕ)
        → c.answered ≡ before ++ a ∷ after
        → Move adapter c (after_store now a (before ++ after) c)
    crash :
        (c : Cluster W) (before after : List Dispatch) (d : Dispatch)
        → c.in_flight ≡ before ++ d ∷ after
        → Move adapter c (record c { in_flight = before ++ after })
    crash_after_call :
        (c : Cluster W) (before after : List Answer) (a : Answer)
        → c.answered ≡ before ++ a ∷ after
        → Move adapter c (record c { answered = before ++ after })
    request :
        (c : Cluster W) (o : Operation)
        → row operation_id o.id c.server.db.operations ≡ none
        → Move adapter c (after_request o c)

  pub data Run (adapter : ProxmoxAdapter W) (c : Cluster W) : Cluster W → Type 0 where
    here : Run adapter c c
    next : {d e : Cluster W} → Run adapter c d → Move adapter d e → Run adapter c e

-- Whether a dispatch is a command for a given operation.
abbrev pub is_for : ℕ → Dispatch → Bool
is_for i no_dispatch = false
is_for i (create_dispatch id _ _ _ _) = id == i
is_for i (start_dispatch id _ _) = id == i
is_for i (lifecycle_dispatch id _ _ _) = id == i

-- How many of the dispatches are commands for the operation.
pub commands_for : ℕ → List Dispatch → ℕ
commands_for i [] = 0
commands_for i (d ∷ ds) = (if is_for i d then 1 else 0) + commands_for i ds
