-- ===== src/Worker/Round.antt =====
-- A round of the worker and its endless loop.
use server_npd.Prelude.{option_case, ℕ, Bool, true, false, Option, none, some, List, [], ◌∷◌}
use server_npd.Outcome.{Result, ok, err, Done, Exec, pure, catch, ◌>>=◌, ◌>>◌}
use server_npd.Proxmox.{ProxmoxAdapter}
use server_npd.Worker.Claim.{next_operation}
use server_npd.Worker.Step.{Dispatch, step}
use server_npd.Worker.Transaction.{Server, open_session, close_transaction}
use server_npd.Worker.Submit.{send, Reply, store_reply, store_unknown}

module _ {W : Type 0} where
  -- `except Exception` round a transaction: the failure is logged and nothing else.
  abbrev pub logged : Exec (Server W) Done → Exec (Server W) Done
  logged m = catch m (λ e. pure tt)

  -- What follows the provider's call: a result is stored, or that the outcome is not known.
  unfoldable pub store_outcome : ℕ → Dispatch → Result Reply → Exec (Server W) Done
  store_outcome now d (ok reply) = logged (store_reply now d reply)
  store_outcome now d (err e) = logged (store_unknown now d)

module _ {W : Type 0} (adapter : ProxmoxAdapter W) where
  -- The first transaction: none when there is nothing to do.
  unfoldable pub claim_and_step : (ℕ → Bool) → ℕ → Exec (Server W) (Option Dispatch)
  claim_and_step locked now s =
      option_case (next_operation locked now s.db) ((ok none, s))
        (λ o. close_transaction s o ((do d ← step adapter; pure (some d)) (open_session s o now)))

  -- The call, and the second transaction at a later time.
  unfoldable pub submit : ℕ → Dispatch → Exec (Server W) Done
  submit later d s =
      let (r, w) = send adapter d s.world in store_outcome later d r (record s { world = w })

  unfoldable pub run_once : (ℕ → Bool) → ℕ → ℕ → Exec (Server W) Bool
  run_once locked now later = do
    found ← claim_and_step locked now
    option_case found (pure false) (λ d. submit later d >> pure true)

  -- The rounds of `run_worker`, at the times of the list. A round that raises is logged, and the
  -- next one begins in the state that it left.
  unfoldable pub run_worker : List (ℕ × ℕ) → Server W → Server W
  run_worker [] s = s
  run_worker ((now, later) ∷ times) s = run_worker times (run_once (λ _. false) now later s).1
