-- ===== src/Worker/Frame/Silent.antt =====
-- Steps that end without a command for the provider.
use server_npd.Outcome.{Result, ok, err, Exec, pure, ◌>>=◌}
use server_npd.Worker.Step.{
  Dispatch, no_dispatch, create_dispatch, start_dispatch, lifecycle_dispatch, poll_create,
  settle_create, poll_start, settle_start, poll_lifecycle, settle_lifecycle,
}
use server_npd.Proxmox.{ProxmoxAdapter}

abbrev pub NoDispatch : Result Dispatch → Type 0
NoDispatch (ok no_dispatch) = Unit
NoDispatch (ok (create_dispatch _ _ _ _ _)) = ⊥
NoDispatch (ok (start_dispatch _ _ _)) = ⊥
NoDispatch (ok (lifecycle_dispatch _ _ _ _)) = ⊥
NoDispatch (err e) = Unit

pub record Silent {S : Type 0} (m : Exec S Dispatch) : Type 0 where
  pub at : (s : S) → NoDispatch (m s).0

module _ {S : Type 0} where
  Silent-pure : Silent {S = S} (pure no_dispatch)
  unfolding pure
  Silent-pure = record { at = λ s. tt }

  Silent-bind :
      {A : Type 0} (m : Exec S A) (f : A → Exec S Dispatch)
      → ((a : A) → Silent (f a))
      → Silent (m >>= f)
  unfolding ◌>>=◌
  Silent-bind {A} m f sf = record { at = λ s. next (m s).0 (m s).1 }
    where
      next : (r : Result A) (t : S) → NoDispatch (((λ _. (r, t)) >>= f) t).0
      next (ok a) t = (sf a).at t
      next (err e) t = tt

module _ {W : Type 0} (adapter : ProxmoxAdapter W) where
  pub Silent-poll_create : Silent (poll_create adapter)
  unfolding poll_create
  Silent-poll_create = search (Silent-pure, Silent-bind)

  pub Silent-settle_create : Silent (settle_create adapter)
  unfolding settle_create
  Silent-settle_create = search (Silent-pure, Silent-bind)

  pub Silent-poll_lifecycle : Silent (poll_lifecycle adapter)
  unfolding poll_lifecycle
  Silent-poll_lifecycle = search (Silent-pure, Silent-bind)

  pub Silent-settle_lifecycle : Silent (settle_lifecycle adapter)
  unfolding settle_lifecycle
  Silent-settle_lifecycle = search (Silent-pure, Silent-bind)

  pub Silent-poll_start : Silent (poll_start adapter)
  unfolding poll_start
  Silent-poll_start = search (Silent-pure, Silent-bind)

  pub Silent-settle_start : Silent (settle_start adapter)
  unfolding settle_start
  Silent-settle_start = search (Silent-pure, Silent-bind)
