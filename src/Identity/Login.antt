-- ===== src/Identity/Login.antt =====
-- The end of a login, what its token is good for.
use server_npd.Prelude.{
  ℕ, String, Bool, true, false, none, some, ◌≡◌, refl, sym, subst, ◌+◌, ◌<◌, not, not_inv, arith,
  if◌then◌else◌,
}
use server_npd.Prelude.Rows.{first, row, HasKey}
use server_npd.Outcome.{http_exception, Result, ok, err, Exec, pure, raise_if, ◌>>=◌}
use server_npd.Outcome.Guards.{after_some, after_ok, after_err, after_raise_if, after_test}
use server_npd.Models.{User, ApplicationSession, Accounts}
use server_npd.Identity.Sessions.{
  LoginEnvironment, has_hash, user_id_of, get_or_create_user, new_session,
  create_application_session, in_transaction, login_and_create_session, save_session,
}
use server_npd.Identity.Requests.{get_current_user}
use server_npd.Identity.Authenticated.{session_user}
use server_npd.Identity.Entered.{
  identity_id_of, Linked, Got, LoggedIn, Body, session_added, get_or_create_user-Got,
}

module _ (env : LoginEnvironment) (sha256 : String → String) (issuer subject email : String)
    (accounts : Accounts) (keyed : HasKey identity_id_of accounts.identities) where
  abbrev P : Result String × Accounts → Type 0
  P = LoggedIn env issuer subject email sha256 accounts

  abbrev B : Result String × Accounts → Type 0
  B = Body env issuer subject email sha256 accounts

  committed :
      (q : Result String × Accounts) (m : Exec Accounts String)
      → m accounts ≡ q
      → B q
      → P (in_transaction env sha256 m accounts)
  unfolding in_transaction
  committed (ok token, t) m e h =
      subst (λ q. P (elim q.0 [ ok a ↦ (ok a, q.1) | err x ↦ (err x, env.others accounts) ]))
        (sym e) h
  committed (err x, t) m e h =
      subst (λ q. P (elim q.0 [ ok a ↦ (ok a, q.1) | err x ↦ (err x, env.others accounts) ]))
        (sym e) refl

  entered :
      (q : Result User × Accounts)
      → get_or_create_user env issuer subject email accounts ≡ q
      → Got env issuer subject email q
      → B (
          (get_or_create_user env issuer subject email >>= λ u.
          raise_if (not u.is_active) (http_exception 403 "User is inactive") >>= λ _.
          create_application_session env sha256 u.id)
            accounts)
  entered (ok u, t) e linked = after_ok B _ _ e (
      after_raise_if B _ _ _ tt (λ active.
        session_added env issuer subject email sha256 accounts u t (not_inv u.is_active active)
          linked))
  entered (err x, t) e h = after_err B _ _ e tt

  -- Over identities with distinct keys: a login that returns gives the token of this login, whose
  -- session is the first under its hash and belongs to an active user, to whom the identity is
  -- linked with the address of this login; a login that raises leaves what the other transactions
  -- committed.
  pub login_and_create_session-LoggedIn :
      P (login_and_create_session env sha256 issuer subject email accounts)
  unfolding login_and_create_session
  login_and_create_session-LoggedIn =
      committed _ _ refl
        (entered _ refl (get_or_create_user-Got env issuer subject email accounts keyed))

module _ (sha256 : String → String) (now : ℕ) (token : String) (t : Accounts)
    (x : ApplicationSession) (u : User) where
  -- The user is answered, whatever is stamped.
  abbrev Answered : Result User × Accounts → Type 0
  Answered q = (t' : Accounts) × (q ≡ (ok u, t'))

  stamped :
      (b : Bool)
      → Answered (
          ((if b then save_session sha256 (record x { last_seen_at = now }) else pure tt) >>= λ _.
          pure u)
            t)
  unfolding save_session ◌>>=◌
  stamped true = (_, refl)
  stamped false = (_, refl)

  -- A session that is neither revoked nor expired lets its active user in.
  let_in :
      first (has_hash (sha256 token)) t.sessions ≡ some x
      → row user_id_of x.user_id t.users ≡ some u
      → x.revoked_at ≡ none
      → now < x.expires_at
      → u.is_active ≡ true
      → Answered (get_current_user sha256 now (some token) t)
  unfolding get_current_user
  let_in seen owner fresh soon active = after_some Answered _ _ refl (
      after_ok Answered _ _ (session_user sha256 t token x u seen owner) (
        after_some Answered _ _ refl (
          after_test Answered _ _ _ (λ h. absurd (ground (arith)))
            (λ _.
              after_test Answered _ _ _ (λ h. absurd (ground (arith)))
                (λ _. after_test Answered _ _ _ (λ h. absurd (ground (arith))) (λ _. stamped _))))))

-- The token of a login lets its user in until it expires: the query after a login that returned, at
-- a time before the end of the session, answers the active user to whom the identity is linked.
pub get_current_user-login :
    (env : LoginEnvironment) (sha256 : String → String) (issuer subject email : String)
    (accounts t : Accounts) (token : String) (now : ℕ)
    → HasKey identity_id_of accounts.identities
    → login_and_create_session env sha256 issuer subject email accounts ≡ (ok token, t)
    → now < env.now + env.session_max_age_seconds
    → (u : User) × Linked env issuer subject email u t
      × (u.is_active ≡ true)
      × (t' : Accounts) × (get_current_user sha256 now (some token) t ≡ (ok u, t'))
get_current_user-login env sha256 issuer subject email accounts t token now keyed logged soon =
    let (e, u, active, linked, newest) =
      subst (LoggedIn env issuer subject email sha256 accounts) logged
        (login_and_create_session-LoggedIn env sha256 issuer subject email accounts keyed) in
    let (i, _, _, _, owner) = linked in
    let (t', answer) =
      let_in sha256 now token t (new_session env sha256 u.id) u
        (subst (λ k. first (has_hash (sha256 k)) t.sessions ≡ some (new_session env sha256 u.id))
          (sym e) newest)
        owner refl soon active in
    (u, linked, active, t', answer)
