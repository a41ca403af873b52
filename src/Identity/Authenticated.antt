-- ===== src/Identity/Authenticated.antt =====
-- Who a request is answered for.
use server_npd.Prelude.{
  ℕ, String, Bool, true, false, Option, none, some, ◌≡◌, refl, ◌⊎◌, inl, inr, ◌<◌, not, leb,
  not_some, arith, Option-cases, if◌then◌else◌,
}
use server_npd.Prelude.Rows.{first, row, put_row}
use server_npd.Outcome.{runtime_error, http_exception, Result, ok, err, pure, ◌>>=◌}
use server_npd.Outcome.Guards.{after_need, after_some, after_ok, after_err, after_raise_if}
use server_npd.Models.{User, ApplicationSession, Accounts}
use server_npd.Identity.Sessions.{
  has_hash, user_id_of, session_id_of, get_user_by_session_token, save_session,
}
use server_npd.Identity.Requests.{get_current_user}

module _ (sha256 : String → String) (accounts : Accounts) where
  -- The session that a token stands for, and its user.
  abbrev pub session_of : String → Option ApplicationSession
  session_of token = first (has_hash (sha256 token)) accounts.sessions

  module _ (token : String) where
    no_session :
        session_of token ≡ none
        → get_user_by_session_token sha256 token accounts ≡ (ok none, accounts)
    unfolding get_user_by_session_token ◌>>=◌
    no_session h = rw h

    no_user :
        (x : ApplicationSession)
        → session_of token ≡ some x
        → row user_id_of x.user_id accounts.users ≡ none
        → get_user_by_session_token sha256 token accounts
          ≡ (err (runtime_error "session references missing user"), accounts)
    unfolding get_user_by_session_token ◌>>=◌
    no_user x h k = rw h (rw k)

    pub session_user :
        (x : ApplicationSession) (u : User)
        → session_of token ≡ some x
        → row user_id_of x.user_id accounts.users ≡ some u
        → get_user_by_session_token sha256 token accounts ≡ (ok (some (u, x)), accounts)
    unfolding get_user_by_session_token ◌>>=◌
    session_user x u h k = rw h (rw k)

  -- The session is stamped with the time at most.
  abbrev pub Stamped : ℕ → ApplicationSession → Accounts → Type 0
  Stamped now x t =
      (t ≡ accounts)
      ⊎ (t ≡ record accounts {
        sessions = put_row session_id_of (record x { last_seen_at = now }) accounts.sessions;
      })

  abbrev pub Authenticated : ℕ → Option String → Result User × Accounts → Type 0
  Authenticated now cookie (ok u, t) =
      (token : String) × (cookie ≡ some token)
      × (x : ApplicationSession) × (session_of token ≡ some x)
      × (x.revoked_at ≡ none)
      × (now < x.expires_at)
      × (row user_id_of x.user_id accounts.users ≡ some u)
      × (u.is_active ≡ true)
      × Stamped now x t
  Authenticated now cookie (err e, t) =
      (t ≡ accounts)
      × (((message : String) × (e ≡ http_exception 401 message))
          ⊎ (e ≡ runtime_error "session references missing user"))

  module _ (now : ℕ) (token : String) where
    abbrev P : Result User × Accounts → Type 0
    P = Authenticated now (some token)

    refused : (message : String) → P (err (http_exception 401 message), accounts)
    refused message = (refl, inl (message, refl))

    stamped :
        (x : ApplicationSession) (u : User)
        → session_of token ≡ some x
        → row user_id_of x.user_id accounts.users ≡ some u
        → x.revoked_at ≡ none
        → leb x.expires_at now ≡ false
        → not u.is_active ≡ false
        → (b : Bool)
        → P (
            ((if b then save_session sha256 (record x { last_seen_at = now }) else pure tt) >>= λ _.
            pure u)
              accounts)
    unfolding save_session ◌>>=◌
    stamped x u seen owner fresh valid active true =
        (token, refl, x, seen, fresh, ground (arith), owner, ground (arith), inr refl)
    stamped x u seen owner fresh valid active false =
        (token, refl, x, seen, fresh, ground (arith), owner, ground (arith), inl refl)

    with_token : P (get_current_user sha256 now (some token) accounts)
    unfolding get_current_user
    with_token = after_some P _ _ refl (elim (Option-cases (session_of token)) [
      | inl missing ↦
          after_ok P _ _ (no_session token missing)
            (after_need P _ _ _ (refused _) (λ a h. absurd (ground (arith))))
      | inr (x, seen) ↦ elim (Option-cases (row user_id_of x.user_id accounts.users)) [
        | inl lost ↦ after_err P _ _ (no_user token x seen lost) (refl, inr refl)
        | inr (u, owner) ↦ after_ok P _ _ (session_user token x u seen owner) (
            after_some P _ _ refl (
              after_raise_if P _ _ _ (refused _) (λ fresh.
                after_raise_if P _ _ _ (refused _) (λ valid.
                  after_raise_if P _ _ _ (refused _) (λ active.
                    stamped x u seen owner (not_some x.revoked_at fresh) valid active _)))))
      ]
    ])

  -- A user is returned only for a token whose session is in the table, not revoked and not yet
  -- expired, and whose user is active, and then the session's time is stamped at most; otherwise
  -- the answer is 401, or the exception for a session without its user, and nothing is changed.
  pub get_current_user-Authenticated :
      (now : ℕ) (cookie : Option String)
      → Authenticated now cookie (get_current_user sha256 now cookie accounts)
  unfolding get_current_user
  get_current_user-Authenticated now none =
      after_need (Authenticated now none) none _ _ (refl, inl ("Authentication required", refl))
        (λ a h. absurd (ground (arith)))
  get_current_user-Authenticated now (some token) = with_token now token
