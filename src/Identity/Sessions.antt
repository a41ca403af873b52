-- ===== src/Identity/Sessions.antt =====
-- portal/app/identity/services.py and portal/app/identity/sessions.py: users, their identities and
-- their sessions. SHA-256 is a parameter: the hexadecimal digest of a text.
use server_npd.Prelude.{
  ℕ, String, Bool, true, Option, none, some, ◌∷◌, ◌&&◌, ◌+◌, not, is_some, str_eq, if◌then◌else◌,
  option_case,
}
use server_npd.Prelude.Rows.{first, row, put_row}
use server_npd.Outcome.{
  runtime_error, http_exception, integrity_error, ok, err, Done, Exec, pure, gets, need, raise_if,
  ◌>>=◌, ◌>>◌,
}
use server_npd.Models.{Db, User, ExternalIdentity, ApplicationSession, Accounts}
use server_npd.Compute.{assign_starter_quota}

-- What Python and the database supply to a login: new keys (`uuid4`), a token of `secrets`, the
-- time, the setting `session_max_age_seconds`, and what other transactions commit until the login
-- of a new identity flushes its rows, or until a login that raises ends. A login of a known
-- identity that succeeds stands alone: no other transaction commits between its queries and its
-- end.
pub record LoginEnvironment : Type 0 where
  pub new_user_id : ℕ
  pub new_identity_id : ℕ
  pub new_session_id : ℕ
  pub token : String
  pub now : ℕ
  pub session_max_age_seconds : ℕ
  pub others : Accounts → Accounts

abbrev pub is_identity : String → String → ExternalIdentity → Bool
is_identity issuer subject i = str_eq i.issuer issuer && str_eq i.subject subject

abbrev pub has_hash : String → ApplicationSession → Bool
has_hash token_hash s = str_eq s.token_hash token_hash

abbrev pub user_id_of : User → ℕ
user_id_of u = u.id

abbrev pub session_id_of : ApplicationSession → ℕ
session_id_of s = s.id

-- `User()`, with the columns' defaults.
abbrev pub new_user : LoginEnvironment → User
new_user env = record { id = env.new_user_id; is_active = true; created_at = env.now }

abbrev pub new_identity : LoginEnvironment → String → String → String → ExternalIdentity
new_identity env issuer subject email = record {
  id = env.new_identity_id;
  user_id = env.new_user_id;
  issuer = issuer;
  subject = subject;
  email = email;
  email_verified = true;
}

-- A call of a service that works on the other tables.
unfoldable pub on_db : {A : Type 0} → Exec Db A → Exec Accounts A
on_db m s = let (r, db) = m s.db in (r, record s { db = db })

-- The tables with the rows of a new user and its identity.
abbrev pub with_account : LoginEnvironment → String → String → String → Accounts → Accounts
with_account env issuer subject email seen = record seen {
  users = new_user env ∷ seen.users;
  identities = new_identity env issuer subject email ∷ seen.identities;
}

-- The flush of the two new rows, by then among those of the other transactions, under the
-- constraint `uq_external_identities_issuer_subject`.
unfoldable pub flush_account : LoginEnvironment → String → String → String → Exec Accounts Done
flush_account env issuer subject email s =
    let seen = env.others s in
    if is_some (first (is_identity issuer subject) seen.identities)
    then (err integrity_error, seen)
    else (ok tt, with_account env issuer subject email seen)

unfoldable pub save_identity : ExternalIdentity → Exec Accounts Done
save_identity i s = (ok tt, record s { identities = put_row (λ x. x.id) i s.identities })

-- The branch for an identity that is known.
unfoldable pub known_user : ExternalIdentity → String → Exec Accounts User
known_user identity email = do
  save_identity (record identity { email = email; email_verified = true })
  found ← gets (λ s. row user_id_of identity.user_id s.users)
  need found (runtime_error "identity references missing user")

module _ (env : LoginEnvironment) where
  unfoldable pub create_user : String → String → String → Exec Accounts User
  create_user issuer subject email = do
    flush_account env issuer subject email
    on_db (assign_starter_quota env.new_user_id)
    pure (new_user env)

  unfoldable pub get_or_create_user : String → String → String → Exec Accounts User
  get_or_create_user issuer subject email = do
    identity ← gets (λ s. first (is_identity issuer subject) s.identities)
    option_case identity (create_user issuer subject email) (λ i. known_user i email)

  module _ (sha256 : String → String) where
    abbrev pub new_session : ℕ → ApplicationSession
    new_session user_id = record {
      id = env.new_session_id;
      user_id = user_id;
      token_hash = sha256 env.token;
      created_at = env.now;
      expires_at = env.now + env.session_max_age_seconds;
      last_seen_at = env.now;
      revoked_at = none;
    }

    -- The row is flushed when the transaction ends; `token_hash` is unique.
    unfoldable pub create_application_session : ℕ → Exec Accounts String
    create_application_session user_id s =
        if is_some (first (has_hash (sha256 env.token)) s.sessions)
        then (err integrity_error, s)
        else (ok env.token, record s { sessions = new_session user_id ∷ s.sessions })

    -- `async with db.begin()`: an exception drops what the body has written, and leaves what the
    -- other transactions have committed meanwhile.
    unfoldable pub in_transaction : {A : Type 0} → Exec Accounts A → Exec Accounts A
    in_transaction m s =
        let (r, t) = m s in elim r [ ok a ↦ (ok a, t) | err e ↦ (err e, env.others s) ]

    unfoldable pub login_and_create_session : String → String → String → Exec Accounts String
    login_and_create_session issuer subject email = in_transaction (do
      user ← get_or_create_user issuer subject email
      raise_if (not user.is_active) (http_exception 403 "User is inactive")
      create_application_session user.id)

module _ (sha256 : String → String) where
  unfoldable pub get_user_by_session_token :
      String → Exec Accounts (Option (User × ApplicationSession))
  get_user_by_session_token session_token = do
    session ← gets (λ s. first (has_hash (sha256 session_token)) s.sessions)
    option_case session (pure none) (λ x. do
      found ← gets (λ s. row user_id_of x.user_id s.users)
      user ← need found (runtime_error "session references missing user")
      pure (some (user, x)))

  -- Writes a session over its row.
  unfoldable pub save_session : ApplicationSession → Exec Accounts Done
  save_session x s = (ok tt, record s { sessions = put_row session_id_of x s.sessions })

  -- The part of `revoke_user_session` for a token that is there.
  unfoldable pub revoke_token : ℕ → String → Exec Accounts Done
  revoke_token now session_token = do
    session ← gets (λ s. first (has_hash (sha256 session_token)) s.sessions)
    option_case session (pure tt) (λ x.
        if is_some x.revoked_at then pure tt else save_session (record x { revoked_at = some now }))

  unfoldable pub revoke_user_session : ℕ → Option String → Exec Accounts Done
  revoke_user_session now session_token = option_case session_token (pure tt) (revoke_token now)
