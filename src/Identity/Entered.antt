-- ===== src/Identity/Entered.antt =====
-- What a login leaves behind, and that its token lets the user in.
use server_npd.Prelude.{
  ℕ, String, Bool, true, false, Option, none, some, ◌≡◌, refl, sym, subst, is_some, arith,
  Option-cases, Bool-cases, option_case, str_eq_refl, inl, inr,
}
use server_npd.Prelude.Rows.{first, row, HasKey, key-row, first-put_row, first-IsIn}
use server_npd.Outcome.{integrity_error, Result, ok, err, pure, ◌>>=◌}
use server_npd.Outcome.Guards.{after_gets, after_ok, after_err}
use server_npd.Models.{Db, User, ExternalIdentity, Accounts, UserQuota}
use server_npd.Compute.{assign_starter_quota}
use server_npd.Identity.Sessions.{
  LoginEnvironment, is_identity, has_hash, user_id_of, new_user, new_identity, with_account, on_db,
  flush_account, save_identity, known_user, create_user, get_or_create_user, new_session,
  create_application_session,
}

abbrev pub identity_id_of : ExternalIdentity → ℕ
identity_id_of i = i.id

module _ (env : LoginEnvironment) (issuer subject email : String) where
  -- The identity is in the tables with the address of this login, and belongs to the user, who is
  -- too.
  abbrev pub Linked : User → Accounts → Type 0
  Linked u t =
      (i : ExternalIdentity) × (first (is_identity issuer subject) t.identities ≡ some i)
      × (i.user_id ≡ u.id)
      × (i.email ≡ email)
      × (row user_id_of u.id t.users ≡ some u)

  abbrev pub Got : Result User × Accounts → Type 0
  Got (ok u, t) = Linked u t
  Got (err e, t) = Unit

  module _ (accounts : Accounts) where
    created :
        (q : Result UserQuota × Db) (s : Accounts)
        → assign_starter_quota env.new_user_id s.db ≡ q
        → Linked (new_user env) s
        → Got ((on_db (assign_starter_quota env.new_user_id) >>= λ _. pure (new_user env)) s)
    unfolding on_db pure
    created (ok quota, db) s e linked =
        after_ok Got _ _ {s' = record s { db = db }} (λ i. ((e i).0, record s { db = (e i).1 }))
          linked
    created (err x, db) s e linked =
        after_err Got _ _ {s' = record s { db = db }} (λ i. ((e i).0, record s { db = (e i).1 })) tt

    abbrev seen : Accounts
    seen = env.others accounts

    abbrev taken : Bool
    taken = is_some (first (is_identity issuer subject) seen.identities)

    fresh_account : Linked (new_user env) (with_account env issuer subject email seen)
    unfolding first row
    fresh_account = (
      new_identity env issuer subject email,
      rw (str_eq_refl issuer) (rw (str_eq_refl subject) refl),
      refl,
      refl,
      ground (arith),
    )

    flush-taken :
        taken ≡ true → flush_account env issuer subject email accounts ≡ (err integrity_error, seen)
    unfolding flush_account
    flush-taken h = rw h

    flush-free :
        taken ≡ false
        → flush_account env issuer subject email accounts
          ≡ (ok tt, with_account env issuer subject email seen)
    unfolding flush_account
    flush-free h = rw h

    create_user-Got : Got (create_user env issuer subject email accounts)
    unfolding create_user
    create_user-Got = elim (Bool-cases taken) [
      | inl h ↦ after_err Got _ _ (flush-taken h) tt
      | inr h ↦ after_ok Got _ _ (flush-free h) (created _ _ refl fresh_account)
    ]

    -- A known identity takes the address of this login.
    known_user-Got :
        (i : ExternalIdentity)
        → HasKey identity_id_of accounts.identities
        → first (is_identity issuer subject) accounts.identities ≡ some i
        → Got (known_user i email accounts)
    unfolding known_user save_identity ◌>>=◌
    known_user-Got i keyed found = elim (Option-cases (row user_id_of i.user_id accounts.users)) [
      | inl lost ↦ rw lost tt
      | inr (u, owner) ↦ rw owner (
        record i { email = email; email_verified = true },
        first-put_row identity_id_of (is_identity issuer subject) _ accounts.identities keyed found
            (first-IsIn (is_identity issuer subject) accounts.identities found).1 refl,
        sym (key-row user_id_of i.user_id accounts.users owner),
        refl,
        subst (λ k. row user_id_of k accounts.users ≡ some u)
            (sym (key-row user_id_of i.user_id accounts.users owner)) owner,
      )
    ]

    pub get_or_create_user-Got :
        HasKey identity_id_of accounts.identities
        → Got (get_or_create_user env issuer subject email accounts)
    unfolding get_or_create_user
    get_or_create_user-Got keyed = after_gets Got _ _ (by_identity _ refl)
      where
        by_identity :
            (o : Option ExternalIdentity)
            → first (is_identity issuer subject) accounts.identities ≡ o
            → Got (
                option_case o
                  (create_user env issuer subject email)
                  (λ i. known_user i email)
                  accounts)
        by_identity none h = create_user-Got
        by_identity (some i) h = known_user-Got i keyed h

  module _ (sha256 : String → String) (accounts : Accounts) where
    -- A login that returns gives its token, whose session is the newest row and has a user who is
    -- active and linked; a login that raises leaves what the other transactions have committed.
    abbrev pub LoggedIn : Result String × Accounts → Type 0
    LoggedIn (ok token, t) =
        (token ≡ env.token)
        × (u : User) × (u.is_active ≡ true)
        × Linked u t
        × (first (has_hash (sha256 env.token)) t.sessions ≡ some (new_session env sha256 u.id))
    LoggedIn (err e, t) = t ≡ env.others accounts

    -- The same of the transaction's body, before an exception drops what it wrote.
    abbrev pub Body : Result String × Accounts → Type 0
    Body (ok token, t) = LoggedIn (ok token, t)
    Body (err e, t) = Unit

    pub session_added :
        (u : User) (s : Accounts)
        → u.is_active ≡ true
        → Linked u s
        → Body (create_application_session env sha256 u.id s)
    unfolding create_application_session first
    session_added u s active linked =
        elim (Bool-cases (is_some (first (has_hash (sha256 env.token)) s.sessions))) [
          | inl h ↦ rw h tt
          | inr h ↦ rw h (refl, u, active, linked, rw (str_eq_refl (sha256 env.token)) refl)
        ]
