-- ===== src/Identity/Callback.antt =====
-- Two logins that race for a new identity.
use server_npd.Prelude.{
  String, true, false, none, some, ◌≡◌, refl, sym, subst, ap, ◌∙◌, not, ◌||◌, arith, str_eq,
  str_eq_refl, ◌∷◌, inr, option_case,
}
use server_npd.Prelude.Rows.{first, row, put_row, HasKey}
use server_npd.Outcome.{integrity_error, Result, ok, err, Exec, ◌>>=◌}
use server_npd.Outcome.Integrity.{after_except}
use server_npd.Outcome.Guards.{after_some, after_ok, after_err, after_test, after_gets}
use server_npd.Models.{User, ExternalIdentity, Accounts}
use server_npd.Identity.Sessions.{
  LoginEnvironment, is_identity, has_hash, user_id_of, known_user, save_identity, flush_account,
  create_user, get_or_create_user, create_application_session, new_session, in_transaction,
  login_and_create_session,
}
use server_npd.Identity.Entered.{identity_id_of, Linked, LoggedIn}
use server_npd.Identity.Login.{login_and_create_session-LoggedIn}
use server_npd.Identity.Requests.{UserInfo, auth_callback}

module _ (env : LoginEnvironment) (sha256 : String → String) (issuer subject email : String)
    (t : Accounts) where
  -- The token of this attempt is returned, for a session of the user.
  abbrev pub Issued : User → Result String × Accounts → Type 0
  Issued u q =
      (v : Accounts) × (q ≡ (ok env.token, v))
      × (first (has_hash (sha256 env.token)) v.sessions ≡ some (new_session env sha256 u.id))

  greeted :
      (i : ExternalIdentity) (u : User)
      → first (is_identity issuer subject) t.identities ≡ some i
      → row user_id_of i.user_id t.users ≡ some u
      → get_or_create_user env issuer subject email t ≡ (
        ok u,
        record t {
          identities =
              put_row (λ x. x.id) (record i { email = email; email_verified = true }) t.identities;
        },
      )
  unfolding get_or_create_user known_user save_identity ◌>>=◌
  greeted i u known owner = rw known (rw owner)

  kept :
      (u : User) (m : Exec Accounts String)
      → Issued u (m t)
      → Issued u (in_transaction env sha256 m t)
  unfolding in_transaction
  kept u m (v, e, newest) = (
    v,
    subst
        (λ q.
          ◌≡◌ {A = Result String × Accounts}
            (elim q.0 [ ok a ↦ (ok a, q.1) | err x ↦ (err x, env.others t) ]) (ok env.token, v))
        (sym e) refl,
    newest,
  )

  started :
      (u : User) (v : Accounts)
      → first (has_hash (sha256 env.token)) v.sessions ≡ none
      → Issued u (create_application_session env sha256 u.id v)
  unfolding create_application_session first
  started u v fresh = (
    record v { sessions = new_session env sha256 u.id ∷ v.sessions },
    rw fresh,
    rw (str_eq_refl (sha256 env.token)) refl,
  )

  -- A known identity with an active user is let in, if the new token's hash is not taken.
  login-Issued :
      (i : ExternalIdentity) (u : User)
      → first (is_identity issuer subject) t.identities ≡ some i
      → row user_id_of i.user_id t.users ≡ some u
      → u.is_active ≡ true
      → first (has_hash (sha256 env.token)) t.sessions ≡ none
      → Issued u (login_and_create_session env sha256 issuer subject email t)
  unfolding login_and_create_session
  login-Issued i u known owner active fresh = kept u _ (
      after_ok (Issued u) _ _ (greeted i u known owner)
        (after_test (Issued u) _ _ _ (λ h. absurd (ground (arith))) (λ _. started u _ fresh)))

module _ (env : LoginEnvironment) (sha256 : String → String) (issuer subject email : String)
    (accounts : Accounts) where
  refused :
      (i : ExternalIdentity)
      → first (is_identity issuer subject) (env.others accounts).identities ≡ some i
      → flush_account env issuer subject email accounts ≡ (err integrity_error, env.others accounts)
  unfolding flush_account
  refused i known = rw known refl

  turned_away :
      (i : ExternalIdentity)
      → first (is_identity issuer subject) accounts.identities ≡ none
      → first (is_identity issuer subject) (env.others accounts).identities ≡ some i
      → get_or_create_user env issuer subject email accounts
        ≡ (err integrity_error, env.others accounts)
  unfolding get_or_create_user create_user
  turned_away i unknown known =
      let P : Result User × Accounts → Type 0 =
        λ q. q ≡ (err integrity_error, env.others accounts) in
      after_gets P _ _ (
        subst
          (λ o. P (
            option_case o (create_user env issuer subject email) (λ x. known_user x email)
              accounts))
          (sym unknown) (after_err P _ _ (refused i known) refl))

  dropped :
      (m : Exec Accounts String)
      → m accounts ≡ (err integrity_error, env.others accounts)
      → in_transaction env sha256 m accounts ≡ (err integrity_error, env.others accounts)
  unfolding in_transaction
  dropped m e =
      subst
        (λ q.
          ◌≡◌ {A = Result String × Accounts}
            (elim q.0 [ ok a ↦ (ok a, q.1) | err x ↦ (err x, env.others accounts) ])
            (err integrity_error, env.others accounts))
        (sym e) refl

  -- The first login of an identity that another transaction adds meanwhile.
  lost :
      (i : ExternalIdentity)
      → first (is_identity issuer subject) accounts.identities ≡ none
      → first (is_identity issuer subject) (env.others accounts).identities ≡ some i
      → login_and_create_session env sha256 issuer subject email accounts
        ≡ (err integrity_error, env.others accounts)
  unfolding login_and_create_session
  lost i unknown known = dropped _ (
      after_err (λ q. q ≡ (err integrity_error, env.others accounts)) _ _
        (turned_away i unknown known) refl)

module _ (sha256 : String → String) (env again rival : LoginEnvironment) (userinfo : UserInfo)
    (email rival_email rival_token : String) (accounts t : Accounts) where
  -- Two first logins of one identity race, and the other one commits while this one is under way:
  -- where neither the identity was known nor the hash of the second attempt's token is taken, this
  -- callback returns the token of its second attempt, and its session belongs to the very user that
  -- the other login has created and linked.
  pub auth_callback-Raced :
      userinfo.email ≡ some email
      → (str_eq email "" || not userinfo.email_verified) ≡ false
      → HasKey identity_id_of accounts.identities
      → first (is_identity userinfo.iss userinfo.sub) accounts.identities ≡ none
      → login_and_create_session rival sha256 userinfo.iss userinfo.sub rival_email accounts
        ≡ (ok rival_token, t)
      → env.others accounts ≡ t
      → first (has_hash (sha256 again.token)) t.sessions ≡ none
      → (u : User) × Linked rival userinfo.iss userinfo.sub rival_email u t
        × (first (has_hash (sha256 rival_token)) t.sessions ≡ some (new_session rival sha256 u.id))
        × Issued again sha256 userinfo.iss userinfo.sub email t u
            (auth_callback sha256 env again userinfo accounts)
  unfolding auth_callback
  auth_callback-Raced given verified keyed unknown won meanwhile fresh =
      let (e, u, active, linked, newest) =
        subst (LoggedIn rival userinfo.iss userinfo.sub rival_email sha256 accounts) won (
          login_and_create_session-LoggedIn rival sha256 userinfo.iss userinfo.sub rival_email
            accounts keyed) in
      let (i, known, of_user, _, owner) = linked in
      let P : Result String × Accounts → Type 0 =
        Issued again sha256 userinfo.iss userinfo.sub email t u in
      let found : row user_id_of i.user_id t.users ≡ some u =
        subst (λ k. row user_id_of k t.users ≡ some u) (sym of_user) owner in
      let refused : login_and_create_session env sha256 userinfo.iss userinfo.sub email accounts
          ≡ (err integrity_error, t) =
        lost env sha256 userinfo.iss userinfo.sub email accounts i unknown (
          subst (λ s. first (is_identity userinfo.iss userinfo.sub) s.identities ≡ some i)
            (sym meanwhile) known)
        ∙ ap (λ s. (err integrity_error, s)) meanwhile in
      (
        u,
        linked,
        subst (λ k. first (has_hash (sha256 k)) t.sessions ≡ some (new_session rival sha256 u.id))
            (sym e) newest,
        after_some P _ _ given (
            after_test P _ _ _ (λ h. absurd (ground (arith)))
              (λ _.
                after_except P _ _ _ refused
                  (inr (refl, login-Issued again sha256 _ _ _ t i u known found active fresh)))),
      )
