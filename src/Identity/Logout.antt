-- ===== src/Identity/Logout.antt =====
-- The end of a session.
use server_npd.Prelude.{
  ℕ, String, true, Option, none, some, ◌≡◌, ◌∙◌, refl, sym, ap, subst, is_some, arith, List,
  Bool-cases, option_case, inl, inr, ◌⊎◌, ◌<>◌, if◌then◌else◌,
}
use server_npd.Prelude.Rows.{first, HasKey, first-put_row, first-IsIn}
use server_npd.Outcome.{Error, key_error, Result, ok, err, Exec, Done, pure, lift, need, ◌>>=◌}
use server_npd.Outcome.Keeps.{Keeps, keeps_rules}
use server_npd.Outcome.Guards.{after_ok, after_err, after_gets}
use server_npd.Models.{User, ApplicationSession, Accounts}
use server_npd.Identity.Csrf.{Hmac, CsrfRequest, verify_csrf}
use server_npd.Identity.Sessions.{
  has_hash, session_id_of, save_session, revoke_token, revoke_user_session,
}
use server_npd.Identity.Requests.{get_current_user, logout}
use server_npd.Identity.Authenticated.{Authenticated, get_current_user-Authenticated}

module _ (sha256 : String → String) (token : String) (now : ℕ) (accounts : Accounts) where
  -- No session under the token's hash is left open.
  abbrev Closed : Result Done × Accounts → Type 0
  Closed (ok done, t) =
      (x : ApplicationSession)
      → first (has_hash (sha256 token)) t.sessions ≡ some x
      → is_some x.revoked_at ≡ true
  Closed (err e, t) = ⊥

  same :
      (xs : List ApplicationSession) (y x : ApplicationSession)
      → first (has_hash (sha256 token)) xs ≡ some y
      → first (has_hash (sha256 token)) xs ≡ some x
      → is_some y.revoked_at ≡ true
      → is_some x.revoked_at ≡ true
  same xs y x h k closed =
      let e : y ≡ x = ground (arith) in subst (λ z. is_some z.revoked_at ≡ true) e closed

  revoked :
      HasKey session_id_of accounts.sessions
      → (o : Option ApplicationSession) → first (has_hash (sha256 token)) accounts.sessions ≡ o
      → Closed (
          option_case o
            (pure tt)
            (λ x.
              if is_some x.revoked_at
              then pure tt
              else save_session sha256 (record x { revoked_at = some now }))
            accounts)
  unfolding pure save_session
  revoked keyed none h = λ x seen. absurd (ground (arith))
  revoked keyed (some y) h = elim (Bool-cases (is_some y.revoked_at)) [
    | inl closed ↦ rw closed (λ x seen. same accounts.sessions y x h seen closed)
    | inr open_yet ↦ rw open_yet (λ x seen.
        same _ (record y { revoked_at = some now }) x
          (first-put_row session_id_of (has_hash (sha256 token)) _ accounts.sessions keyed h
            (first-IsIn (has_hash (sha256 token)) accounts.sessions h).1 refl)
          seen refl)
  ]

  revoke_token-Closed :
      HasKey session_id_of accounts.sessions → Closed (revoke_token sha256 now token accounts)
  unfolding revoke_token
  revoke_token-Closed keyed = after_gets Closed _ _ (revoked keyed _ refl)

-- No user is answered for the cookie, at any time.
abbrev pub Ended : (String → String) → Option String → Accounts → Type 0
Ended sha256 cookie t =
    (now : ℕ) → (e : Error) × (get_current_user sha256 now cookie t ≡ (err e, t))

module _ (sha256 : String → String) (t : Accounts) where
  refused :
      (cookie : Option String) (now : ℕ) (q : Result User × Accounts)
      → get_current_user sha256 now cookie t ≡ q
      → Authenticated sha256 t now cookie q
      → ((u : User) (v : Accounts) → Authenticated sha256 t now cookie (ok u, v) → ⊥)
      → (e : Error) × (get_current_user sha256 now cookie t ≡ (err e, t))
  refused cookie now (ok u, v) h a never = absurd (never u v a)
  refused cookie now (err e, v) h a never = (e, h ∙ ap (λ x. (err e, x)) a.0)

  Ended-Closed :
      (token : String)
      → ((x : ApplicationSession)
          → first (has_hash (sha256 token)) t.sessions ≡ some x
          → is_some x.revoked_at ≡ true)
      → Ended sha256 (some token) t
  Ended-Closed token closed now =
      refused (some token) now _ refl (get_current_user-Authenticated sha256 t now (some token))
        (λ u v a.
          let (other, e, x, seen, fresh, _, _, _, _) = a in
          let shut : is_some x.revoked_at ≡ true =
            closed x
              (subst (λ k. first (has_hash (sha256 k)) t.sessions ≡ some x) (same_token e) seen) in
          absurd (ground (arith)))
    where
      same_token : {a b : String} → ◌≡◌ {A = Option String} (some a) (some b) → b ≡ a
      same_token e = cc

  -- No cookie, no user.
  Ended-none : Ended sha256 none t
  Ended-none now =
      refused none now _ refl (get_current_user-Authenticated sha256 t now none)
        (λ u v a. let (other, e, _, _, _, _, _, _, _) = a in cc)

module _ (sha256 : String → String) (hmac : Hmac) (csrf_secret : String) (now : ℕ)
    (metadata : Result (Option String)) (query : String) (request : CsrfRequest)
    (accounts : Accounts) (keyed : HasKey session_id_of accounts.sessions) where
  -- What a logout leaves. Only the check against forgery stops it before the session is revoked.
  abbrev pub LoggedOut : Result String × Accounts → Type 0
  LoggedOut (ok address, t) = Ended sha256 request.session_token t
  LoggedOut (err e, t) =
      ((t ≡ accounts) × (verify_csrf hmac csrf_secret request accounts ≡ (err e, accounts)))
      ⊎ Ended sha256 request.session_token t

  abbrev Revoked : Result Done × Accounts → Type 0
  Revoked (ok done, t) = Ended sha256 request.session_token t
  Revoked (err e, t) = ⊥

  ended_token :
      (token : String) (q : Result Done × Accounts)
      → request.session_token ≡ some token
      → Closed sha256 token now accounts q
      → Revoked q
  ended_token token (ok done, t) e h =
      subst (λ c. Ended sha256 c t) (sym e) (Ended-Closed sha256 t token h)
  ended_token token (err x, t) e h = absurd h

  by_cookie :
      (cookie : Option String)
      → request.session_token ≡ cookie
      → Revoked (revoke_user_session sha256 now cookie accounts)
  unfolding revoke_user_session pure
  by_cookie none e = subst (λ c. Ended sha256 c accounts) (sym e) (Ended-none sha256 accounts)
  by_cookie (some token) e =
      ended_token token _ e (revoke_token-Closed sha256 token now accounts keyed)

  still : Keeps (λ v. v ≡ accounts) (verify_csrf hmac csrf_secret request)
  unfolding verify_csrf
  still = search keeps_rules depth 20

  -- What follows the commit.
  abbrev redirect : Exec Accounts String
  redirect = lift metadata >>= λ end_session_endpoint.
      need end_session_endpoint (key_error "end_session_endpoint") >>= λ endpoint.
      pure (endpoint <> ("?" <> query))

  unchanged : (t : Accounts) → Keeps (λ v. v ≡ t) redirect
  unchanged t = search keeps_rules depth 20

  gone :
      (q : Result String × Accounts) (t : Accounts)
      → q.1 ≡ t
      → Ended sha256 request.session_token t
      → LoggedOut q
  gone (ok address, v) t same ended = subst (Ended sha256 request.session_token) (sym same) ended
  gone (err e, v) t same ended = inr (subst (Ended sha256 request.session_token) (sym same) ended)

  redirected :
      (q : Result Done × Accounts)
      → revoke_user_session sha256 now request.session_token accounts ≡ q
      → Revoked q
      → LoggedOut
          ((revoke_user_session sha256 now request.session_token >>= λ _. redirect) accounts)
  redirected (ok done, t) e ended =
      after_ok LoggedOut _ _ e (gone _ t ((unchanged t).at t refl) ended)
  redirected (err x, t) e h = absurd h

  checked :
      (q : Result Done × Accounts)
      → verify_csrf hmac csrf_secret request accounts ≡ q
      → q.1 ≡ accounts
      → LoggedOut (
          (verify_csrf hmac csrf_secret request >>= λ _.
          (revoke_user_session sha256 now request.session_token >>= λ _. redirect))
            accounts)
  checked (ok done, v) e same =
      after_ok LoggedOut _ _ (e ∙ ap (λ x. (ok done, x)) same)
        (redirected _ refl (by_cookie _ refl))
  checked (err x, v) e same =
      after_err LoggedOut _ _ e (inl (same, e ∙ ap (λ x'. (err x, x')) same))

  -- Over sessions with distinct keys: after a logout, whether it returns an address or raises, no
  -- request with its cookie is answered for a user, at any time, unless it was the check against
  -- forgery that raised, and then nothing is changed. In particular a failure to load the
  -- provider's metadata leaves the session revoked.
  pub logout-LoggedOut :
      LoggedOut (logout sha256 hmac csrf_secret now metadata query request accounts)
  unfolding logout
  logout-LoggedOut = checked _ refl (still.at accounts refl)
