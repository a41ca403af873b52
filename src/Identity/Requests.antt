-- ===== src/Identity/Requests.antt =====
-- portal/app/identity/dependencies.py and portal/app/identity/router.py: who a request is from, the
-- end of a login, and the logout. The OIDC package is a parameter: what it has verified of a user
-- stands in `UserInfo`, and the provider's metadata is an argument of the logout. A redirection is
-- its address, and the cookie that goes with it is left out.
use server_npd.Prelude.{
  ℕ, String, Bool, Option, ◌-◌, ◌||◌, ◌<>◌, not, leb, is_some, str_eq, if◌then◌else◌,
}
use server_npd.Outcome.{
  http_exception, key_error, Result, Exec, pure, need, lift, raise_if, ◌>>=◌, ◌>>◌,
}
use server_npd.Outcome.Integrity.{except_integrity}
use server_npd.Models.{User, Accounts}
use server_npd.Identity.Csrf.{Hmac, CsrfRequest, verify_csrf, make_csrf_token}
use server_npd.Identity.Sessions.{
  LoginEnvironment, login_and_create_session, get_user_by_session_token, save_session,
  revoke_user_session,
}

-- `LAST_SEEN_UPDATE_INTERVAL`, in seconds.
abbrev pub last_seen_update_interval : ℕ
last_seen_update_interval = 300

-- The claims of the identity token: `email` where it is a text, and whether `email_verified` is
-- True.
pub record UserInfo : Type 0 where
  pub iss : String
  pub sub : String
  pub email : Option String
  pub email_verified : Bool

module _ (sha256 : String → String) where
  unfoldable pub get_current_user : ℕ → Option String → Exec Accounts User
  get_current_user now cookie = do
    session_token ← need cookie (http_exception 401 "Authentication required")
    result ← get_user_by_session_token sha256 session_token
    (user, application_session) ← need result (http_exception 401 "Invalid session")
    raise_if (is_some application_session.revoked_at) (http_exception 401 "Invalid session")
    raise_if (leb application_session.expires_at now) (http_exception 401 "Invalid session")
    raise_if (not user.is_active) (http_exception 401 "Invalid session")
    (if leb last_seen_update_interval (now - application_session.last_seen_at)
        then save_session sha256 (record application_session { last_seen_at = now })
        else pure tt)
    pure user

  -- The two attempts have each its own keys, token and time.
  unfoldable pub auth_callback :
      LoginEnvironment → LoginEnvironment → UserInfo → Exec Accounts String
  auth_callback env again userinfo = do
    email ← need userinfo.email (http_exception 403 "Email not verified")
    raise_if (str_eq email "" || not userinfo.email_verified)
        (http_exception 403 "Email not verified")
    except_integrity (login_and_create_session env sha256 userinfo.iss userinfo.sub email)
        (login_and_create_session again sha256 userinfo.iss userinfo.sub email)

  -- `metadata` is what the loading of the provider's metadata ends with: an exception, or the text
  -- under "end_session_endpoint", where there is one. `query` is the encoded query of the address.
  -- The session is committed as revoked by then.
  unfoldable pub logout :
      Hmac → String → ℕ → Result (Option String) → String → CsrfRequest → Exec Accounts String
  logout hmac csrf_secret now metadata query request = do
    verify_csrf hmac csrf_secret request
    revoke_user_session sha256 now request.session_token
    end_session_endpoint ← lift metadata
    endpoint ← need end_session_endpoint (key_error "end_session_endpoint")
    pure (endpoint <> ("?" <> query))

  unfoldable pub get_csrf_token : Hmac → String → ℕ → Option String → Exec Accounts String
  get_csrf_token hmac csrf_secret now cookie = do
    get_current_user now cookie
    session_token ← need cookie (http_exception 401 "Authentication required")
    pure (make_csrf_token hmac csrf_secret session_token)
