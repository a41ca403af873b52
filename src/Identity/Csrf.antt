-- ===== src/Identity/Csrf.antt =====
-- portal/app/identity/csrf.py. The HMAC of the standard library is a parameter: the hexadecimal
-- digest of a message under a key.
use server_npd.Prelude.{
  String, Option, none, some, not, ◌<>◌, str_eq, take_until, is_ascii, if◌then◌else◌, option_case,
}
use server_npd.Outcome.{http_exception, type_error, Exec, Done, need, raise_if, ◌>>=◌, ◌>>◌}

abbrev pub Hmac : Type 0
Hmac = String → String → String

-- The parts of a request that the check reads: the cookie `npd_session`, the header `X-CSRF-Token`,
-- the content type ("" if there is none) and the field `csrf_token` of the form, where that is a
-- text.
pub record CsrfRequest : Type 0 where
  pub session_token : Option String
  pub header_token : Option String
  pub content_type : String
  pub form_token : Option String

module _ (hmac : Hmac) (csrf_secret : String) where
  unfoldable pub make_csrf_token : String → String
  make_csrf_token session_token = hmac csrf_secret ("csrf-v1:" <> session_token)

  unfoldable pub submitted_token : CsrfRequest → Option String
  submitted_token request =
      option_case request.header_token
        (if str_eq (take_until b';' request.content_type) "application/x-www-form-urlencoded"
          then request.form_token
          else none)
        (λ t. some t)

  -- `if not submitted_token`: an empty text counts as none.
  abbrev pub filled : Option String → Option String
  filled none = none
  filled (some t) = if str_eq t "" then none else some t

  -- `hmac.compare_digest` takes no texts with characters outside ASCII.
  unfoldable pub verify_csrf : {S : Type 0} → CsrfRequest → Exec S Done
  verify_csrf request = do
    session_token ← need request.session_token (http_exception 401 "Authentication required")
    token ← need (filled (submitted_token request)) (http_exception 403 "CSRF token missing")
    raise_if (not (is_ascii token))
        (type_error "comparing strings with non-ASCII characters is not supported")
    raise_if (not (str_eq token (make_csrf_token session_token)))
        (http_exception 403 "Invalid CSRF token")
