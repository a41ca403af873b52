-- ===== src/Identity/Forgery.antt =====
-- Which requests pass the check against forgery.
use server_npd.Prelude.{
  String, true, false, Option, none, some, ◌≡◌, ◌∙◌, refl, ap, ◌<>◌, arith, str_eq, str_eq_refl,
  is_ascii, eq_iff, not_inv, take_until, ◌⊎◌, inl, inr,
}
use server_npd.Outcome.{Result, ok, err, Done, raise_if}
use server_npd.Outcome.Guards.{after_need, after_raise_if, at_raise_if, after_some, after_test}
use server_npd.Identity.Csrf.{
  Hmac, CsrfRequest, filled, make_csrf_token, submitted_token, verify_csrf,
}

module _ {S : Type 0} (hmac : Hmac) (csrf_secret : String) (request : CsrfRequest) (s : S) where
  -- The check passes for a session whose token was submitted, and does nothing.
  abbrev pub Checked : Result Done × S → Type 0
  Checked (ok done, t) =
      (t ≡ s)
      × (session : String) × (request.session_token ≡ some session)
      × (submitted_token hmac csrf_secret request ≡ some (make_csrf_token hmac csrf_secret session))
  Checked (err e, t) = t ≡ s

  some_of_text :
      (o : Option String) {token : String} → filled hmac csrf_secret o ≡ some token → o ≡ some token
  some_of_text none h = cc
  some_of_text (some t) h = ground (arith)

  -- A request that passes the check has a session, and has submitted the token of that very
  -- session, in the header or, without one, in a form; the check changes nothing, whether it passes
  -- or not.
  pub verify_csrf-Checked : Checked (verify_csrf hmac csrf_secret request s)
  unfolding verify_csrf
  verify_csrf-Checked = after_need Checked _ _ _ refl (λ session cookie.
      after_need Checked _ _ _ refl (λ token given. after_raise_if Checked _ _ _ refl (λ ascii.
        at_raise_if Checked _ _ refl (λ same. (
          refl,
          session,
          cookie,
          some_of_text _ given ∙ ap some ((eq_iff token _).0 (not_inv _ same)),
        )))))

-- The two ways to submit a token: in the header, or without one in a form.
abbrev pub Submits : CsrfRequest → String → Type 0
Submits request token =
    (request.header_token ≡ some token)
    ⊎ ((request.header_token ≡ none)
        × (str_eq (take_until b';' request.content_type) "application/x-www-form-urlencoded" ≡ true)
        × (request.form_token ≡ some token))

module _ {S : Type 0} (hmac : Hmac) (csrf_secret : String) (s : S)
    (ascii : (key message : String) → is_ascii (hmac key message) ≡ true)
    (written : (key message : String) → str_eq (hmac key message) "" ≡ false) where
  submitted :
      (request : CsrfRequest) (token : String)
      → Submits request token
      → submitted_token hmac csrf_secret request ≡ some token
  unfolding submitted_token
  submitted request token (inl header) = rw header refl
  submitted request token (inr (no_header, is_form, field)) = rw (no_header, is_form) field

  -- If an HMAC is a text of ASCII characters that is not empty: the token made for a session passes
  -- the check of every request of that session that submits it, in the header, or without a header
  -- in a form, with or without parameters after the form's content type; and the check changes
  -- nothing.
  pub verify_csrf-make_csrf_token :
      (request : CsrfRequest) (session : String)
      → request.session_token ≡ some session
      → Submits request (make_csrf_token hmac csrf_secret session)
      → verify_csrf hmac csrf_secret request s ≡ (ok tt, s)
  unfolding verify_csrf make_csrf_token raise_if
  verify_csrf-make_csrf_token request session cookie given =
      let token : String = hmac csrf_secret ("csrf-v1:" <> session) in
      let P : Result Done × S → Type 0 = λ q. q ≡ (ok tt, s) in
      let found : filled hmac csrf_secret (submitted_token hmac csrf_secret request) ≡ some token =
        rw (submitted request token given)
          (rw (written csrf_secret ("csrf-v1:" <> session)) refl) in
      after_some P _ _ cookie (
        after_some P _ _ found (
          after_test P _ _ _
            (λ h. absurd (ground (arith, ascii csrf_secret ("csrf-v1:" <> session))))
            (λ _. rw (str_eq_refl token) refl)))
