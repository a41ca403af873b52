-- ===== src/SshKeys/Imported.antt =====
-- What an import answers on every branch, and what it leaves in the table.
use server_npd.Prelude.{
  ℕ, String, Bool, true, false, none, ◌∷◌, ◌≡◌, refl, ◌∙◌, ◌||◌, ◌⊎◌, is_some, not_some, Bool-cases,
  Option-cases, inl, inr, arith, ap, absent,
}
use server_npd.Prelude.Rows.{first}
use server_npd.Outcome.{
  Error, value_error, integrity_error, http_exception, Result, ok, err, pure, raise, lift, ◌>>=◌,
}
use server_npd.Outcome.Integrity.{Caught, after_except}
use server_npd.Outcome.Guards.{after_gets, after_test, after_ok, after_err, Handled, after_catch}
use server_npd.Models.{SshPublicKey}
use server_npd.SshKeys.Parsing.{
  ParsedSshPublicKey, Cryptography, refusal, strip, parse_ssh_public_key,
}
use server_npd.SshKeys.Services.{
  Keys, SshPublicKeyCreate, KeyEnvironment, has_name, has_fingerprint, new_key, flush_key,
  as_invalid_key, add_key, explain_conflict, import_ssh_public_key,
}
use server_npd.SshKeys.Router.{import_answer, import_ssh_key}

module _ (crypto : Cryptography) (env : KeyEnvironment) (user_id : ℕ) (r : SshPublicKeyCreate)
    (keys : Keys) where
  -- The parser's answer for the text of the request.
  abbrev pub parsed : Result ParsedSshPublicKey
  parsed = parse_ssh_public_key crypto r.public_key

  -- The table as it was, or with what the other transactions have added.
  abbrev pub Unwritten : Keys → Type 0
  Unwritten t = (t ≡ keys) ⊎ (t ≡ env.others keys)

  abbrev pub Refused : Error → Keys → Type 0
  Refused e t =
      ((message : String) × (parsed ≡ err (value_error message))
        × (e ≡ http_exception 400 message)
        × (t ≡ keys))
      ⊎ ((e ≡ http_exception 409 "SSH key name already exists")
          × (is_some (first (has_name user_id r.name) t) ≡ true)
          × Unwritten t)
      ⊎ ((p : ParsedSshPublicKey) × (parsed ≡ ok p)
          × (e ≡ http_exception 409 "SSH public key already exists")
          × (is_some (first (has_fingerprint p.fingerprint) t) ≡ true)
          × Unwritten t)

  abbrev pub Imported : Result SshPublicKey × Keys → Type 0
  Imported (ok k, t) =
      (p : ParsedSshPublicKey) × (parsed ≡ ok p)
      × (k ≡ new_key env user_id r.name p)
      × (t ≡ k ∷ env.others keys)
      × (first (has_name user_id r.name) (env.others keys) ≡ none)
      × (first (has_fingerprint p.fingerprint) (env.others keys) ≡ none)
  Imported (err e, t) = Refused e t

  -- The same of the service, before the endpoint turns its exceptions into answers.
  abbrev Served : Result SshPublicKey × Keys → Type 0
  Served (ok k, t) = Imported (ok k, t)
  Served (err e, t) = Refused (import_answer e) t

  module _ (p : ParsedSshPublicKey) (parses : parsed ≡ ok p) where
    taken : (a b : Bool) → (a || b) ≡ true → a ≡ false → b ≡ true
    taken true b h e = cc
    taken false b h e = h

    handled :
        (s : Keys)
        → (is_some (first (has_name user_id r.name) s)
            || is_some (first (has_fingerprint p.fingerprint) s))
          ≡ true
        → Unwritten s
        → Served (explain_conflict user_id r.name s)
    unfolding explain_conflict import_answer raise
    handled s clash same = after_gets Served _ _ (
        after_test Served _ _ _ (λ e. inr (inl (refl, e, same)))
          (λ e. inr (inr (p, parses, refl, taken _ _ clash e, same))))

    abbrev C : Result SshPublicKey × Keys → Type 0
    C = Caught Served (explain_conflict user_id r.name)

    abbrev is_taken : Bool
    is_taken =
        is_some (first (has_name user_id r.name) (env.others keys))
        || is_some (first (has_fingerprint p.fingerprint) (env.others keys))

    flush-clash :
        is_taken ≡ true
        → flush_key env (new_key env user_id r.name p) keys ≡ (err integrity_error, env.others keys)
    unfolding flush_key
    flush-clash h = rw h

    flush-fresh :
        is_taken ≡ false
        → flush_key env (new_key env user_id r.name p) keys
          ≡ (ok tt, new_key env user_id r.name p ∷ env.others keys)
    unfolding flush_key
    flush-fresh h = rw h

    -- The flush, and the answer after it.
    flushed : C (
        (flush_key env (new_key env user_id r.name p) >>= λ _. pure (new_key env user_id r.name p))
          keys)
    unfolding pure
    flushed = elim (Bool-cases is_taken) [
      | inl clash ↦
          after_err C _ _ (flush-clash clash)
            (inr (refl, handled (env.others keys) clash (inr refl)))
      | inr fresh ↦
          let (n, f) = absent _ _ fresh in
          after_ok C _ _ (flush-fresh fresh) (p, parses, refl, refl, n, not_some _ f)
    ]

    added : C (add_key env user_id r.name p keys)
    unfolding add_key import_answer
    added = after_gets C _ _ (
        after_test C _ _ _ (λ e. inl (refl, inr (inl (refl, e, inl refl))))
          (λ no_name. after_gets C _ _ (
            after_test C _ _ _ (λ e. inl (refl, inr (inr (p, parses, refl, e, inl refl))))
              (λ no_key. flushed))))

  parse_error : (e : Error) → parsed ≡ err e → (m : String) × (e ≡ value_error m)
  unfolding parse_ssh_public_key
  parse_error e h = elim (Option-cases (crypto.load_ssh_public_key (strip r.public_key))) [
    | inl x ↦ ("invalid SSH public key", ground (arith))
    | inr (key, x) ↦ elim (Option-cases (refusal (crypto.kind key))) [
      | inl y ↦ absurd (ground (arith))
      | inr (message, y) ↦ (message, ground (arith))
    ]
  ]

  served :
      (q : Result ParsedSshPublicKey)
      → parsed ≡ q
      → Served (import_ssh_public_key crypto env user_id r keys)
  unfolding import_ssh_public_key lift as_invalid_key import_answer
  served (ok p) e =
      after_ok Served _ _ (λ i. (as_invalid_key (e i), keys))
        (after_except Served _ _ _ refl (added p e))
  served (err x) e =
      let (m, v) = parse_error x e in
      after_err Served _ _ (λ i. (as_invalid_key ((e ∙ ap err v) i), keys))
        (inl (m, e ∙ ap err v, refl, refl))

  -- An import answers 400 with the parser's message if the key is refused; 409 if the user has a
  -- key of that name, or anyone has a key with that fingerprint, in the table as it was or with
  -- what other transactions have added; and otherwise stores and returns one key of the user, with
  -- the parsed fields, where neither the name nor the fingerprint is taken. No other exception is
  -- raised, and a request that is refused adds nothing.
  pub import_ssh_key-Imported : Imported (import_ssh_key crypto env user_id r keys)
  unfolding import_ssh_key raise
  import_ssh_key-Imported = after_catch Imported _ _ _ refl (answered _ (served _ refl))
    where
      answered :
          (q : Result SshPublicKey × Keys)
          → Served q
          → Handled Imported (λ e. raise (import_answer e)) q
      answered (ok k, t) h = h
      answered (err e, t) h = h
