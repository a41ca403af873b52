-- ===== src/SshKeys/Generated.antt =====
-- What the generation of a key pair answers on every branch, and what it leaves in the table.
use server_npd.Prelude.{ℕ, String, Bool, true, false, none, ◌∷◌, ◌≡◌, ◌||◌, ◌⊎◌, is_some}
use server_npd.Prelude.Rows.{first}
use server_npd.Outcome.{Error, value_error, integrity_error, http_exception, Result, ok, err}
use server_npd.Models.{SshPublicKey}
use server_npd.SshKeys.Parsing.{ParsedSshPublicKey, Cryptography, parse_ssh_public_key}
use server_npd.SshKeys.Services.{
  Keys, SshKeyPairGenerate, KeyEnvironment, GeneratedSshKeyPair, KeyPair, has_name, has_fingerprint,
  new_key,
}
use server_npd.SshKeys.Router.{generate_answer}

module _ (crypto : Cryptography) (env : KeyEnvironment) (pair : KeyPair) (user_id : ℕ)
    (r : SshKeyPairGenerate) (keys : Keys) where
  abbrev pub parsed : Result ParsedSshPublicKey
  parsed = parse_ssh_public_key crypto pair.public_text

  abbrev pub has_the_name : Keys → Bool
  has_the_name t = is_some (first (has_name user_id r.name) t)

  abbrev pub has_the_key : ParsedSshPublicKey → Keys → Bool
  has_the_key p t = is_some (first (has_fingerprint p.fingerprint) t)

  abbrev pub Refused : Error → Keys → Type 0
  Refused e t =
      ((has_the_name keys ≡ true)
        × (e ≡ http_exception 409 "SSH key name already exists")
        × (t ≡ keys))
      ⊎ ((has_the_name keys ≡ false)
          × (message : String) × (parsed ≡ err (value_error message))
          × (e ≡ value_error message)
          × (t ≡ keys))
      ⊎ ((has_the_name keys ≡ false)
          × (p : ParsedSshPublicKey) × (parsed ≡ ok p)
          × ((has_the_name (env.others keys) || has_the_key p (env.others keys)) ≡ true)
          × (e ≡ integrity_error)
          × (t ≡ env.others keys))

  abbrev pub Generated : Result GeneratedSshKeyPair × Keys → Type 0
  Generated (ok g, t) =
      (has_the_name keys ≡ false)
      × (p : ParsedSshPublicKey) × (parsed ≡ ok p)
      × (g.ssh_key ≡ new_key env user_id r.name p)
      × (g.private_key ≡ pair.private_text)
      × (t ≡ g.ssh_key ∷ env.others keys)
      × (first (has_name user_id r.name) (env.others keys) ≡ none)
      × (first (has_fingerprint p.fingerprint) (env.others keys) ≡ none)
  Generated (err e, t) = Refused e t

  -- The same of the service, before the endpoint turns its exceptions into answers.
  abbrev Served : Result GeneratedSshKeyPair × Keys → Type 0
  Served (ok g, t) = Generated (ok g, t)
  Served (err e, t) = Refused (generate_answer e) t

  module _ (p : ParsedSshPublicKey) (parses : parsed ≡ ok p)
      (free : has_the_name keys ≡ false) where
    abbrev key : SshPublicKey
    key = new_key env user_id r.name p

    abbrev is_taken : Bool
    is_taken = has_the_name (env.others keys) || has_the_key p (env.others keys)
