-- ===== src/SshKeys/Services.antt =====
-- portal/app/ssh_keys/services.py, over the table of keys.
use server_npd.Prelude.{
  ℕ, String, Bool, List, ◌∷◌, ◌==◌, ◌||◌, ◌&&◌, is_some, str_eq, if◌then◌else◌,
}
use server_npd.Prelude.Rows.{first}
use server_npd.Outcome.{
  Error, value_error, invalid_ssh_public_key_error, ssh_public_key_conflict_error, integrity_error,
  Result, ok, err, Done, Exec, pure, raise, gets, lift, raise_if, ◌>>=◌, ◌>>◌,
}
use server_npd.Outcome.Integrity.{except_integrity}
use server_npd.Models.{SshPublicKey}
use server_npd.SshKeys.Parsing.{ParsedSshPublicKey, Cryptography, parse_ssh_public_key}

abbrev pub Keys : Type 0
Keys = List SshPublicKey

pub record SshPublicKeyCreate : Type 0 where
  pub name : String
  pub public_key : String

pub record SshKeyPairGenerate : Type 0 where
  pub name : String

-- What Python and the database supply to a request: a new key (`uuid4`), the time, and what other
-- transactions commit between the request's queries and its flush.
pub record KeyEnvironment : Type 0 where
  pub new_id : ℕ
  pub now : ℕ
  pub others : Keys → Keys

abbrev pub has_name : ℕ → String → SshPublicKey → Bool
has_name user_id name k = k.owner_user_id == user_id && str_eq k.name name

abbrev pub has_fingerprint : String → SshPublicKey → Bool
has_fingerprint fingerprint k = str_eq k.fingerprint fingerprint

abbrev pub name_conflict : Error
name_conflict = ssh_public_key_conflict_error "SSH key name already exists"

abbrev pub key_conflict : Error
key_conflict = ssh_public_key_conflict_error "SSH public key already exists"

abbrev pub new_key : KeyEnvironment → ℕ → String → ParsedSshPublicKey → SshPublicKey
new_key env user_id name parsed = record {
  id = env.new_id;
  owner_user_id = user_id;
  name = name;
  key_type = parsed.key_type;
  public_key = parsed.public_key;
  fingerprint = parsed.fingerprint;
  created_at = env.now;
}

-- `db.flush()` of the new row, by then among those of the other transactions, under the constraints
-- `uq_ssh_public_keys_owner_name` and `uq_ssh_public_keys_fingerprint`.
unfoldable pub flush_key : KeyEnvironment → SshPublicKey → Exec Keys Done
flush_key env key keys =
    let seen = env.others keys in
    if is_some (first (has_name key.owner_user_id key.name) seen)
      || is_some (first (has_fingerprint key.fingerprint) seen)
    then (err integrity_error, seen)
    else (ok tt, key ∷ seen)

-- `except ValueError`, around the parser.
unfoldable pub as_invalid_key : {A : Type 0} → Result A → Result A
as_invalid_key (ok a) = ok a
as_invalid_key (err (value_error message)) = err (invalid_ssh_public_key_error message)
as_invalid_key (err e) = err e

unfoldable pub add_key : KeyEnvironment → ℕ → String → ParsedSshPublicKey → Exec Keys SshPublicKey
add_key env user_id name parsed = do
  existing_name ← gets (first (has_name user_id name))
  raise_if (is_some existing_name) name_conflict
  existing_key ← gets (first (has_fingerprint parsed.fingerprint))
  raise_if (is_some existing_key) key_conflict
  let pubkey : SshPublicKey = new_key env user_id name parsed
  flush_key env pubkey
  pure pubkey

-- The handler of IntegrityError, after the rollback.
unfoldable pub explain_conflict : ℕ → String → Exec Keys SshPublicKey
explain_conflict user_id name = do
  existing_name ← gets (first (has_name user_id name))
  raise_if (is_some existing_name) name_conflict
  raise key_conflict

module _ (crypto : Cryptography) (env : KeyEnvironment) where
  unfoldable pub import_ssh_public_key : ℕ → SshPublicKeyCreate → Exec Keys SshPublicKey
  import_ssh_public_key user_id request_model = do
    parsed_key ← lift (as_invalid_key (parse_ssh_public_key crypto request_model.public_key))
    except_integrity (add_key env user_id request_model.name parsed_key)
        (explain_conflict user_id request_model.name)

-- `GeneratedSshKeyPair`
pub record GeneratedSshKeyPair : Type 0 where
  pub ssh_key : SshPublicKey
  pub private_key : String

-- A key pair that cryptography has generated: the OpenSSH text of each part.
pub record KeyPair : Type 0 where
  pub public_text : String
  pub private_text : String

module _ (crypto : Cryptography) (env : KeyEnvironment) (generated : KeyPair) where
  unfoldable pub generate_ssh_key_pair : ℕ → SshKeyPairGenerate → Exec Keys GeneratedSshKeyPair
  generate_ssh_key_pair user_id request_model = do
    existing_name ← gets (first (has_name user_id request_model.name))
    raise_if (is_some existing_name) name_conflict
    parsed_key ← lift (parse_ssh_public_key crypto generated.public_text)
    let pubkey : SshPublicKey = new_key env user_id request_model.name parsed_key
    flush_key env pubkey
    pure (record { ssh_key = pubkey; private_key = generated.private_text })
