-- ===== src/SshKeys/Tests.antt =====
-- Keys of a small table: tests, and the theorems at its inputs. A text is its own key here, an
-- Ed25519 key unless it is "short", which stands for an RSA key of 1024 bits.
use server_npd.Prelude.{String, none, some, [], ◌∷◌, ◌≡◌, refl, str_eq, if◌then◌else◌}
use server_npd.Prelude.Rows.{first, select}
use server_npd.Prelude.Sorting.{order_desc, insert_desc}
use server_npd.Outcome.{http_exception, ok, err, catch, ◌>>=◌}
use server_npd.Models.{SshPublicKey}
use server_npd.SshKeys.Parsing.{
  ed25519, rsa, Cryptography, parse_ssh_public_key, describe_key, refusal, strip, lstrip_chars,
  rstrip_chars, is_space, first_word, b64encode,
}
use server_npd.SshKeys.Services.{
  SshPublicKeyCreate, KeyEnvironment, KeyPair, flush_key, as_invalid_key, add_key,
  import_ssh_public_key,
}
use server_npd.SshKeys.Router.{import_answer, import_ssh_key, get_list_keys}
use server_npd.SshKeys.Generated.{Generated}
use server_npd.SshKeys.Imported.{Imported, import_ssh_key-Imported}
use server_npd.SshKeys.Listed.{Parsed, parse_ssh_public_key-Parsed}

abbrev texts : Cryptography
texts = record {
  PublicKey = String;
  load_ssh_public_key = λ s. if str_eq s "" then none else some s;
  kind = λ s. if str_eq s "short" then rsa 1024 else ed25519;
  public_bytes = λ s. s;
  ssh_key_fingerprint = λ s. if str_eq s "ssh-ed25519 AAAA" then 77 ∷ 97 ∷ [] else 1 ∷ 2 ∷ 3 ∷ [];
}

-- No other transaction commits meanwhile.
abbrev quiet : KeyEnvironment
quiet = record { new_id = 3; now = 9; others = λ ks. ks }

abbrev laptop : SshPublicKey
laptop = record {
  id = 1;
  owner_user_id = 1;
  name = "laptop";
  key_type = "ssh-ed25519";
  public_key = "ssh-ed25519 BBBB";
  fingerprint = "SHA256:AQID";
  created_at = 2;
}

abbrev asked : SshPublicKeyCreate
asked = record { name = "desk"; public_key = " ssh-ed25519 AAAA\n" }

abbrev desk : SshPublicKey
desk = record {
  id = 3;
  owner_user_id = 1;
  name = "desk";
  key_type = "ssh-ed25519";
  public_key = "ssh-ed25519 AAAA";
  fingerprint = "SHA256:TWE";
  created_at = 9;
}

desk_is_added : import_ssh_key texts quiet 1 asked (laptop ∷ []) ≡ (ok desk, desk ∷ laptop ∷ [])
unfolding import_ssh_key import_ssh_public_key add_key flush_key as_invalid_key parse_ssh_public_key
    describe_key refusal strip lstrip_chars rstrip_chars is_space first_word b64encode first catch
    ◌>>=◌
desk_is_added = refl

name_is_taken :
    import_ssh_key texts quiet 1 (record asked { name = "laptop" }) (laptop ∷ [])
    ≡ (err (http_exception 409 "SSH key name already exists"), laptop ∷ [])
unfolding import_ssh_key import_answer import_ssh_public_key add_key flush_key as_invalid_key
    parse_ssh_public_key describe_key refusal strip lstrip_chars rstrip_chars is_space first_word
    b64encode first catch ◌>>=◌
name_is_taken = refl

short_is_refused :
    import_ssh_key texts quiet 1 (record asked { public_key = "short" }) []
    ≡ (err (http_exception 400 "RSA key must be at least 2048 bits"), [])
unfolding import_ssh_key import_answer import_ssh_public_key as_invalid_key parse_ssh_public_key
    refusal strip lstrip_chars rstrip_chars is_space catch ◌>>=◌
short_is_refused = refl

import_ssh_key-Imported_example :
    Imported texts quiet 1 asked (laptop ∷ []) (import_ssh_key texts quiet 1 asked (laptop ∷ []))
import_ssh_key-Imported_example = import_ssh_key-Imported texts quiet 1 asked (laptop ∷ [])

abbrev pair : KeyPair
pair = record { public_text = "ssh-ed25519 AAAA"; private_text = "secret" }

parse_ssh_public_key-Parsed_example :
    Parsed texts "ssh-ed25519 AAAA" (parse_ssh_public_key texts "ssh-ed25519 AAAA")
parse_ssh_public_key-Parsed_example = parse_ssh_public_key-Parsed texts "ssh-ed25519 AAAA"

list_is_newest_first :
    get_list_keys 1 (laptop ∷ record desk { owner_user_id = 2 } ∷ desk ∷ [])
    ≡ (ok (desk ∷ laptop ∷ []), laptop ∷ record desk { owner_user_id = 2 } ∷ desk ∷ [])
unfolding get_list_keys order_desc insert_desc select ◌>>=◌
list_is_newest_first = refl
