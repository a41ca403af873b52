-- ===== src/SshKeys/Router.antt =====
-- portal/app/ssh_keys/router.py: the answers to requests about keys, for the user that the session
-- belongs to. A service that raises has added nothing, so the rollback before an answer is no step.
use server_npd.Prelude.{ℕ, List, ◌==◌}
use server_npd.Prelude.Rows.{select}
use server_npd.Prelude.Sorting.{order_desc}
use server_npd.Outcome.{
  Error, invalid_ssh_public_key_error, ssh_public_key_conflict_error, http_exception, Exec, raise,
  gets, catch,
}
use server_npd.Models.{SshPublicKey}
use server_npd.SshKeys.Parsing.{Cryptography}
use server_npd.SshKeys.Services.{
  Keys, SshPublicKeyCreate, SshKeyPairGenerate, KeyEnvironment, GeneratedSshKeyPair, KeyPair,
  import_ssh_public_key, generate_ssh_key_pair,
}

-- The exception handlers of the two endpoints that add a key.
unfoldable pub import_answer : Error → Error
import_answer (invalid_ssh_public_key_error message) = http_exception 400 message
import_answer (ssh_public_key_conflict_error message) = http_exception 409 message
import_answer e = e

unfoldable pub generate_answer : Error → Error
generate_answer (ssh_public_key_conflict_error message) = http_exception 409 message
generate_answer e = e

unfoldable pub import_ssh_key :
    Cryptography → KeyEnvironment → ℕ → SshPublicKeyCreate → Exec Keys SshPublicKey
import_ssh_key crypto env user_id request_model =
    catch (import_ssh_public_key crypto env user_id request_model) (λ e. raise (import_answer e))

unfoldable pub get_list_keys : ℕ → Exec Keys (List SshPublicKey)
get_list_keys user_id =
    gets (λ keys. order_desc (λ k. k.created_at) (select (λ k. k.owner_user_id == user_id) keys))

unfoldable pub generate_ssh_key_pair_endpoint :
    Cryptography → KeyEnvironment → KeyPair → ℕ → SshKeyPairGenerate → Exec Keys GeneratedSshKeyPair
generate_ssh_key_pair_endpoint crypto env generated user_id request_model =
    catch (generate_ssh_key_pair crypto env generated user_id request_model)
      (λ e. raise (generate_answer e))
