-- ===== src/Identity/Tests.antt =====
-- Logins over small tables: tests, and the theorems at their inputs. A text is its own hash here.
use server_npd.Prelude.{
  String, true, none, some, [], ◌∷◌, Option, ◌≡◌, refl, arith, is_ascii, take_until, inr,
}
use server_npd.Prelude.Rows.{first, row, HasKey}
use server_npd.Outcome.{http_exception, transport_error, Result, ok, err, ◌>>=◌}
use server_npd.Models.{User, Accounts, ComputePlan}
use server_npd.Compute.{assign_starter_quota}
use server_npd.Identity.Csrf.{Hmac, CsrfRequest, make_csrf_token, verify_csrf}
use server_npd.Identity.Sessions.{
  LoginEnvironment, session_id_of, on_db, flush_account, create_user, get_or_create_user,
  create_application_session, in_transaction, login_and_create_session, get_user_by_session_token,
  save_session, has_hash, new_session,
}
use server_npd.Identity.Requests.{UserInfo, get_current_user, auth_callback, logout}
use server_npd.Identity.Authenticated.{Authenticated, get_current_user-Authenticated}
use server_npd.Identity.Entered.{Linked, LoggedIn}
use server_npd.Identity.Login.{login_and_create_session-LoggedIn, get_current_user-login}
use server_npd.Identity.Logout.{LoggedOut, logout-LoggedOut}
use server_npd.Identity.Forgery.{Checked, verify_csrf-Checked, verify_csrf-make_csrf_token}
use server_npd.Identity.Callback.{Issued, auth_callback-Raced}

abbrev starter : ComputePlan
starter = record {
  id = 4;
  code = "starter";
  max_vms = 2;
  max_total_vcpus = 4;
  max_total_memory_mb = 4096;
  max_total_storage_gb = 40;
  max_shared_storage_gb = 0;
  is_active = true;
}

abbrev nobody : Accounts
nobody = record {
  users = [];
  identities = [];
  sessions = [];
  db = record {
    operations = [];
    virtual_machines = [];
    ssh_keys = [];
    user_quotas = [];
    compute_plans = starter ∷ [];
  };
}

abbrev hash : String → String
hash s = s

abbrev first_login : LoginEnvironment
first_login = record {
  new_user_id = 1;
  new_identity_id = 2;
  new_session_id = 3;
  token = "t";
  now = 100;
  session_max_age_seconds = 3600;
  others = λ s. s;
}

abbrev entered : Result String × Accounts
entered = login_and_create_session first_login hash "iss" "sub" "a@b" nobody

entered_ok : entered ≡ (ok "t", entered.1)
unfolding login_and_create_session in_transaction get_or_create_user create_user flush_account on_db
    assign_starter_quota create_application_session first ◌>>=◌
entered_ok = refl

-- A user who has logged in is let in, and not after the hour.
let_in :
    (get_current_user hash 200 (some "t") entered.1).0
    ≡ ok (record { id = 1; is_active = true; created_at = 100 })
unfolding get_current_user get_user_by_session_token save_session login_and_create_session
    in_transaction get_or_create_user create_user flush_account on_db assign_starter_quota
    create_application_session first row ◌>>=◌
let_in = refl

expired :
    (get_current_user hash 3700 (some "t") entered.1).0 ≡ err (http_exception 401 "Invalid session")
unfolding get_current_user get_user_by_session_token save_session login_and_create_session
    in_transaction get_or_create_user create_user flush_account on_db assign_starter_quota
    create_application_session first row ◌>>=◌
expired = refl

get_current_user-Authenticated_example :
    Authenticated hash entered.1 200 (some "t") (get_current_user hash 200 (some "t") entered.1)
get_current_user-Authenticated_example =
    get_current_user-Authenticated hash entered.1 200 (some "t")

login_and_create_session-LoggedIn_example :
    LoggedIn first_login "iss" "sub" "a@b" hash nobody entered
login_and_create_session-LoggedIn_example =
    login_and_create_session-LoggedIn first_login hash "iss" "sub" "a@b" nobody tt

get_current_user-login_example :
    (u : User) × Linked first_login "iss" "sub" "a@b" u entered.1
    × (u.is_active ≡ true)
    × (t' : Accounts) × (get_current_user hash 200 (some "t") entered.1 ≡ (ok u, t'))
get_current_user-login_example =
    get_current_user-login first_login hash "iss" "sub" "a@b" nobody entered.1 "t" 200 tt entered_ok
      (omega arith)

-- The digest of every message is "mac" here.
abbrev mac : Hmac
mac key message = "mac"

abbrev leaving : CsrfRequest
leaving = record {
  session_token = some "t";
  header_token = some "mac";
  content_type = "";
  form_token = none;
}

keyed_sessions : HasKey session_id_of entered.1.sessions
unfolding login_and_create_session in_transaction get_or_create_user create_user flush_account on_db
    assign_starter_quota create_application_session first row ◌>>=◌
keyed_sessions = (refl, tt)

-- The provider's metadata cannot be loaded.
abbrev unreachable : Result (Option String)
unreachable = err (transport_error "connection refused")

logout-LoggedOut_example :
    LoggedOut hash mac "key" 200 unreachable "client_id=portal" leaving entered.1 keyed_sessions
      (logout hash mac "key" 200 unreachable "client_id=portal" leaving entered.1)
logout-LoggedOut_example =
    logout-LoggedOut hash mac "key" 200 unreachable "client_id=portal" leaving entered.1
      keyed_sessions

verify_csrf-Checked_example :
    Checked mac "key" leaving nobody (verify_csrf mac "key" leaving nobody)
verify_csrf-Checked_example = verify_csrf-Checked mac "key" leaving nobody

abbrev form_request : CsrfRequest
form_request = record {
  session_token = some "t";
  header_token = none;
  content_type = "application/x-www-form-urlencoded; charset=utf-8";
  form_token = some (make_csrf_token mac "key" "t");
}

verify_csrf-make_csrf_token_example : verify_csrf mac "key" form_request nobody ≡ (ok tt, nobody)
unfolding is_ascii take_until
verify_csrf-make_csrf_token_example =
    verify_csrf-make_csrf_token mac "key" nobody (λ k m. refl) (λ k m. refl) form_request "t" refl
      (inr (refl, refl, refl))

-- Another request of the same new user commits first.
abbrev rival : LoginEnvironment
rival = record first_login { token = "u"; others = λ s. entered.1 }

abbrev second : LoginEnvironment
second = record first_login { token = "v"; new_session_id = 5 }

abbrev info : UserInfo
info = record { iss = "iss"; sub = "sub"; email = some "a@b"; email_verified = true }

auth_callback-Raced_example :
    (u : User) × Linked first_login "iss" "sub" "a@b" u entered.1
    × (first (has_hash "t") entered.1.sessions ≡ some (new_session first_login hash u.id))
    × Issued second hash "iss" "sub" "a@b" entered.1 u (auth_callback hash rival second info nobody)
unfolding login_and_create_session in_transaction get_or_create_user create_user flush_account on_db
    assign_starter_quota create_application_session first row ◌>>=◌
auth_callback-Raced_example =
    auth_callback-Raced hash rival second first_login info "a@b" "a@b" "t" nobody entered.1 refl
      refl tt refl entered_ok refl refl
