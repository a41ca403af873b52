-- ===== src/Models/Users.antt =====
-- portal/app/users/models.py and portal/app/identity/models.py, and the tables that a login
-- touches.
use server_npd.Prelude.{ℕ, String, Bool, List, Option}
use server_npd.Models.Database.{Db}

pub record User : Type 0 where
  pub id : ℕ
  pub is_active : Bool
  pub created_at : ℕ

pub record ExternalIdentity : Type 0 where
  pub id : ℕ
  pub user_id : ℕ
  pub issuer : String
  pub subject : String
  pub email : String
  pub email_verified : Bool

pub record ApplicationSession : Type 0 where
  pub id : ℕ
  pub user_id : ℕ
  pub token_hash : String
  pub created_at : ℕ
  pub expires_at : ℕ
  pub last_seen_at : ℕ
  pub revoked_at : Option ℕ

-- The tables of users, with the others beside them.
pub record Accounts : Type 0 where
  pub users : List User
  pub identities : List ExternalIdentity
  pub sessions : List ApplicationSession
  pub db : Db
