-- ===== src/Auth/Server.antt =====
-- What the routes of src/auth/index.ts share: the state that they change, what a request draws from
-- random sources, the fields that a password is stored as, and the replies.
pub mod Stored
pub mod Unlock
use ppvda.Base.{
  ℕ, Bool, true, false, ◌&&◌, ◌||◌, not, List, [], ◌∷◌, ◌++◌, Option, none, some, String, ite,
  string_discrete, if◌then◌else◌, is_some,
}
use ppvda.Base.Text.{Text, codes}
use ppvda.Crypto.{
  Primitives, hash_password, derive_key, encrypt, encrypt_master_key_for_recovery, verify_password,
  verify_password_legacy, decrypt, derive_key_pbkdf2,
}
use ppvda.Db.{Db, UserRow, AuthFields}
use ppvda.Auth.Sessions.{SessionStore, set_session}
use ppvda.Auth.Limiter.{AccountLimiter}

pub record Server : Type 0 where
  pub db : Db
  pub sessions : SessionStore
  pub login_limiter : AccountLimiter
  pub recover_limiter : AccountLimiter

-- What one request draws, and the token that it signs.
pub record Fresh : Type 0 where
  pub user_id : String
  pub session_id : String
  pub master_key : Text
  pub auth_salt : Text
  pub kdf_salt : Text
  pub nonce : Text
  pub recovery_code : Text
  pub recovery_nonce : Text
  pub week : ℕ

pub record JwtPayload : Type 0 where
  pub sub : Option String
  pub sid : Option String
  pub is_admin : Bool

-- An error with its status; `thrown` is an exception that the framework turns into a 500.
pub data Reply : Type 0 where
  error : ℕ → String → Reply
  thrown done : Reply
  registered : String → Text → Reply
  logged_in : JwtPayload → Reply
  recovered : Text → Reply
  changed : JwtPayload → Text → Reply

-- The password behind a stored user: `none` where the comparison throws.
pub check_password : Primitives → UserRow → Text → Option Bool
check_password p user password = elim user.auth_salt [
  | none ↦ verify_password_legacy p password user.password_hash
  | some salt ↦ verify_password p password salt user.password_hash
]

-- The master key that the password opens: a legacy key has no AAD.
pub open_master_key : Primitives → UserRow → Text → Option Text
open_master_key p user password = elim user.auth_salt [
  | none ↦
      decrypt p user.encrypted_master_key user.master_key_nonce
        (derive_key_pbkdf2 p password user.password_salt user.kdf_iterations) none
  | some salt ↦
      decrypt p user.encrypted_master_key user.master_key_nonce
        (derive_key p password user.password_salt) (some (codes user.id))
]

-- What is stored for a password and a master key: the hash, the key under the password, and the key
-- under the recovery code.
pub seal_auth : Primitives → String → Text → Text → Fresh → AuthFields
seal_auth p id password master_key f = record {
  password_hash = hash_password p password f.auth_salt;
  auth_salt = f.auth_salt;
  password_salt = f.kdf_salt;
  encrypted_master_key =
      encrypt p master_key (derive_key p password f.kdf_salt) (some (codes id)) f.nonce;
  master_key_nonce = f.nonce;
  recovery_mk =
      encrypt_master_key_for_recovery p master_key f.recovery_code (codes id) f.recovery_nonce;
}

-- The payload of the token of a new session.
pub payload_of : UserRow → Fresh → JwtPayload
payload_of user f = record { sub = some user.id; sid = some f.session_id; is_admin = user.is_admin }

-- `createSessionAndToken`
unfoldable pub create_session : Server → UserRow → Text → Fresh → ℕ → Server × JwtPayload
create_session srv user master_key f now = (
  record srv { sessions = set_session srv.sessions f.session_id user.id master_key now },
  payload_of user f,
)
