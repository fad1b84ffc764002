-- ===== src/Auth/Recover.antt =====
-- `POST /auth/recover` of src/auth/index.ts. `meanwhile` is what other requests do while the new password
-- is derived. `DUMMY_RECOVERY_MK` and `DUMMY_USER_ID` are arguments.
pub mod RoundTrip
use ppvda.Base.{
  ℕ, Bool, true, false, ◌&&◌, not, ◌==◌, List, [], ◌∷◌, Option, none, some, String, if◌then◌else◌,
  length, replicate,
}
use ppvda.Base.Text.{Text, codes}
use ppvda.Crypto.{Primitives, decrypt_master_key_with_recovery, key_len}
use ppvda.Db.{Db, UserRow, get_user_by_username, update_user_auth}
use ppvda.Auth.Sessions.{delete_all_for_user}
use ppvda.Auth.Limiter.{is_limited, record_failure, reset}
use ppvda.Auth.Password.{is_strong_password}
use ppvda.Auth.Server.{Server, Fresh, Reply, error, recovered, seal_auth}

pub record Dummy : Type 0 where
  pub recovery_mk : Text
  pub user_id : Text

abbrev pub bad_recovery : Reply
bad_recovery = error 400 "Username and/or recovery code is incorrect."

-- The code that is tried: zeros in place of one with a wrong length.
pub has_code_length : Text → Bool
has_code_length code = length code == key_len

pub tried_code : Text → Text
unfolding has_code_length
tried_code code = if has_code_length code then code else replicate key_len 0

-- The blob and the AAD that are tried.
pub tried_blob : Dummy → Option UserRow → Text
tried_blob d none = d.recovery_mk
tried_blob d (some user) = elim user.recovery_mk [ none ↦ d.recovery_mk | some mk ↦ mk ]

pub tried_id : Dummy → Option UserRow → Text
tried_id d none = d.user_id
tried_id d (some user) = codes user.id

-- A user who has a blob.
unfoldable pub with_blob : Option UserRow → Option UserRow
with_blob none = none
with_blob (some user) = elim user.recovery_mk [ none ↦ none | some mk ↦ some user ]

module _ (p : Primitives) (digest : String → String) where
  pub fail_recovery : Server → String → ℕ → Server × Reply
  fail_recovery srv username now = (
    record srv { recover_limiter = record_failure digest srv.recover_limiter username now },
    bad_recovery,
  )

  -- The new fields, and the end of all sessions.
  pub store_recovered : Server → UserRow → Text → Text → Fresh → Server × Reply
  store_recovered srv user new_password master_key f = (
    record srv {
      db = update_user_auth srv.db user.id (seal_auth p user.id new_password master_key f);
      sessions = delete_all_for_user srv.sessions user.id;
    },
    recovered (p.to_base64url f.recovery_code),
  )

  -- With the user who has a blob, whether the code had the right length, and the opened key.
  after_open :
      (Server → Server)
      → Server
      → String
      → Text
      → Fresh
      → ℕ
      → Option UserRow
      → Bool
      → Option Text
      → Server × Reply
  unfolding fail_recovery store_recovered
  after_open meanwhile srv username new_password f now (some user) true (some master_key) =
      store_recovered
        (meanwhile (record srv { recover_limiter = reset digest srv.recover_limiter username }))
        user new_password master_key f
  after_open meanwhile srv username new_password f now _ _ _ = fail_recovery srv username now

  pub recover :
      (Server → Server) → Dummy → Server → String → Text → Text → Fresh → ℕ → Server × Reply
  unfolding after_open with_blob tried_blob tried_id tried_code has_code_length
  recover meanwhile d srv username recovery_code new_password f now =
      let user = get_user_by_username srv.db username in
      let code = p.from_base64url recovery_code in
      if not (is_strong_password new_password)
      then (
        srv,
        error 400
            "16-128 characters with at least one letter, one number, and one symbol (no spaces)",
      )
      else if is_limited digest srv.recover_limiter username now
      then (srv, bad_recovery)
      else after_open meanwhile srv username new_password f now (with_blob user)
          (has_code_length code)
          (decrypt_master_key_with_recovery p (tried_blob d user) (tried_code code)
            (tried_id d user))
