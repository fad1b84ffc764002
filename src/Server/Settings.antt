-- ===== src/Server/Settings.antt =====
-- `settingsRoutes` and `getUserDarkreelDelegation` of src/server/routes/settings.ts. The request has passed
-- `authenticate`. `normalizeDarkreelOrigin` and `exchangeCode` of the Darkreel client are arguments, with
-- the code of their error where they throw; what other requests do while the code is exchanged is
-- `meanwhile`. The fingerprint of a public key is left to the caller of the reply.
pub mod Delegation
use ppvda.Base.{ℕ, Bool, true, false, Option, none, some, String, ite, string_discrete}
use ppvda.Base.Text.{Text, codes}
use ppvda.Crypto.{Primitives, encrypt, decrypt}
use ppvda.Db.{
  Db, DarkreelDelegationRow, get_darkreel_delegation, save_darkreel_delegation,
  delete_darkreel_delegation,
}
use ppvda.Auth.Sessions.{SessionStore, get_key_for_user}
use ppvda.Auth.Sessions
use ppvda.Auth.Server.{Server}

-- `DarkreelError.code`; `unknown` is any other exception.
pub data DarkreelCode : Type 0 where
  insecure_url private_host unreachable timeout scope_mismatch : DarkreelCode
  bad_response response_too_large unknown : DarkreelCode

pub data Attempt {ℓ} (A : Type ℓ) : Type ℓ where
  refused : DarkreelCode → Attempt A
  given : A → Attempt A

-- What `exchangeCode` gives.
pub record DarkreelConnection : Type 0 where
  pub server_url : String
  pub user_id : String
  pub delegation_id : String
  pub public_key : Text
  pub refresh_token : Text

pub data SettingsReply : Type 0 where
  failed : ℕ → String → SettingsReply
  thrown cleared unconfigured : SettingsReply
  connected : DarkreelConnection → SettingsReply
  configured : DarkreelDelegationRow → SettingsReply

status_of : Option DarkreelDelegationRow → SettingsReply
status_of none = unconfigured
status_of (some row) = configured row

-- `GET /settings/darkreel`
pub darkreel_status : Server → String → SettingsReply
unfolding status_of
darkreel_status srv user_id = status_of (get_darkreel_delegation srv.db user_id)

pub origin_error : DarkreelCode → String
origin_error insecure_url = "Server URL must use https://"
origin_error _ =
    "Server URL must be just the address, e.g. https://darkreel.example.com (no path, query or credentials)"

pub exchange_error : DarkreelCode → String
exchange_error private_host = "Private/internal server URLs are not allowed"
exchange_error unreachable = "Could not reach Darkreel server — check the URL"
exchange_error timeout = "Could not reach Darkreel server — check the URL"
exchange_error scope_mismatch = "Darkreel issued a delegation that is not upload-only — refusing it"
exchange_error bad_response = "The server did not respond like a Darkreel server"
exchange_error response_too_large = "The server did not respond like a Darkreel server"
exchange_error _ = "Authorization code rejected — it may have expired or already been used"

saved : Server → DarkreelConnection → Option Db → Server × SettingsReply
saved srv conn none = (srv, thrown)
saved srv conn (some db) = (record srv { db = db }, connected conn)

module _ (p : Primitives) where
  -- The row: the refresh token under the master key, with the user as AAD.
  pub delegation_row : String → DarkreelConnection → Text → Text → DarkreelDelegationRow
  delegation_row user_id conn master_key nonce = record {
    user_id = user_id;
    server_url = conn.server_url;
    darkreel_user_id = conn.user_id;
    delegation_id = conn.delegation_id;
    public_key = conn.public_key;
    encrypted_refresh_token = encrypt p conn.refresh_token master_key (some (codes user_id)) nonce;
    refresh_token_nonce = nonce;
    connected_at = 0;
  }

  with_key :
      Server
      → String
      → DarkreelConnection
      → Text
      → ℕ
      → Option (String × Text)
      → Server × SettingsReply
  unfolding saved delegation_row
  with_key srv user_id conn nonce week none = (srv, failed 401 "Session expired, please re-login")
  with_key srv user_id conn nonce week (some (owner, key)) =
      ite (string_discrete owner user_id)
        (saved srv conn
          (save_darkreel_delegation srv.db (delegation_row user_id conn key nonce) week))
        (srv, failed 401 "Session expired, please re-login")

  -- The session is looked up, which may drop it, and its key is used.
  with_conn :
      Server → String → String → Text → ℕ → ℕ → Attempt DarkreelConnection → Server × SettingsReply
  unfolding with_key exchange_error
  with_conn srv user_id sid nonce week now (refused code) = (srv, failed 400 (exchange_error code))
  with_conn srv user_id sid nonce week now (given conn) =
      let (store, session) = Sessions.get srv.sessions sid now in
      with_key (record srv { sessions = store }) user_id conn nonce week session

  module _ (normalize : String → Bool → Attempt String)
      (exchange : String → String → Bool → Attempt DarkreelConnection)
      (meanwhile : Server → Server) where
    with_origin :
        Server
        → String
        → String
        → Bool
        → String
        → Text
        → ℕ
        → ℕ
        → Attempt String
        → Server × SettingsReply
    unfolding with_conn origin_error
    with_origin srv user_id sid is_admin code nonce week now (refused e) =
        (srv, failed 400 (origin_error e))
    with_origin srv user_id sid is_admin code nonce week now (given origin) =
        with_conn (meanwhile srv) user_id sid nonce week now (exchange origin code is_admin)

    -- `POST /settings/darkreel/connect`
    pub connect :
        Server → String → String → Bool → String → String → Text → ℕ → ℕ → Server × SettingsReply
    unfolding with_origin
    connect srv user_id sid is_admin server_url code nonce week now =
        with_origin srv user_id sid is_admin code nonce week now (normalize server_url is_admin)

-- `DELETE /settings/darkreel`
pub disconnect : Server → String → Server × SettingsReply
disconnect srv user_id =
    (record srv { db = (delete_darkreel_delegation srv.db user_id).0 }, cleared)

-- `DarkreelDelegationResult`
pub data DelegationResult : Type 0 where
  ok : DarkreelConnection → DelegationResult
  not_configured session_expired decrypt_failed : DelegationResult

opened_token : DarkreelDelegationRow → Option Text → DelegationResult
opened_token row none = decrypt_failed
opened_token row (some token) = ok (record {
  server_url = row.server_url;
  user_id = row.darkreel_user_id;
  delegation_id = row.delegation_id;
  public_key = row.public_key;
  refresh_token = token;
})

module _ (p : Primitives) where
  with_user_key : String → DarkreelDelegationRow → Option Text → DelegationResult
  unfolding opened_token
  with_user_key user_id row none = session_expired
  with_user_key user_id row (some key) =
      opened_token row
        (decrypt p row.encrypted_refresh_token row.refresh_token_nonce key (some (codes user_id)))

  of_delegation :
      SessionStore → String → ℕ → Option DarkreelDelegationRow → SessionStore × DelegationResult
  unfolding with_user_key
  of_delegation sessions user_id now none = (sessions, not_configured)
  of_delegation sessions user_id now (some row) =
      let (store, key) = get_key_for_user sessions user_id now in
      (store, with_user_key user_id row key)

  pub get_user_darkreel_delegation :
      Db → SessionStore → String → ℕ → SessionStore × DelegationResult
  unfolding of_delegation
  get_user_darkreel_delegation db sessions user_id now =
      of_delegation sessions user_id now (get_darkreel_delegation db user_id)
