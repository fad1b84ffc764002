-- ===== src/Auth/Server/Unlock.antt =====
-- What a password and a recovery code open of a stored user.
use ppvda.Base.{Bool, true, some, String, ◌≡◌, refl, length}
use ppvda.Base.Text.{Text, codes}
use ppvda.Crypto.{
  Primitives, IsLawful, derive_key, decrypt_master_key_with_recovery,
  encrypt_master_key_for_recovery,
}
use ppvda.Crypto.RoundTrip.{decrypt-encrypt, verify-hash_password, decrypt-encrypt_for_recovery}
use ppvda.Db.{UserRow, set_auth, new_row}
use ppvda.Auth.Server.{Fresh, check_password, open_master_key, seal_auth}

module _ (p : Primitives) where
  -- The password is that of the user and opens the master key.
  pub record IsUnlocked (user : UserRow) (password master_key : Text) : Type 0 where
    pub verified : check_password p user password ≡ some true
    pub opens : open_master_key p user password ≡ some master_key

  -- The recovery code opens the master key.
  pub record IsRecoverable (user : UserRow) (code master_key : Text) : Type 0 where
    pub blob : Text
    pub stored : user.recovery_mk ≡ some blob
    pub recovers : decrypt_master_key_with_recovery p blob code (codes user.id) ≡ some master_key

  -- A request draws nonces of twelve bytes and codes of 32.
  pub record IsDrawn (f : Fresh) : Type 0 where
    pub recovery_nonce : length f.recovery_nonce ≡ 12
    pub recovery_code : length f.recovery_code ≡ 32

  module _ (law : IsLawful p) where
    -- Fields that were sealed for a user open with the password and with the code.
    pub set_auth-IsUnlocked :
        (user : UserRow) (password master_key : Text) (f : Fresh)
        → IsUnlocked (set_auth user (seal_auth p user.id password master_key f)) password master_key
    unfolding seal_auth check_password open_master_key set_auth derive_key
    set_auth-IsUnlocked user password master_key f = record {
      verified = verify-hash_password p law password f.auth_salt;
      opens =
          decrypt-encrypt p law master_key (p.argon2id password f.kdf_salt) (some (codes user.id))
            f.nonce;
    }

    pub set_auth-IsRecoverable :
        (user : UserRow) (password master_key : Text) (f : Fresh)
        → IsDrawn f
        → IsRecoverable
            (set_auth user (seal_auth p user.id password master_key f))
            f.recovery_code
            master_key
    unfolding seal_auth set_auth
    set_auth-IsRecoverable user password master_key f d = record {
      blob =
          encrypt_master_key_for_recovery p master_key f.recovery_code (codes user.id)
            f.recovery_nonce;
      stored = refl;
      recovers =
          decrypt-encrypt_for_recovery p law master_key f.recovery_code (codes user.id)
            f.recovery_nonce d.recovery_nonce;
    }

    pub new_row-IsUnlocked :
        (id name : String) (password master_key : Text) (f : Fresh) (admin : Bool)
        → IsUnlocked
            (new_row id name (seal_auth p id password master_key f) admin f.week)
            password
            master_key
    unfolding seal_auth check_password open_master_key new_row derive_key
    new_row-IsUnlocked id name password master_key f admin = record {
      verified = verify-hash_password p law password f.auth_salt;
      opens =
          decrypt-encrypt p law master_key (p.argon2id password f.kdf_salt) (some (codes id))
            f.nonce;
    }

    pub new_row-IsRecoverable :
        (id name : String) (password master_key : Text) (f : Fresh) (admin : Bool)
        → IsDrawn f
        → IsRecoverable
            (new_row id name (seal_auth p id password master_key f) admin f.week)
            f.recovery_code
            master_key
    unfolding seal_auth new_row
    new_row-IsRecoverable id name password master_key f admin d = record {
      blob =
          encrypt_master_key_for_recovery p master_key f.recovery_code (codes id) f.recovery_nonce;
      stored = refl;
      recovers =
          decrypt-encrypt_for_recovery p law master_key f.recovery_code (codes id) f.recovery_nonce
            d.recovery_nonce;
    }
