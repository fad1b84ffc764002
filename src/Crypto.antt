-- ===== src/Crypto.antt =====
-- src/crypto/index.ts over the ciphers, the key derivations and the encodings of Node and argon2, which
-- are the parameter `Primitives`. A `Buffer` is its bytes; `randomBytes` gives its bytes as an argument;
-- a result that is not there is an exception.
pub mod RoundTrip
use ppvda.Base.{
  ℕ, ◌-◌, ◌+◌, Bool, true, false, List, [], ◌∷◌, ◌++◌, Option, none, some, ◌==◌, ltb, ◌≡◌,
  if◌then◌else◌, length, take, drop,
}
use ppvda.Base.Text.{Text, equal, split}

abbrev pub nonce_len : ℕ
nonce_len = 12

abbrev pub auth_tag_len : ℕ
auth_tag_len = 16

abbrev pub key_len : ℕ
key_len = 32

pub record Primitives : Type 0 where
  -- AES-256-GCM: the ciphertext and the tag, from the key, the nonce, the AAD and the plaintext.
  pub seal : Text → Text → Option Text → Text → Text × Text
  -- Its inverse, which throws where the tag does not fit: the last two are the ciphertext and the tag.
  pub open_sealed : Text → Text → Option Text → Text → Text → Option Text
  -- Argon2id, from the password and the salt.
  pub argon2id : Text → Text → Text
  -- scrypt and PBKDF2, the last with its iterations.
  pub scrypt : Text → Text → Text
  pub pbkdf2 : Text → Text → ℕ → Text
  -- `toString('base64')`, `toString('base64url')` and `Buffer.from` of hex and base64url.
  pub to_base64 : Text → Text
  pub to_base64url : Text → Text
  pub from_hex : Text → Text
  pub from_base64url : Text → Text

-- What the libraries document.
pub record IsLawful (p : Primitives) : Type 0 where
  pub open-seal :
      (key nonce : Text) (aad : Option Text) (plain : Text)
      → p.open_sealed key nonce aad (p.seal key nonce aad plain).0 (p.seal key nonce aad plain).1
        ≡ some plain
  pub length-tag :
      (key nonce : Text) (aad : Option Text) (plain : Text)
      → length (p.seal key nonce aad plain).1 ≡ 16
  pub from-to_base64url : (bytes : Text) → p.from_base64url (p.to_base64url bytes) ≡ bytes

-- `timingSafeEqual`, which throws where the lengths differ.
pub timing_safe_equal : Text → Text → Option Bool
timing_safe_equal a b = if length a == length b then some (equal a b) else none

-- `const [saltHex, hashHex] = storedHash.split(':')`
abbrev two_parts : List Text → Text × Text
two_parts (a ∷ b ∷ ps) = (a, b)
two_parts (a ∷ []) = (a, [])
two_parts [] = ([], [])

module _ (p : Primitives) where
  unfoldable pub derive_key : Text → Text → Text
  derive_key password salt = p.argon2id password salt

  unfoldable pub hash_password : Text → Text → Text
  unfolding derive_key
  hash_password password salt = p.to_base64 (derive_key password salt)

  pub verify_password : Text → Text → Text → Option Bool
  unfolding hash_password timing_safe_equal
  verify_password password salt stored_hash =
      timing_safe_equal (hash_password password salt) stored_hash

  legacy_parts : Text → Text × Text → Option Bool
  unfolding timing_safe_equal
  legacy_parts password ([], hash) = some false
  legacy_parts password (c ∷ salt, []) = some false
  legacy_parts password (c ∷ salt, d ∷ hash) =
      timing_safe_equal (p.scrypt password (p.from_hex (c ∷ salt))) (p.from_hex (d ∷ hash))

  pub verify_password_legacy : Text → Text → Option Bool
  unfolding legacy_parts
  verify_password_legacy password stored_hash =
      legacy_parts password (two_parts (split b':' stored_hash))

  pub derive_key_pbkdf2 : Text → Text → ℕ → Text
  derive_key_pbkdf2 password salt iterations = p.pbkdf2 password salt iterations

  -- The ciphertext with its tag; the nonce is the argument.
  unfoldable pub encrypt : Text → Text → Option Text → Text → Text
  encrypt plaintext key aad nonce =
      (p.seal key nonce aad plaintext).0 ++ (p.seal key nonce aad plaintext).1

  -- A ciphertext without room for a tag throws, since `setAuthTag` refuses a shorter one.
  unfoldable pub decrypt : Text → Text → Text → Option Text → Option Text
  decrypt ciphertext nonce key aad =
      let n = length ciphertext - auth_tag_len in
      if ltb (length ciphertext) auth_tag_len
      then none
      else p.open_sealed key nonce aad (take n ciphertext) (drop n ciphertext)

  pub encrypt_block : Text → Text → Text → Text → Text
  encrypt_block plaintext key aad nonce =
      nonce
      ++ ((p.seal key nonce (some aad) plaintext).0 ++ (p.seal key nonce (some aad) plaintext).1)

  -- The part behind the nonce.
  open_rest : Text → Text → Text → Text → Option Text
  open_rest key aad nonce rest =
      let n = length rest - auth_tag_len in
      p.open_sealed key nonce (some aad) (take n rest) (drop n rest)

  -- The block, cut behind so many bytes.
  open_at : ℕ → Text → Text → Text → Option Text
  unfolding open_rest
  open_at n block key aad = open_rest key aad (take n block) (drop n block)

  pub decrypt_block : Text → Text → Text → Option Text
  unfolding open_at
  decrypt_block block key aad =
      if ltb (length block) (nonce_len + auth_tag_len)
      then none
      else open_at nonce_len block key aad

  pub encrypt_master_key_for_recovery : Text → Text → Text → Text → Text
  unfolding encrypt_block
  encrypt_master_key_for_recovery master_key recovery_code user_id nonce =
      encrypt_block master_key recovery_code user_id nonce

  pub decrypt_master_key_with_recovery : Text → Text → Text → Option Text
  unfolding decrypt_block
  decrypt_master_key_with_recovery block recovery_code user_id =
      decrypt_block block recovery_code user_id
