-- ===== src/Crypto/RoundTrip.antt =====
-- What was encrypted decrypts to itself.
use ppvda.Base.{
  ℕ, zero, suc, ◌-◌, true, [], ◌∷◌, ◌++◌, Option, some, ◌≡◌, refl, length, take, drop,
  length-append, arith,
}
use ppvda.Base.Text.{Text, equal, equal_iff}
use ppvda.Crypto.{
  Primitives, IsLawful, encrypt, decrypt, encrypt_block, decrypt_block, open_rest, open_at,
  verify_password, hash_password, timing_safe_equal, encrypt_master_key_for_recovery,
  decrypt_master_key_with_recovery,
}

-- Cutting an appended list where it was joined.
take-append : (n : ℕ) (xs ys : Text) → n ≡ length xs → take n (xs ++ ys) ≡ xs
take-append zero [] ys h = refl
take-append (suc n) [] ys h = ground (arith, h)
take-append zero (x ∷ xs) ys h = ground (arith, h)
take-append (suc n) (x ∷ xs) ys h = rw (take-append n xs ys (omega (arith, h))) refl

drop-append : (n : ℕ) (xs ys : Text) → n ≡ length xs → drop n (xs ++ ys) ≡ ys
drop-append zero [] ys h = refl
drop-append (suc n) [] ys h = ground (arith, h)
drop-append zero (x ∷ xs) ys h = ground (arith, h)
drop-append (suc n) (x ∷ xs) ys h = drop-append n xs ys (omega (arith, h))

pub equal_self : (t : Text) → equal t t ≡ true
equal_self t = (equal_iff t t).1 refl

module _ (p : Primitives) (law : IsLawful p) where
  -- Opening a sealed text whose tag stands behind it.
  open_joined :
      (key nonce : Text) (aad : Option Text) (plain : Text) (n : ℕ)
      → n ≡ length (p.seal key nonce aad plain).0
      → let joined = (p.seal key nonce aad plain).0 ++ (p.seal key nonce aad plain).1 in
        p.open_sealed key nonce aad (take n joined) (drop n joined) ≡ some plain
  open_joined key nonce aad plain n h =
      rw
        (
          take-append n (p.seal key nonce aad plain).0 (p.seal key nonce aad plain).1 h,
          drop-append n (p.seal key nonce aad plain).0 (p.seal key nonce aad plain).1 h,
        )
        (law.open-seal key nonce aad plain)

  pub decrypt-encrypt :
      (plain key : Text) (aad : Option Text) (nonce : Text)
      → decrypt p (encrypt p plain key aad nonce) nonce key aad ≡ some plain
  unfolding decrypt encrypt
  decrypt-encrypt plain key aad nonce =
      let l = length-append (p.seal key nonce aad plain).0 (p.seal key nonce aad plain).1 in
      let t = law.length-tag key nonce aad plain in
      ground (
        arith,
        l,
        t,
        open_joined key nonce aad plain
            (length ((p.seal key nonce aad plain).0 ++ (p.seal key nonce aad plain).1) - 16)
            (omega (arith, l, t)),
      )

  open_at-joined :
      (n : ℕ) (plain key aad nonce : Text)
      → n ≡ length nonce
      → open_at p n (encrypt_block p plain key aad nonce) key aad ≡ some plain
  unfolding open_at encrypt_block open_rest
  open_at-joined n plain key aad nonce h =
      let sealed = p.seal key nonce (some aad) plain in
      rw
        (take-append n nonce (sealed.0 ++ sealed.1) h, drop-append n nonce (sealed.0 ++ sealed.1) h)
        (open_joined key nonce (some aad) plain (length (sealed.0 ++ sealed.1) - 16) (
          omega
            (arith, length-append sealed.0 sealed.1, law.length-tag key nonce (some aad) plain)))

  -- What `encryptBlock` seals with a nonce of twelve bytes, `decryptBlock` opens with the same key and AAD.
  decrypt_block-encrypt_block :
      (plain key aad nonce : Text)
      → length nonce ≡ 12
      → decrypt_block p (encrypt_block p plain key aad nonce) key aad ≡ some plain
  unfolding decrypt_block encrypt_block
  decrypt_block-encrypt_block plain key aad nonce h =
      let sealed = p.seal key nonce (some aad) plain in
      ground (
        arith,
        length-append sealed.0 sealed.1,
        length-append nonce (sealed.0 ++ sealed.1),
        law.length-tag key nonce (some aad) plain,
        h,
        open_at-joined 12 plain key aad nonce (omega (arith, h)),
      )

  -- A password verifies against its own hash.
  pub verify-hash_password :
      (password salt : Text)
      → verify_password p password salt (hash_password p password salt) ≡ some true
  unfolding verify_password timing_safe_equal
  verify-hash_password password salt = ground (arith, equal_self (hash_password p password salt))

  -- A master key that was sealed for recovery opens with the recovery code and the id of its user.
  pub decrypt-encrypt_for_recovery :
      (master_key code id nonce : Text)
      → length nonce ≡ 12
      → decrypt_master_key_with_recovery p
          (encrypt_master_key_for_recovery p master_key code id nonce)
          code
          id
        ≡ some master_key
  unfolding decrypt_master_key_with_recovery encrypt_master_key_for_recovery
  decrypt-encrypt_for_recovery master_key code id nonce h =
      decrypt_block-encrypt_block master_key code id nonce h
