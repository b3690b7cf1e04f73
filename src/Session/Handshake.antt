-- ===== src/Session/Handshake.antt =====
-- Two sessions that talk to each other (src/session/Session.cpp).
use asinc_roulette.Base.{
  ℕ, ◌+◌, ◌<◌, ◌^◌, ◌≡◌, refl, sym, ap, ◌∙◌, Bool, true, false, [], ◌∷◌, ◌++◌, Option, none, some,
  arith, length, length-append, take,
}
use asinc_roulette.Failure.{ok, err, decryption_failed}
use asinc_roulette.Session.Vectors.{
  Bytes, Vector, construct, deconstruct, deconstruct-construct, length-construct, total,
}
use asinc_roulette.Session.Crypto.{Crypto, IsBase64, IsCipher, KnowsKey}
use asinc_roulette.Session.Messages.{
  Session, encrypted_message_prefix, unpack, packed, keyed, decrypted, aes_encrypt, aes_decrypt,
  rsa_encrypt, rsa_decrypt, master_init, slave_init, encrypt, decrypt, pack_and_encrypt_if_needed,
  unpack_and_decrypt_if_needed,
}

unpack-packed : (m : Bytes) → unpack (packed m) ≡ ok m
unfolding unpack
unpack-packed [] = refl
unpack-packed (x ∷ m) = refl

take-last :
    (x stray : ℕ) (b : Bytes) → take (length (b ++ stray ∷ [])) (x ∷ b ++ stray ∷ []) ≡ x ∷ b
take-last x stray [] = refl
take-last x stray (y ∷ b) = ap (◌∷◌ x) (take-last y stray b)

-- The two states of a session.
abbrev pub in_state : {C : Type 0} → Bool → C → Session C
in_state ready c = record { crypto = c; ready = ready }

-- Both sides have the same symmetric key.
pub record SharesKey {C : Type 0} (crypto : Crypto C) (a b : C) : Type 0 where
  pub key : crypto.aes_key a ≡ crypto.aes_key b
  pub iv : crypto.aes_iv a ≡ crypto.aes_iv b

module _ {C : Type 0} ⦃crypto : Crypto C⦄ (base : IsBase64 crypto) where
  aes_roundtrip :
      (cipher : IsCipher crypto) (a b : C) (x stray : ℕ) (m : Bytes)
      → length m + 2 < 2 ^ 31
      → SharesKey crypto a b
      → (e : Bytes) × (aes_encrypt a stray (x ∷ m) ≡ ok e) × (aes_decrypt b e ≡ ok (x ∷ m))
  unfolding aes_encrypt aes_decrypt
  aes_roundtrip cipher a b x stray m small shared =
      let (e, sent, got) =
        cipher.aes a b (x ∷ m ++ stray ∷ []) (omega (arith, length-append m (stray ∷ [])))
          shared.key shared.iv in
      (
        crypto.base64_encode e,
        rw (aes_encrypt, sent) refl,
        rw (aes_decrypt, base.decode-encode e, got) (ap ok (take-last x stray m)),
      )

  rsa_opened :
      (b : C) (w : Vector) (x : Bytes) → crypto.rsa_decrypt b w ≡ some x → decrypted b (ok w) ≡ ok x
  rsa_opened b w x got =
      ap (λ (o : Option Bytes). elim o [ none ↦ err decryption_failed | some b ↦ ok b ]) got

  rsa_roundtrip :
      (a b : C) (x : Bytes)
      → length x < 2 ^ 31
      → KnowsKey crypto a b
      → (e : Bytes) × (rsa_encrypt a x ≡ ok e) × (rsa_decrypt b e ≡ ok x)
  unfolding rsa_encrypt rsa_decrypt
  rsa_roundtrip a b x few knows =
      let (w, sent, got, some_byte, short) = knows.rsa x few in
      (
        crypto.base64_encode (construct w),
        rw (rsa_encrypt, sent) refl,
        ap (λ t. decrypted b (deconstruct t)) (base.decode-encode (construct w))
            ∙ ap (decrypted b) (deconstruct-construct w some_byte short)
            ∙ rsa_opened b w x got,
      )

module _ {C : Type 0} ⦃crypto : Crypto C⦄ (base : IsBase64 crypto) (cipher : IsCipher crypto) where
  unpack_ready :
      (b : C) (e m : Bytes)
      → aes_decrypt b e ≡ ok (packed m)
      → unpack_and_decrypt_if_needed (encrypted_message_prefix ++ e) (in_state true b)
        ≡ (ok m, in_state true b)
  unfolding unpack_and_decrypt_if_needed decrypt
  unpack_ready b e m got = rw got (ap (λ r. (r, in_state true b)) (unpack-packed m))

  pack_ready :
      (a : C) (stray : ℕ) (e m : Bytes)
      → aes_encrypt a stray (packed m) ≡ ok e
      → pack_and_encrypt_if_needed stray m (in_state true a)
        ≡ (ok (encrypted_message_prefix ++ e), in_state true a)
  unfolding pack_and_encrypt_if_needed encrypt
  pack_ready a stray e m sent = rw sent refl

  packed_roundtrip :
      (a b : C) (stray : ℕ) (m : Bytes)
      → length m + 5 < 2 ^ 31
      → SharesKey crypto a b
      → (e : Bytes) × (aes_encrypt a stray (packed m) ≡ ok e) × (aes_decrypt b e ≡ ok (packed m))
  packed_roundtrip a b stray [] small shared =
      aes_roundtrip base cipher a b b'e' stray (b'm' ∷ b'p' ∷ b'-' ∷ []) (omega arith) shared
  packed_roundtrip a b stray (x ∷ m) small shared =
      aes_roundtrip base cipher a b b'n' stray (b'r' ∷ b'm' ∷ b'-' ∷ x ∷ m) (omega arith) shared

  -- Between two sessions that have the same key, a message of up to 2147483642 bytes, empty or not, arrives as it was
  -- sent, and neither session changes.
  pub ready_roundtrip :
      (a b : C) (stray : ℕ) (m : Bytes)
      → length m + 5 < 2 ^ 31
      → SharesKey crypto a b
      → (e : Bytes) × (pack_and_encrypt_if_needed stray m (in_state true a)
          ≡ (ok e, in_state true a))
        × (unpack_and_decrypt_if_needed e (in_state true b) ≡ (ok m, in_state true b))
  ready_roundtrip a b stray m small shared =
      let (e, sent, got) = packed_roundtrip a b stray m small shared in
      (encrypted_message_prefix ++ e, pack_ready a stray e m sent, unpack_ready b e m got)

  -- The vector of the first message.
  abbrev pub first_vector : C → Bytes → Vector
  first_vector a m = record { content = packed m; key = crypto.aes_key a; iv = crypto.aes_iv a }

  not_empty : (a : C) (m : Bytes) → 0 < total (first_vector a m)
  not_empty a [] = omega arith
  not_empty a (x ∷ m) = omega arith

  slave_init-first :
      (a b : C) (m : Bytes)
      → 24 + total (first_vector a m) < 2 ^ 64
      → slave_init (construct (first_vector a m)) b ≡ (ok (packed m), keyed b (first_vector a m))
  unfolding slave_init
  slave_init-first a b m small =
      rw (slave_init, deconstruct-construct (first_vector a m) (not_empty a m) small) refl

  unpack_fresh :
      (a b : C) (e m : Bytes)
      → 24 + total (first_vector a m) < 2 ^ 64
      → rsa_decrypt b e ≡ ok (construct (first_vector a m))
      → unpack_and_decrypt_if_needed (encrypted_message_prefix ++ e) (in_state false b)
        ≡ (ok m, in_state true (keyed b (first_vector a m)))
  unfolding unpack_and_decrypt_if_needed decrypt
  unpack_fresh a b e m small got =
      rw (got, slave_init-first a b m small)
        (ap (λ r. (r, in_state true (keyed b (first_vector a m)))) (unpack-packed m))

  pack_fresh :
      (a : C) (stray : ℕ) (e m : Bytes)
      → rsa_encrypt a (construct (first_vector a m)) ≡ ok e
      → pack_and_encrypt_if_needed stray m (in_state false a)
        ≡ (ok (encrypted_message_prefix ++ e), in_state true a)
  unfolding pack_and_encrypt_if_needed encrypt master_init
  pack_fresh a stray e m sent = rw sent refl

  -- The first message of a session to a new session that has the private key arrives as it was
  -- sent, and from then on both sessions have the same symmetric key.
  pub first_roundtrip :
      (a b : C) (stray : ℕ) (m : Bytes)
      → KnowsKey crypto a b
      → 24 + total (first_vector a m) < 2 ^ 31
      → (e : Bytes) × (b' : C) × (pack_and_encrypt_if_needed stray m (in_state false a)
          ≡ (ok e, in_state true a))
        × (unpack_and_decrypt_if_needed e (in_state false b) ≡ (ok m, in_state true b'))
        × SharesKey crypto a b'
  first_roundtrip a b stray m knows small =
      let v = first_vector a m in
      let (e, sent, got) =
        rsa_roundtrip base a b (construct v) (omega (arith, length-construct v)) knows in
      (
        encrypted_message_prefix ++ e,
        keyed b v,
        pack_fresh a stray e m sent,
        unpack_fresh a b e m (omega arith) got,
        record { key = sym (cipher.key b v.key v.iv); iv = sym (cipher.iv b v.key v.iv) },
      )
