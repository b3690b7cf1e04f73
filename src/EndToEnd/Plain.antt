-- ===== src/EndToEnd/Plain.antt =====
-- An encrypted message has no delimiter in it (src/session/Session.cpp,
-- src/transfer/tcp/LinuxSocket.cpp).
use asinc_roulette.Base.{
  ℕ, ◌≡◌, refl, sym, ap, ◌∙◌, subst, true, false, nat_eq, [], ◌∷◌, ◌++◌, none, Option-cases, arith,
  contains, inl, inr,
}
use asinc_roulette.Failure.{Result, ok, err, Result-cases}
use asinc_roulette.Session.Crypto.{Crypto, IsText}
use asinc_roulette.Session.Messages
use asinc_roulette.Session.Messages.{
  encrypted_message_prefix, Session, packed, pack_and_encrypt_if_needed, aes_encrypt,
  unpack_and_decrypt_if_needed,
}
use asinc_roulette.Session.Handshake.{in_state}
use asinc_roulette.Transfer.Framing.{Bytes, find_delimiter}
use asinc_roulette.Transfer.StreamServer.Wire.{linux_socket}

-- Where there is no carriage return there is no delimiter.
pub find_delimiter-text : (m : Bytes) → contains b'\r' m ≡ false → find_delimiter m ≡ none
unfolding find_delimiter contains
find_delimiter-text [] h = refl
find_delimiter-text (x ∷ []) h = refl
find_delimiter-text (x ∷ y ∷ m) h = ground (
  arith,
  nat_eq.beq_iff b'\r' x,
  nat_eq.beq_iff x b'\r',
  find_delimiter-text (y ∷ m) (ground arith),
)

module _ {C : Type 0} ⦃crypto : Crypto C⦄ (text : IsText crypto) where
  aes-text :
      (a : C) (stray : ℕ) (x y : Bytes) → aes_encrypt a stray x ≡ ok y → contains b'\r' y ≡ false
  unfolding aes_encrypt
  aes-text a stray x y encrypts = elim (Option-cases (crypto.aes_encrypt a (x ++ stray ∷ []))) [
    | inl fails ↦ absurd (ground (arith, encrypts))
    | inr (b, good) ↦
        let same : crypto.base64_encode b ≡ y = ground arith in
        subst (λ (z : Bytes). contains b'\r' z ≡ false) same (text.no_return b)
  ]

  pub pack-text :
      (a : C) (stray : ℕ) (m e : Bytes)
      → pack_and_encrypt_if_needed stray m (in_state true a) ≡ (ok e, in_state true a)
      → contains b'\r' e ≡ false
  unfolding pack_and_encrypt_if_needed contains
  pack-text a stray m e packs =
      let sent : Messages.prefixed (aes_encrypt a stray (packed m)) ≡ ok e =
        ap (λ (p : Result Bytes × Session C). p.0) packs in
      elim (Result-cases (aes_encrypt a stray (packed m))) [
        | inl (y, encrypts) ↦
            let same : ok (encrypted_message_prefix ++ y) ≡ ok e =
              ap Messages.prefixed (sym encrypts) ∙ sent in
            let equal : encrypted_message_prefix ++ y ≡ e = ground (arith, same) in
            subst (λ (z : Bytes). contains b'\r' z ≡ false) equal
              (ground (arith, aes-text a stray (packed m) y encrypts))
        | inr (x, fails) ↦
            let same : err x ≡ ok e = ap Messages.prefixed (sym fails) ∙ sent in
            absurd (ground (arith, same))
      ]
