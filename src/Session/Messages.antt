-- ===== src/Session/Messages.antt =====
-- `class Session` (src/session/Session.cpp, src/session/config.h; `drop` of src/session/strings.h).
use asinc_roulette.Base.{
  ℕ, Bool, true, false, [], ◌∷◌, ◌++◌, Option, none, some, length, take, drop, ◌==◌, nat_eq,
  if◌then◌else◌,
}
use asinc_roulette.Failure.{
  Result, ok, err, encryption_failed, decryption_failed, undefined_message, length_error,
  no_public_key,
}
use asinc_roulette.Session.Vectors.{Bytes, Vector, construct, deconstruct}
use asinc_roulette.Session.Crypto.{Crypto}

-- "raw-", "enc-", "emp-" and "nrm-"
abbrev pub raw_message_prefix : Bytes
raw_message_prefix = b'r' ∷ b'a' ∷ b'w' ∷ b'-' ∷ []

abbrev pub encrypted_message_prefix : Bytes
encrypted_message_prefix = b'e' ∷ b'n' ∷ b'c' ∷ b'-' ∷ []

abbrev pub empty_message_prefix : Bytes
empty_message_prefix = b'e' ∷ b'm' ∷ b'p' ∷ b'-' ∷ []

abbrev pub normal_message_prefix : Bytes
normal_message_prefix = b'n' ∷ b'r' ∷ b'm' ∷ b'-' ∷ []

-- `message.find(prefix) == 0`
abbrev pub starts : Bytes → Bytes → Bool
starts [] message = true
starts (p ∷ prefix) [] = false
starts (p ∷ prefix) (x ∷ message) = if p == x then starts prefix message else false

unfoldable pub unpack : Bytes → Result Bytes
unpack message =
    if starts empty_message_prefix message
    then ok (drop 4 message)
    else if starts normal_message_prefix message
    then ok (drop 4 message)
    else err undefined_message

abbrev unpacked : Result Bytes → Result Bytes
unpacked (err e) = err e
unpacked (ok message) = unpack message

abbrev pub prefixed : Result Bytes → Result Bytes
prefixed (err e) = err e
prefixed (ok e) = ok (encrypted_message_prefix ++ e)

abbrev pub packed : Bytes → Bytes
packed [] = empty_message_prefix
packed (x ∷ message) = normal_message_prefix ++ x ∷ message

-- `state` is `READY` once a message was encrypted or decrypted.
pub record Session (C : Type 0) : Type 0 where
  pub crypto : C
  pub ready : Bool

module _ {C : Type 0} ⦃lib : Crypto C⦄ where
  unfoldable pub public_key : Session C → Result Bytes
  public_key s = elim (lib.remote_public_key s.crypto) [
    | none ↦ err no_public_key
    | some key ↦ ok key
  ]

  abbrev pub set_public_key : Bytes → Session C → Session C
  set_public_key key s = record s { crypto = lib.set_remote_public_key s.crypto key }

  abbrev encrypted : C → Option Vector → Result Bytes
  encrypted c none = err encryption_failed
  encrypted c (some v) = ok (lib.base64_encode (construct v))

  unfoldable pub rsa_encrypt : C → Bytes → Result Bytes
  rsa_encrypt c message = encrypted c (lib.rsa_encrypt c message)

  abbrev pub decrypted : C → Result Vector → Result Bytes
  decrypted c (err e) = err e
  decrypted c (ok v) = elim (lib.rsa_decrypt c v) [ none ↦ err decryption_failed | some b ↦ ok b ]

  unfoldable pub rsa_decrypt : C → Bytes → Result Bytes
  rsa_decrypt c message = decrypted c (deconstruct (lib.base64_decode message))

  -- One byte more than the message is encrypted: what happens to stand behind it.
  unfoldable pub aes_encrypt : C → ℕ → Bytes → Result Bytes
  aes_encrypt c stray message = elim (lib.aes_encrypt c (message ++ stray ∷ [])) [
    | none ↦ err encryption_failed
    | some e ↦ ok (lib.base64_encode e)
  ]

  -- The last byte is dropped again. The test for `FAILURE` comes after the subtraction: it takes
  -- an empty text for a failure, and a failure for a length below zero.
  unfoldable pub aes_decrypt : C → Bytes → Result Bytes
  aes_decrypt c message = elim (lib.aes_decrypt c (lib.base64_decode message)) [
    | none ↦ err length_error
    | some [] ↦ err decryption_failed
    | some (x ∷ b) ↦ ok (take (length b) (x ∷ b))
  ]

  unfoldable pub master_init : C → Bytes → Bytes
  master_init c message =
      construct (record { content = message; key = lib.aes_key c; iv = lib.aes_iv c })

  abbrev pub keyed : C → Vector → C
  keyed c v = lib.set_aes_iv (lib.set_aes_key c v.key) v.iv

  unfoldable pub slave_init : Bytes → C → Result Bytes × C
  slave_init key c = elim (deconstruct key) [
    | err e ↦ (err e, c)
    | ok v ↦ (ok v.content, keyed c v)
  ]

  unfoldable pub encrypt : ℕ → Bytes → Session C → Result Bytes × Session C
  unfolding rsa_encrypt aes_encrypt master_init
  encrypt stray message s =
      if s.ready
      then (aes_encrypt s.crypto stray message, s)
      else (rsa_encrypt s.crypto (master_init s.crypto message), record s { ready = true })

  abbrev opened : Result Bytes → Session C → Result Bytes × Session C
  opened (err e) s = (err e, s)
  opened (ok key) s = let (r, c) = slave_init key s.crypto in (r, record s { crypto = c })

  unfoldable pub decrypt : Bytes → Session C → Result Bytes × Session C
  unfolding rsa_decrypt aes_decrypt slave_init
  decrypt message s =
      if s.ready
      then (aes_decrypt s.crypto message, s)
      else opened (rsa_decrypt s.crypto message) (record s { ready = true })

  unfoldable pub unpack_and_decrypt_if_needed : Bytes → Session C → Result Bytes × Session C
  unfolding decrypt unpack
  unpack_and_decrypt_if_needed message s =
      let (r, s') = decrypt (drop 4 message) s in
      if starts raw_message_prefix message
      then (ok (drop 4 message), s)
      else if starts encrypted_message_prefix message
      then (unpacked r, s')
      else (err undefined_message, s)

  unfoldable pub pack_and_encrypt_if_needed : ℕ → Bytes → Session C → Result Bytes × Session C
  unfolding encrypt
  pack_and_encrypt_if_needed stray message s =
      let (r, s') = encrypt stray (packed message) s in (prefixed r, s')
