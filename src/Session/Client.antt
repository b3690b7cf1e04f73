-- ===== src/Session/Client.antt =====
-- `class SessionClient` (src/session/SessionClient.cpp): the session of a client and the states of
-- its handshake.
use asinc_roulette.Base.{ℕ, Bool, true, false, nat_eq, List, [], ◌∷◌, ◌++◌, ◌==◌, if◌then◌else◌}
use asinc_roulette.Failure.{Result, ok, err, input_before_key, wrong_initial_message}
use asinc_roulette.Session.Vectors.{Bytes}
use asinc_roulette.Session.Crypto.{Crypto}
use asinc_roulette.Session.Messages.{
  Session, public_key, raw_message_prefix, pack_and_encrypt_if_needed, unpack_and_decrypt_if_needed,
}
use asinc_roulette.Session.Server.{init_message}

-- `SessionClient::State`
pub data State : Type 0 where
  init wait ready : State

pub record SessionClient (C A : Type 0) : Type 0 where
  pub session : Session C
  pub state : State
  -- what `TransferClient::send` ends with, and what it was given, oldest first
  pub delivers : Result Unit
  pub sent : List Bytes
  -- the data of the derived class
  pub app : A

-- `a == b` of two strings
abbrev pub same_bytes : Bytes → Bytes → Bool
same_bytes [] [] = true
same_bytes [] (y ∷ b) = false
same_bytes (x ∷ a) [] = false
same_bytes (x ∷ a) (y ∷ b) = if x == y then same_bytes a b else false

module _ {C A : Type 0} where
  abbrev pub transfer_result : Result Bytes → SessionClient C A → Result Unit × SessionClient C A
  transfer_result (err e) c = (err e, c)
  transfer_result (ok message) c = elim (c.delivers) [
    | err e ↦ (err e, c)
    | ok _ ↦ (ok tt, record c { sent = c.sent ++ message ∷ [] })
  ]

  unfoldable pub raw_send : Bytes → SessionClient C A → Result Unit × SessionClient C A
  raw_send message c = transfer_result (ok (raw_message_prefix ++ message)) c

module _ {C A : Type 0} ⦃lib : Crypto C⦄ where
  unfoldable pub send : ℕ → Bytes → SessionClient C A → Result Unit × SessionClient C A
  unfolding pack_and_encrypt_if_needed
  send stray message c =
      let (r, session) = pack_and_encrypt_if_needed stray message c.session in
      transfer_result r (record c { session = session })

  abbrev pub send_key : Result Bytes → SessionClient C A → Result Unit × SessionClient C A
  unfolding raw_send
  send_key (err e) c = (err e, c)
  send_key (ok key) c = raw_send key c

  unfoldable pub output :
      (SessionClient C A → Result Unit × SessionClient C A)
      → SessionClient C A
      → Result Unit × SessionClient C A
  unfolding public_key raw_send
  output session_output c = elim (c.state) [
    | init ↦ send_key (public_key c.session) (record c { state = wait })
    | wait ↦ (ok tt, c)
    | ready ↦ session_output c
  ]

  module _ (session_input : Bytes → SessionClient C A → Result Unit × SessionClient C A) where
    abbrev pub input_decrypted : Result Bytes → SessionClient C A → Result Unit × SessionClient C A
    input_decrypted (err e) c = (err e, c)
    input_decrypted (ok decrypted) c = elim (c.state) [
      | init ↦ (ok tt, c)
      | wait ↦
          let c' : SessionClient C A = record c { state = ready } in
          if same_bytes decrypted init_message then (ok tt, c') else (err wrong_initial_message, c')
      | ready ↦ session_input decrypted c
    ]

    unfoldable pub input : Bytes → SessionClient C A → Result Unit × SessionClient C A
    unfolding unpack_and_decrypt_if_needed
    input message c = elim (c.state) [
      | init ↦ (err input_before_key, c)
      | wait ↦
          let (r, session) = unpack_and_decrypt_if_needed message c.session in
          input_decrypted r (record c { session = session })
      | ready ↦
          let (r, session) = unpack_and_decrypt_if_needed message c.session in
          input_decrypted r (record c { session = session })
    ]
