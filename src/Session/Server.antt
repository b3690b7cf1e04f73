-- ===== src/Session/Server.antt =====
-- `class SessionServer` (src/session/SessionServer.cpp): one session for each client of the
-- transport under it.
use asinc_roulette.Base.{ℕ, Bool, false, nat_eq, List, [], ◌∷◌, ◌++◌, none, some, map}
use asinc_roulette.Base.Map.{Map, lookup, insert, erase}
use asinc_roulette.Failure.{Result, ok, err, undefined_behaviour}
use asinc_roulette.Session.Vectors.{Bytes}
use asinc_roulette.Session.Crypto.{Crypto}
use asinc_roulette.Session.Messages.{
  Session, set_public_key, raw_message_prefix, pack_and_encrypt_if_needed,
  unpack_and_decrypt_if_needed,
}

-- `SessionServer::State`
pub data State : Type 0 where
  init ready : State

-- An entry of `clients`.
pub record Client (C : Type 0) : Type 0 where
  pub session : Session C
  pub state : State

-- "init"
abbrev pub init_message : Bytes
init_message = b'i' ∷ b'n' ∷ b'i' ∷ b't' ∷ []

pub record SessionServer (C A : Type 0) : Type 0 where
  pub clients : Map ℕ (Client C)
  -- what `TransferServer::send` to a connection ends with, and what it was given, oldest first
  pub delivers : ℕ → Result Unit
  pub sent : List (ℕ × Bytes)
  -- the connections of the transport
  pub connections : List ℕ
  -- the data of the derived class
  pub app : A

module _ {C A : Type 0} where
  -- `TransferServer::send`
  abbrev pub transfer : ℕ → Bytes → SessionServer C A → Result Unit × SessionServer C A
  transfer id message s = elim (s.delivers id) [
    | err e ↦ (err e, s)
    | ok _ ↦ (ok tt, record s { sent = s.sent ++ (id, message) ∷ [] })
  ]

  abbrev pub transfer_result :
      ℕ → Result Bytes → SessionServer C A → Result Unit × SessionServer C A
  transfer_result id (err e) s = (err e, s)
  transfer_result id (ok message) s = transfer id message s

  -- `for (auto &&id : ids) f(id);`
  unfoldable pub each :
      (ℕ → SessionServer C A → Result Unit × SessionServer C A)
      → List ℕ
      → SessionServer C A
      → Result Unit × SessionServer C A
  each f [] s = (ok tt, s)
  each f (id ∷ ids) s =
      let (r, s') = f id s in elim r [ err e ↦ (err e, s') | ok _ ↦ each f ids s' ]

  unfoldable pub raw_send : ℕ → Bytes → SessionServer C A → Result Unit × SessionServer C A
  raw_send id message s = transfer id (raw_message_prefix ++ message) s

  unfoldable pub raw_send_all : List ℕ → Bytes → SessionServer C A → Result Unit × SessionServer C A
  unfolding raw_send each
  raw_send_all ids message s = each (λ id. raw_send id message) ids s

  -- To every connection of the transport.
  unfoldable pub raw_broadcast : Bytes → SessionServer C A → Result Unit × SessionServer C A
  unfolding raw_send each
  raw_broadcast message s = each (λ id. raw_send id message) s.connections s

  -- `new_session` is what `Session()` makes.
  unfoldable pub connect_handle : Session C → ℕ → SessionServer C A → SessionServer C A
  connect_handle new_session id s = elim (lookup id s.clients) [
    | none ↦ record s {
      clients = insert id (record { session = new_session; state = init }) s.clients;
    }
    | some _ ↦ s
  ]

  unfoldable pub disconnect_handle : ℕ → SessionServer C A → SessionServer C A
  disconnect_handle id s = record s { clients = erase id s.clients }

  -- A write through the reference into `clients`.
  abbrev pub set_client : ℕ → Client C → SessionServer C A → SessionServer C A
  set_client id client s = record s { clients = insert id client s.clients }

module _ {C A : Type 0} ⦃lib : Crypto C⦄ where
  unfoldable pub send : ℕ → ℕ → Bytes → SessionServer C A → Result Unit × SessionServer C A
  unfolding pack_and_encrypt_if_needed
  send stray id message s = elim (lookup id s.clients) [
    | none ↦ (ok tt, s)
    | some client ↦
        let (r, session) = pack_and_encrypt_if_needed stray message client.session in
        transfer_result id r (set_client id (record client { session = session }) s)
  ]

  unfoldable pub send_all : ℕ → List ℕ → Bytes → SessionServer C A → Result Unit × SessionServer C A
  unfolding send each
  send_all stray ids message s = each (λ id. send stray id message) ids s

  unfoldable pub broadcast : ℕ → Bytes → SessionServer C A → Result Unit × SessionServer C A
  unfolding send each
  broadcast stray message s =
      each (λ id. send stray id message) (map (λ (en : ℕ × Client C). en.0) s.clients) s

  abbrev pub answered_false : Result Unit × SessionServer C A → Result Bool × SessionServer C A
  answered_false (err e, s) = (err e, s)
  answered_false (ok _, s) = (ok false, s)

  module _ (session_handle : ℕ → Bytes → SessionServer C A → Result Bool × SessionServer C A) where
    abbrev pub handle_decrypted :
        ℕ → ℕ → Client C → Result Bytes → SessionServer C A → Result Bool × SessionServer C A
    handle_decrypted stray id client (err e) s = (err e, s)
    handle_decrypted stray id client (ok decrypted) s = elim (client.state) [
      | init ↦
          let session = set_public_key decrypted client.session in
          answered_false (
            send stray id init_message
              (set_client id (record { session = session; state = ready }) s))
      | ready ↦ session_handle id decrypted s
    ]

    -- The code dereferences what `find` returns without a test.
    unfoldable pub handle : ℕ → ℕ → Bytes → SessionServer C A → Result Bool × SessionServer C A
    unfolding unpack_and_decrypt_if_needed send
    handle stray id message s = elim (lookup id s.clients) [
      | none ↦ (err undefined_behaviour, s)
      | some client ↦
          let (r, session) = unpack_and_decrypt_if_needed message client.session in
          let client' : Client C = record client { session = session } in
          handle_decrypted stray id client' r (set_client id client' s)
    ]
