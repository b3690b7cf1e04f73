-- ===== src/Session/Conversation.antt =====
-- The handshake and the messages after it (src/session/SessionServer.cpp,
-- src/session/SessionClient.cpp).
use asinc_roulette.Base.{
  ℕ, ◌+◌, ◌≤◌, ◌<◌, ◌^◌, ◌≡◌, refl, sym, ◌∙◌, Bool, true, false, nat_eq, [], ◌∷◌, ◌++◌, some, arith,
  length,
}
use asinc_roulette.Base.Map.{lookup}
use asinc_roulette.Failure.{Result, ok}
use asinc_roulette.Session.Vectors.{Bytes}
use asinc_roulette.Session.Crypto.{Crypto, IsBase64, IsCipher, IsKeyPair}
use asinc_roulette.Session.Messages.{raw_message_prefix}
use asinc_roulette.Session.Handshake.{in_state, SharesKey, first_roundtrip, ready_roundtrip}
use asinc_roulette.Session.Server
use asinc_roulette.Session.Server.{SessionServer, init_message, set_client, handle}
use asinc_roulette.Session.Client
use asinc_roulette.Session.Client.{SessionClient, output, input}
use asinc_roulette.Session.Exchange.{
  held, client_in, Holds, unpack-raw, after_key, after_key-Holds, handle-key, send-some,
  handle-ready, output-init, input-wait, input-ready, client_send-ready,
}

module _ {C A B : Type 0} ⦃crypto : Crypto C⦄ (base : IsBase64 crypto)
    (cipher : IsCipher crypto) where
  -- A new client and a server that has just entered it under an id: if the client's key pair
  -- exists, both transports take the messages and the server's symmetric key and its vector have
  -- at most 512 bytes each, the client's first output is its public key,
  -- the server answers it and stays connected, and the answer makes the client ready. Then both
  -- have the same symmetric key, and the entries of other clients are as before.
  pub handshake :
      (keys : IsKeyPair crypto)
      (sh : ℕ → Bytes → SessionServer C A → Result Bool × SessionServer C A)
      (so : SessionClient C B → Result Unit × SessionClient C B)
      (si : Bytes → SessionClient C B → Result Unit × SessionClient C B) (stray id : ℕ) (a b : C)
      (key : Bytes) (s : SessionServer C A) (c : SessionClient C B)
      → crypto.remote_public_key b ≡ some key
      → lookup id s.clients ≡ some (held false a Server.init)
      → s.delivers id ≡ ok tt
      → c.delivers ≡ ok tt
      → length (crypto.aes_key (crypto.set_remote_public_key a key)) ≤ 512
      → length (crypto.aes_iv (crypto.set_remote_public_key a key)) ≤ 512
      → (e : Bytes) × (b' : C) × (t : SessionServer C A) × (output so
            (client_in false b Client.init c)
          ≡ (
            ok tt,
            record (client_in false b Client.wait c) {
              sent = c.sent ++ (raw_message_prefix ++ key) ∷ [];
            },
          ))
        × (handle sh stray id (raw_message_prefix ++ key) s ≡ (ok false, t))
        × Holds id (held true (crypto.set_remote_public_key a key) Server.ready) s t
        × (t.sent ≡ s.sent ++ (id, e) ∷ [])
        × (input si e (client_in false b Client.wait c) ≡ (ok tt, client_in true b' Client.ready c))
        × SharesKey crypto (crypto.set_remote_public_key a key) b'
  handshake keys sh so si stray id a b key s c has look delivers takes few_key few_iv =
      let a' = crypto.set_remote_public_key a key in
      let (e, b', packs, got, shared) =
        first_roundtrip base cipher a' b stray init_message (keys.exchange a b key has)
          (omega arith) in
      (
        e,
        b',
        after_key id a key e s,
        output-init so b key c has takes,
        handle-key sh stray id a key e s look packs delivers,
        after_key-Holds id a key e s,
        refl,
        input-wait si b b' e c got,
        shared,
      )

  -- A message of the server to a ready client that has its key reaches session_input as it was
  -- sent, if it has at most 2147483642 bytes and the transport takes it, and is sent to that
  -- client alone.
  pub server_message_arrives :
      (si : Bytes → SessionClient C B → Result Unit × SessionClient C B) (stray id : ℕ) (a b : C)
      (m : Bytes) (s : SessionServer C A) (c : SessionClient C B)
      → length m + 5 < 2 ^ 31
      → SharesKey crypto a b
      → lookup id s.clients ≡ some (held true a Server.ready)
      → s.delivers id ≡ ok tt
      → (e : Bytes) × (Server.send stray id m s ≡ (
        ok tt,
        record (set_client id (held true a Server.ready) s) { sent = s.sent ++ (id, e) ∷ [] },
      ))
        × (input si e (client_in true b Client.ready c) ≡ si m (client_in true b Client.ready c))
  server_message_arrives si stray id a b m s c small shared look delivers =
      let (e, packs, got) = ready_roundtrip base cipher a b stray m small shared in
      (
        e,
        send-some stray id m e (held true a Server.ready) (in_state true a) s look packs delivers,
        input-ready si b e m c got,
      )

  -- If a ready client shares the key of the server and the transport takes what it sends, then a
  -- message of at most 2147483642 bytes that it sends encrypted, and the same message without
  -- encryption behind the prefix of such messages, sent by whoever can, make the server do the same
  -- with the same result.
  pub raw_message_handled :
      (sh : ℕ → Bytes → SessionServer C A → Result Bool × SessionServer C A) (stray stray' id : ℕ)
      (a b : C) (m : Bytes) (s : SessionServer C A) (c : SessionClient C B)
      → length m + 5 < 2 ^ 31
      → SharesKey crypto b a
      → lookup id s.clients ≡ some (held true a Server.ready)
      → c.delivers ≡ ok tt
      → (e : Bytes) × (Client.send stray m (client_in true b Client.ready c)
          ≡ (ok tt, record (client_in true b Client.ready c) { sent = c.sent ++ e ∷ [] }))
        × (handle sh stray' id (raw_message_prefix ++ m) s ≡ handle sh stray' id e s)
  raw_message_handled sh stray stray' id a b m s c small shared look takes =
      let (e, packs, got) = ready_roundtrip base cipher b a stray m small shared in
      (
        e,
        client_send-ready stray b e m c packs takes,
        handle-ready sh stray' id a (in_state true a) (raw_message_prefix ++ m) m s look
              (unpack-raw m (in_state true a))
            ∙ sym (handle-ready sh stray' id a (in_state true a) e m s look got),
      )
