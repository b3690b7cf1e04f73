-- ===== src/Session/Exchange.antt =====
-- A session server and a session client that talk to each other (src/session/SessionServer.cpp,
-- src/session/SessionClient.cpp).
use asinc_roulette.Base.{
  ℕ, ◌≡◌, refl, ap, ◌∙◌, Bool, true, false, nat_eq, [], ◌∷◌, ◌++◌, ◌==◌, some, arith,
}
use asinc_roulette.Base.Map.{lookup, lookup-insert}
use asinc_roulette.Failure.{Result, ok}
use asinc_roulette.Session.Vectors.{Bytes}
use asinc_roulette.Session.Crypto.{Crypto}
use asinc_roulette.Session.Messages.{
  Session, raw_message_prefix, public_key, pack_and_encrypt_if_needed, unpack_and_decrypt_if_needed,
}
use asinc_roulette.Session.Handshake.{in_state}
use asinc_roulette.Session.Server
use asinc_roulette.Session.Server.{SessionServer, init_message, set_client, handle}
use asinc_roulette.Session.Client
use asinc_roulette.Session.Client.{SessionClient, output, input}

-- What the server holds of a client.
abbrev pub held : {C : Type 0} → Bool → C → Server.State → Server.Client C
held ready a state = record { session = in_state ready a; state = state }

-- A client in a state.
abbrev pub client_in :
    {C A : Type 0} → Bool → C → Client.State → SessionClient C A → SessionClient C A
client_in ready b state c = record c { session = in_state ready b; state = state }

-- The entry of one client changes, and those of the others do not.
pub record Holds {C B : Type 0} (id : ℕ) (client : Server.Client C) (s t : SessionServer C B)
    : Type 0 where
  pub entry : lookup id t.clients ≡ some client
  pub others : (j : ℕ) → (j == id) ≡ false → lookup j t.clients ≡ lookup j s.clients

module _ {C : Type 0} ⦃crypto : Crypto C⦄ where
  pub unpack-raw :
      (m : Bytes) (s : Session C)
      → unpack_and_decrypt_if_needed (raw_message_prefix ++ m) s ≡ (ok m, s)
  unfolding unpack_and_decrypt_if_needed
  unpack-raw m s = refl

module _ {C A : Type 0} ⦃crypto : Crypto C⦄ where
  pub send-some :
      (stray id : ℕ) (m e : Bytes) (client : Server.Client C) (x : Session C)
      (s : SessionServer C A)
      → lookup id s.clients ≡ some client
      → pack_and_encrypt_if_needed stray m client.session ≡ (ok e, x)
      → s.delivers id ≡ ok tt
      → Server.send stray id m s ≡ (
        ok tt,
        record (set_client id (record client { session = x }) s) { sent = s.sent ++ (id, e) ∷ [] },
      )
  unfolding Server.send
  send-some stray id m e client x s look packs delivers =
      let s' = set_client id (record client { session = x }) s in
      let gave : Server.transfer id e s' ≡ (ok tt, record s' { sent = s.sent ++ (id, e) ∷ [] }) =
        rw (Server.transfer, delivers) refl in
      rw (Server.send, look)
        (ap
            (λ (p : Result Bytes × Session C).
              Server.transfer_result id p.0 (set_client id (record client { session = p.1 }) s))
            packs
          ∙ gave)

  -- The client's entry once its public key came in.
  abbrev pub keyed_client : ℕ → C → Bytes → SessionServer C A → SessionServer C A
  keyed_client id a key s =
      set_client id (held false (crypto.set_remote_public_key a key) Server.ready)
        (set_client id (held false a Server.init) s)

  pub handle-raw_key :
      (sh : ℕ → Bytes → SessionServer C A → Result Bool × SessionServer C A) (stray id : ℕ) (a : C)
      (key : Bytes) (s : SessionServer C A)
      → lookup id s.clients ≡ some (held false a Server.init)
      → handle sh stray id (raw_message_prefix ++ key) s
        ≡ Server.answered_false (Server.send stray id init_message (keyed_client id a key s))
  unfolding handle unpack_and_decrypt_if_needed
  handle-raw_key sh stray id a key s look = rw (handle, look) refl

  pub handle-ready :
      (sh : ℕ → Bytes → SessionServer C A → Result Bool × SessionServer C A) (stray id : ℕ) (a : C)
      (x : Session C) (e m : Bytes) (s : SessionServer C A)
      → lookup id s.clients ≡ some (held true a Server.ready)
      → unpack_and_decrypt_if_needed e (in_state true a) ≡ (ok m, x)
      → handle sh stray id e s
        ≡ sh id m (set_client id (record { session = x; state = Server.ready }) s)
  unfolding handle
  handle-ready sh stray id a x e m s look got = rw (handle, look, got) refl

  pub output-init :
      (so : SessionClient C A → Result Unit × SessionClient C A) (b : C) (key : Bytes)
      (c : SessionClient C A)
      → crypto.remote_public_key b ≡ some key
      → c.delivers ≡ ok tt
      → output so (client_in false b Client.init c) ≡ (
        ok tt,
        record (client_in false b Client.wait c) {
          sent = c.sent ++ (raw_message_prefix ++ key) ∷ [];
        },
      )
  unfolding output Client.raw_send public_key
  output-init so b key c has delivers = rw (output, public_key, has, delivers) refl

  pub input-wait :
      (si : Bytes → SessionClient C A → Result Unit × SessionClient C A) (b b' : C) (e : Bytes)
      (c : SessionClient C A)
      → unpack_and_decrypt_if_needed e (in_state false b) ≡ (ok init_message, in_state true b')
      → input si e (client_in false b Client.wait c) ≡ (ok tt, client_in true b' Client.ready c)
  unfolding input
  input-wait si b b' e c got = rw got refl

  pub input-ready :
      (si : Bytes → SessionClient C A → Result Unit × SessionClient C A) (b : C) (e m : Bytes)
      (c : SessionClient C A)
      → unpack_and_decrypt_if_needed e (in_state true b) ≡ (ok m, in_state true b)
      → input si e (client_in true b Client.ready c) ≡ si m (client_in true b Client.ready c)
  unfolding input
  input-ready si b e m c got = rw got refl

  pub client_send-ready :
      (stray : ℕ) (b : C) (e m : Bytes) (c : SessionClient C A)
      → pack_and_encrypt_if_needed stray m (in_state true b) ≡ (ok e, in_state true b)
      → c.delivers ≡ ok tt
      → Client.send stray m (client_in true b Client.ready c)
        ≡ (ok tt, record (client_in true b Client.ready c) { sent = c.sent ++ e ∷ [] })
  unfolding Client.send
  client_send-ready stray b e m c packs delivers =
      let c' = client_in true b Client.ready c in
      let gave : Client.transfer_result (ok e) c' ≡ (ok tt, record c' { sent = c.sent ++ e ∷ [] }) =
        rw delivers refl in
      ap
        (λ (p : Result Bytes × Session C). Client.transfer_result p.0 (record c' { session = p.1 }))
        packs
      ∙ gave

  pub set_client-Holds :
      (id : ℕ) (client : Server.Client C) (s t : SessionServer C A)
      → ((j : ℕ) → (j == id) ≡ false → lookup j t.clients ≡ lookup j s.clients)
      → Holds id client s (set_client id client t)
  set_client-Holds id client s t others = record {
    entry = ground (arith, lookup-insert id id client t.clients);
    others = λ j ne. ground (arith, lookup-insert id j client t.clients, others j ne);
  }

  -- What the server is like once it has answered a public key with `e`.
  abbrev pub after_key : ℕ → C → Bytes → Bytes → SessionServer C A → SessionServer C A
  after_key id a key e s =
      let s' = keyed_client id a key s in
      record (set_client id (held true (crypto.set_remote_public_key a key) Server.ready) s') {
        sent = s.sent ++ (id, e) ∷ [];
      }

  pub after_key-Holds :
      (id : ℕ) (a : C) (key e : Bytes) (s : SessionServer C A)
      → Holds id
          (held true (crypto.set_remote_public_key a key) Server.ready)
          s
          (after_key id a key e s)
  after_key-Holds id a key e s = record {
    entry = ground (
      arith,
      lookup-insert id id (held true (crypto.set_remote_public_key a key) Server.ready)
          (keyed_client id a key s).clients,
    );
    others = λ j ne. ground (
      arith,
      lookup-insert id j (held true (crypto.set_remote_public_key a key) Server.ready)
          (keyed_client id a key s).clients,
      lookup-insert id j (held false (crypto.set_remote_public_key a key) Server.ready)
          (set_client id (held false a Server.init) s).clients,
      lookup-insert id j (held false a Server.init) s.clients,
    );
  }

  pub handle-key :
      (sh : ℕ → Bytes → SessionServer C A → Result Bool × SessionServer C A) (stray id : ℕ) (a : C)
      (key e : Bytes) (s : SessionServer C A)
      → lookup id s.clients ≡ some (held false a Server.init)
      → pack_and_encrypt_if_needed stray init_message
          (in_state false (crypto.set_remote_public_key a key))
        ≡ (ok e, in_state true (crypto.set_remote_public_key a key))
      → s.delivers id ≡ ok tt
      → handle sh stray id (raw_message_prefix ++ key) s ≡ (ok false, after_key id a key e s)
  handle-key sh stray id a key e s look packs delivers =
      let a' = crypto.set_remote_public_key a key in
      let s' = keyed_client id a key s in
      handle-raw_key sh stray id a key s look
      ∙ ap Server.answered_false (
          send-some stray id init_message e (held false a' Server.ready) (in_state true a') s'
            (ground (
              arith,
              lookup-insert id id (held false a' Server.ready)
                  (set_client id (held false a Server.init) s).clients,
            ))
            packs delivers)
