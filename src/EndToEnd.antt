-- ===== src/EndToEnd.antt =====
-- A message from the session of a client to the handler of the server, through the socket, the task
-- of the connection and the session of the server (src/session/SessionClient.cpp,
-- src/transfer/tcp/LinuxSocket.cpp, src/transfer/tcp/TransferServer.cpp,
-- src/session/SessionServer.cpp).
pub mod Plain
pub mod Arriving
mod Tests
use asinc_roulette.Base.{
  ℕ, ◌+◌, ◌<◌, ◌≤◌, ◌^◌, ◌≡◌, refl, sym, ap, ◌∙◌, subst, Bool, true, false, nat_eq, ◌==◌, ◌&&◌,
  ◌||◌, List, [], ◌∷◌, ◌++◌, Option, none, some, Option-cases, arith, length, length-append,
  contains, inl, inr, if◌then◌else◌,
}
use mathlib.Core.List.{flatten}
use asinc_roulette.Base.Slices.{take-eq_of_length, drop-eq_of_length}
use asinc_roulette.Base.Map.{lookup, insert, lookup-insert}
use asinc_roulette.Failure.{Result, ok, err, Result-cases}
use asinc_roulette.Stateful.{Action}
use asinc_roulette.Session.Crypto.{Crypto, IsBase64, IsCipher, IsText}
use asinc_roulette.Session.Messages
use asinc_roulette.Session.Messages.{
  encrypted_message_prefix, Session, packed, pack_and_encrypt_if_needed, aes_encrypt,
  unpack_and_decrypt_if_needed,
}
use asinc_roulette.Session.Handshake.{in_state, SharesKey, ready_roundtrip}
use asinc_roulette.Session.Server
use asinc_roulette.Session.Server.{SessionServer, set_client, handle}
use asinc_roulette.Session.Client
use asinc_roulette.Session.Client.{SessionClient}
use asinc_roulette.Session.Exchange.{held, client_in, handle-ready, client_send-ready}
use asinc_roulette.Transfer.Framing.{Bytes, delimiter, find_delimiter, messages, messages-wire}
use asinc_roulette.Transfer.Tcp
use asinc_roulette.Transfer.StreamServer.State.{Connection, TransferServer}
use asinc_roulette.Transfer.StreamServer.Connections.{on_socket}
use asinc_roulette.Transfer.StreamServer.Pool.{task, finish, closes, lost, forwarded}
use asinc_roulette.Transfer.StreamServer.Draining.{pending_at, serve, task-serve}
use asinc_roulette.Transfer.StreamServer.Wire
use asinc_roulette.Transfer.StreamServer.Wire.{Wire, linux_socket, linux_IsQueue}
use asinc_roulette.EndToEnd.Plain.{find_delimiter-text, pack-text}
use asinc_roulette.EndToEnd.Arriving.{
  IsEnd, arrived, taken, update-arrived, pending-arrived, app-taken, answer-same,
}

module _ {C A : Type 0} ⦃crypto : Crypto C⦄ where
  -- The handler that a task calls: `SessionServer::handle` on the sessions of the server.
  abbrev pub relay :
      (ℕ → Bytes → SessionServer C A → Result Bool × SessionServer C A)
      → ℕ
      → ℕ
      → Bytes
      → Action (TransferServer Wire (SessionServer C A)) Bool
  relay sh stray id m t = let (r, w) = handle sh stray id m t.app in (r, record t { app = w })

module _ {C A : Type 0} ⦃crypto : Crypto C⦄
    (sh : ℕ → Bytes → SessionServer C A → Result Bool × SessionServer C A) where
  relay-keeps :
      (stray id : ℕ) (m : Bytes) (t : TransferServer Wire (SessionServer C A))
      → pending_at (λ w. w.socket.received) id (relay sh stray id m t).1
        ≡ pending_at (λ w. w.socket.received) id t
  unfolding pending_at
  relay-keeps stray id m t = refl

  relay-ready :
      (stray id : ℕ) (a : C) (e m : Bytes) (t u : TransferServer Wire (SessionServer C A))
      → u.app ≡ t.app
      → lookup id t.app.clients ≡ some (held true a Server.ready)
      → unpack_and_decrypt_if_needed e (in_state true a) ≡ (ok m, in_state true a)
      → relay sh stray id e u ≡ (
          let (r, w) = sh id m (set_client id (held true a Server.ready) t.app) in
          (r, record u { app = w }))
  relay-ready stray id a e m t u same look got =
      let back : Result Bool × SessionServer C A
          → Result Bool × TransferServer Wire (SessionServer C A) =
        λ p. (p.0, record u { app = p.1 }) in
      ap (λ w. back (handle sh stray id e w)) same
      ∙ ap back (handle-ready sh stray id a (in_state true a) e m t.app look got)

  task-relayed :
      (found : ℕ → Bytes → TransferServer Wire (SessionServer C A) → Bool) (stray id descriptor : ℕ)
      (a : C) (e m before part : Bytes) (t : TransferServer Wire (SessionServer C A))
      → find_delimiter e ≡ none
      → IsEnd e before part
      → lookup id t.app.clients ≡ some (held true a Server.ready)
      → unpack_and_decrypt_if_needed e (in_state true a) ≡ (ok m, in_state true a)
      → task (forwarded found (relay sh stray)) 2 id (arrived id descriptor before part t) ≡ (
          let t' = taken id (arrived id descriptor before part t) in
          let (r, w) = sh id m (set_client id (held true a Server.ready) t.app) in
          some (finish id (closes (lost (found id e t') r)) (record t' { app = w })))
  unfolding forwarded
  task-relayed found stray id descriptor a e m before part t plain end look got =
      let t' = arrived id descriptor before part t in
      let answer = forwarded found (relay sh stray) id e (taken id t') in
      task-serve (forwarded found (relay sh stray)) (λ w. w.socket.received) linux_IsQueue id
        (relay-keeps stray id) 2 (e ∷ []) t'
        (ap (λ (p : Result Unit × TransferServer Wire (SessionServer C A)). p.0)
          (update-arrived id descriptor e before part t plain end))
        (pending-arrived id descriptor e before part t plain end) (omega arith)
      ∙ ap
          (λ (p : Result Bool × TransferServer Wire (SessionServer C A)).
            some (finish id (closes p.0) p.1))
          (answer-same answer.0 answer.1
            ∙ ap
                (λ (p : Result Bool × TransferServer Wire (SessionServer C A)).
                  (lost (found id e (taken id t')) p.0, p.1))
                (relay-ready stray id a e m t' (taken id t') (app-taken id t') look got))

module _ {C A B : Type 0} ⦃crypto : Crypto C⦄ (base : IsBase64 crypto) (cipher : IsCipher crypto)
    (text : IsText crypto) where
  -- If a ready client packs a message of at most 2147483642 bytes as e, which is short enough for
  -- the loop of send, and shares the key of the server, then it gives e to its transport; and once
  -- the connection of the client has read what its socket gives to the system for e but for a last
  -- part that one recv brings, its next task ends in two rounds and has called session_handle with
  -- the message as it was sent, once. The connection is marked if session_handle throws; otherwise
  -- its result is lost, and whether it is marked is left to what stands in its place.
  pub message_relayed :
      (sh : ℕ → Bytes → SessionServer C A → Result Bool × SessionServer C A)
      (found : ℕ → Bytes → TransferServer Wire (SessionServer C A) → Bool)
      (stray stray' id descriptor : ℕ) (a b : C) (m e before part : Bytes)
      (t : TransferServer Wire (SessionServer C A)) (c : SessionClient C B)
      → length m + 5 < 2 ^ 31
      → SharesKey crypto b a
      → lookup id t.app.clients ≡ some (held true a Server.ready)
      → c.delivers ≡ ok tt
      → pack_and_encrypt_if_needed stray m (in_state true b) ≡ (ok e, in_state true b)
      → Tcp.Fits e
      → before ++ part ≡ flatten (Tcp.send e)
      → 1 ≤ length part
      → length part ≤ Tcp.buffer_size
      → (Client.send stray m (client_in true b Client.ready c)
          ≡ (ok tt, record (client_in true b Client.ready c) { sent = c.sent ++ e ∷ [] }))
        × (task (forwarded found (relay sh stray')) 2 id (arrived id descriptor before part t) ≡ (
            let t' = taken id (arrived id descriptor before part t) in
            let (r, w) = sh id m (set_client id (held true a Server.ready) t.app) in
            some (finish id (closes (lost (found id e t') r)) (record t' { app = w }))))
  message_relayed sh found stray stray' id descriptor a b m e before part t c small shared look
        takes packs fits bytes some_byte at_once =
      let (e', packs', got) = ready_roundtrip base cipher b a stray m small shared in
      let same : ok e' ≡ ok e = ap (λ (p : Result Bytes × Session C). p.0) (sym packs' ∙ packs) in
      let equal : e' ≡ e = ground (arith, same) in
      (
        client_send-ready stray b e m c packs takes,
        task-relayed sh found stray' id descriptor a e m before part t
            (find_delimiter-text e (pack-text text b stray m e packs))
            (record {
              whole = bytes ∙ Tcp.flatten-send e fits;
              some_byte = some_byte;
              at_once = at_once;
            })
            look
            (subst
              (λ (x : Bytes).
                unpack_and_decrypt_if_needed x (in_state true a) ≡ (ok m, in_state true a))
              equal got),
      )
