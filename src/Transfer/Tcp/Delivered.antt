-- ===== src/Transfer/Tcp/Delivered.antt =====
-- Messages from one stream socket to another over what the systems do
-- (src/transfer/tcp/LinuxSocket.cpp, `send`, `update`).
use asinc_roulette.Base.{
  ℕ, zero, suc, ◌+◌, ◌-◌, ◌%◌, ◌^◌, ◌<◌, ◌≡◌, refl, sym, ap, ◌∙◌, false, List, [], ◌∷◌, ◌++◌, none,
  some, arith, map, length, take, drop, ltb, nat_eq, All, Bool-cases, inl, inr, if◌then◌else◌,
}
use Prim.Native.Nat.{min}
use mathlib.Core.List.{append_assoc, append-nil, flatten}
use asinc_roulette.Base.Int.{pos, leb_ℤ}
use asinc_roulette.Base.Slices.{length-drop}
use asinc_roulette.Failure.{Result, ok, err, socket_error}
use asinc_roulette.Stateful.{Action, continue, for_each}
use asinc_roulette.Transfer.Framing.{Bytes, delimiter, find_delimiter}
use asinc_roulette.Transfer.System.{System}
use asinc_roulette.Transfer.Tcp
use asinc_roulette.Transfer.Tcp.{
  Socket, Fits, fresh, buffer_size, send_loop, substr, updates, stream_roundtrip,
}
use asinc_roulette.Transfer.Tcp.Calls.{Endpoint, receive_chunk, update, send_chunk, send, on_queue}

abbrev HasBytes : Bytes → Type 0
HasBytes [] = ⊥
HasBytes (b ∷ bs) = Unit

HasBytes-take :
    (n : ℕ) (xs : Bytes) → 0 < n → 0 < length xs → (0 < length (take n xs)) × HasBytes (take n xs)
HasBytes-take zero xs h k = absurd (omega arith)
HasBytes-take (suc n) [] h k = absurd (omega arith)
HasBytes-take (suc n) (x ∷ xs) h k = (omega arith, tt)

-- No chunk that `send` makes is empty.
chunks-HasBytes : (fuel left : ℕ) (message : Bytes) → All HasBytes (send_loop fuel left message)
unfolding send_loop
chunks-HasBytes zero left message = tt
chunks-HasBytes (suc fuel) left message = elim (Bool-cases (ltb left (length message))) [
  | inr done ↦ rw done tt
  | inl more ↦
      let right = min (left + buffer_size) (length message) in
      let (there, _) =
        HasBytes-take right (drop left message) (ground arith)
          (ground (arith, length-drop left message)) in
      let (_, chunk) =
        HasBytes-take (right - left) (substr left right message) (ground arith) there in
      rw more (chunk, chunks-HasBytes fuel ((left + buffer_size) % 2 ^ 32) message)
]

-- A system that takes all bytes of a `send`, as it does for a socket that blocks; `sent` is what it
-- has taken for the descriptor.
pub record TakesAll {W : Type 0} (sys : System W) (d : ℕ) (sent : W → Bytes) : Type 0 where
  pub takes : (b : ℕ) (bs : Bytes) (w : W) → (sys.send d (b ∷ bs) w).0 ≡ pos (suc (length bs))
  pub appends : (m : Bytes) (w : W) → sent (sys.send d m w).1 ≡ sent w ++ m

module _ {W : Type 0} ⦃sys : System W⦄ (d : ℕ) (sent : W → Bytes) (all : TakesAll sys d sent) where
  abbrev Sent : Bytes → Endpoint W → Result Unit × Endpoint W → Type 0
  Sent bytes e p =
      (p.0 ≡ ok tt) × (sent p.1.system ≡ sent e.system ++ bytes) × (p.1.socket.descriptor ≡ d)

  send_chunk-Sent :
      (chunk : Bytes) (e : Endpoint W)
      → HasBytes chunk
      → e.socket.descriptor ≡ d
      → Sent chunk e (send_chunk chunk e)
  unfolding send_chunk
  send_chunk-Sent [] e h same = absurd h
  send_chunk-Sent (b ∷ bs) e h same =
      let takes = ap (λ d'. (sys.send d' (b ∷ bs) e.system).0) same ∙ all.takes b bs e.system in
      let more : leb_ℤ (pos (suc (length bs))) (pos 0) ≡ false = ground arith in
      (
        ap (λ z. if leb_ℤ z (pos 0) then err socket_error else ok tt) takes
            ∙ ap (λ c. if c then err socket_error else ok tt) more,
        ap (λ d'. sent (sys.send d' (b ∷ bs) e.system).1) same ∙ all.appends (b ∷ bs) e.system,
        same,
      )

  sends-Sent :
      (chunks : List Bytes) (e : Endpoint W)
      → All HasBytes chunks
      → e.socket.descriptor ≡ d
      → Sent (flatten chunks) e (for_each send_chunk chunks e)
  unfolding for_each flatten
  sends-Sent [] e h same = (refl, sym (append-nil (sent e.system)), same)
  sends-Sent (chunk ∷ chunks) e h same =
      let (finished, took, there) = send_chunk-Sent chunk e h.0 same in
      let (rest, taken, kept) = sends-Sent chunks (send_chunk chunk e).1 h.1 there in
      rw finished (
        rest,
        taken
            ∙ ap (λ xs. xs ++ flatten chunks) took
            ∙ append_assoc (sent e.system) chunk (flatten chunks),
        kept,
      )

  send-Sent :
      (m : Bytes) (e : Endpoint W)
      → e.socket.descriptor ≡ d
      → Sent (flatten (Tcp.send m)) e (send m e)
  unfolding send Tcp.send
  send-Sent m e same =
      let framed = m ++ delimiter in
      sends-Sent (Tcp.send m) e (chunks-HasBytes (length framed) 0 framed) same

  messages-Sent :
      (ms : List Bytes) (e : Endpoint W)
      → e.socket.descriptor ≡ d
      → Sent (flatten (map (λ m. flatten (Tcp.send m)) ms)) e (for_each send ms e)
  unfolding for_each flatten
  messages-Sent [] e same = (refl, sym (append-nil (sent e.system)), same)
  messages-Sent (m ∷ ms) e same =
      let (finished, took, there) = send-Sent m e same in
      let (rest, taken, kept) = messages-Sent ms (send m e).1 there in
      rw finished (
        rest,
        taken
            ∙ ap (λ xs. xs ++ flatten (map (λ m'. flatten (Tcp.send m')) ms)) took
            ∙ append_assoc (sent e.system) (flatten (Tcp.send m)) _,
        kept,
      )

-- The system brings these chunks for a descriptor, one for each `recv`, and stands then where it
-- stands at the end.
pub data Brings {W : Type 0} (sys : System W) (d : ℕ) : List Bytes → W → W → Type 0 where
  done : (w : W) → Brings sys d [] w w
  next :
      (chunk : Bytes) (chunks : List Bytes) (w w' w'' : W)
      → HasBytes chunk
      → sys.recv d buffer_size (pos 0) w ≡ (some chunk, w')
      → Brings sys d chunks w' w''
      → Brings sys d (chunk ∷ chunks) w w''

module _ {W : Type 0} ⦃sys : System W⦄ where
  -- The socket is read so many times.
  unfoldable pub reads : ℕ → Action (Endpoint W) Unit
  reads zero e = (ok tt, e)
  reads (suc n) e = let (r, e') = update e in continue r (λ _. reads n) e'

  receive_chunk-brought :
      (chunk : Bytes) (e : Endpoint W) (w : W)
      → HasBytes chunk
      → sys.recv e.socket.descriptor buffer_size (pos 0) e.system ≡ (some chunk, w)
      → receive_chunk (pos 0) e ≡ (ok chunk, record e { system = w })
  unfolding receive_chunk
  receive_chunk-brought [] e w has came = absurd has
  receive_chunk-brought (b ∷ bs) e w has came =
      rw (receive_chunk, came) (ap (λ p. (ok (b ∷ bs), record e { system = p.1 })) came)

  -- What `update` does with the bytes.
  abbrev put_in : Result Bytes × Endpoint W → Result Unit × Endpoint W
  put_in (r, e) = elim r [ err x ↦ (err x, e) | ok chunk ↦ (ok tt, on_queue (Tcp.update chunk) e) ]

  update-brought :
      (chunk : Bytes) (e : Endpoint W) (w : W)
      → HasBytes chunk
      → sys.recv e.socket.descriptor buffer_size (pos 0) e.system ≡ (some chunk, w)
      → update e ≡ (ok tt, record (on_queue (Tcp.update chunk) e) { system = w })
  unfolding update
  update-brought chunk e w has came = ap put_in (receive_chunk-brought chunk e w has came)

  Brings-first :
      (d : ℕ) (chunk : Bytes) (chunks : List Bytes) (w w'' : W)
      → Brings sys d (chunk ∷ chunks) w w''
      → (w' : W) × HasBytes chunk
        × (sys.recv d buffer_size (pos 0) w ≡ (some chunk, w'))
        × Brings sys d chunks w' w''
  Brings-first d chunk chunks w w'' (next _ _ _ w' _ has came rest) = (w', has, came, rest)

  Brings-done : (d : ℕ) (w w' : W) → Brings sys d [] w w' → w ≡ w'
  Brings-done d w _ (done _) = refl

  reads-updates :
      (chunks : List Bytes) (e : Endpoint W) (w : W)
      → Brings sys e.socket.descriptor chunks e.system w
      → reads (length chunks) e ≡ (ok tt, record (on_queue (updates chunks) e) { system = w })
  unfolding reads updates
  reads-updates [] e w brings =
      ap (λ v. (ok tt, record e { system = v })) (Brings-done e.socket.descriptor e.system w brings)
  reads-updates (chunk ∷ chunks) e w brings =
      let (w', has, came, rest) = Brings-first e.socket.descriptor chunk chunks e.system w brings in
      let e' : Endpoint W = record (on_queue (Tcp.update chunk) e) { system = w' } in
      ap (λ p. continue p.0 (λ _. reads (length chunks)) p.1) (update-brought chunk e w' has came)
      ∙ reads-updates chunks e' w rest

-- If the sender's system takes all bytes of a send and had taken none before, and the receiver's
-- system brings what was taken in chunks of any size, one for each recv, then sending messages
-- without a delimiter, each of at most 4294966782 bytes, succeeds, and a socket that has read nothing before has, after one update for
-- each chunk, exactly these messages to receive, in their order, and nothing left over.
pub messages_delivered :
    {V W : Type 0} (sender : System V) (receiver : System W)
    → (sent : V → Bytes) (ms chunks : List Bytes) (e : Endpoint V) (f : Endpoint W) (w : W)
    → TakesAll sender e.socket.descriptor sent
    → All (λ m. find_delimiter m ≡ none) ms
    → All Fits ms
    → sent e.system ≡ []
    → f.socket.queue ≡ fresh
    → flatten chunks ≡ sent (for_each (send ⦃sys = sender⦄) ms e).1.system
    → Brings receiver f.socket.descriptor chunks f.system w
    → ((for_each (send ⦃sys = sender⦄) ms e).0 ≡ ok tt)
      × ((reads ⦃sys = receiver⦄ (length chunks) f).0 ≡ ok tt)
      × ((reads ⦃sys = receiver⦄ (length chunks) f).1.socket.queue
          ≡ record { buffer = []; received = ms })
messages_delivered sender receiver sent ms chunks e f w all clean fit nothing unread same brings =
    let (finished, took, _) = messages-Sent ⦃sys = sender⦄ e.socket.descriptor sent all ms e refl in
    let read = reads-updates ⦃sys = receiver⦄ chunks f w brings in
    (
      finished,
      ap (λ p. p.0) read,
      ap (λ p. p.1.socket.queue) read
          ∙ ap (updates chunks) unread
          ∙ stream_roundtrip ms chunks clean fit
              (same ∙ took ∙ ap (λ xs. xs ++ flatten (map (λ m. flatten (Tcp.send m)) ms)) nothing),
    )
