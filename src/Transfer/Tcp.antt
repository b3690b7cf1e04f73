-- ===== src/Transfer/Tcp.antt =====
-- The stream socket (src/transfer/tcp/LinuxSocket.cpp). The system calls are not part of the
-- program: a chunk is what one `recv` returned, and `send` hands the system its chunks.
pub mod Calls
pub mod Delivered
mod Tests
use asinc_roulette.Base.{
  ℕ, zero, suc, ◌+◌, ◌-◌, ◌%◌, ◌^◌, ◌≤◌, ◌≡◌, refl, sym, ap, ◌∙◌, false, List, [], ◌∷◌, ◌++◌, none,
  arith, map, length, length-append, take, drop, ltb, All, Bool-cases, inl, inr, if◌then◌else◌,
}
use Prim.Native.Nat.{min}
use mathlib.Core.List.{append_assoc, append-nil, flatten}
use asinc_roulette.Base.Slices.{
  take-append-drop, length-drop, take-take, drop-eq_of_length, drop-drop, take-min,
}
use asinc_roulette.Failure.{Result, ok, err, socket_error}
use asinc_roulette.Transfer.Framing.{
  Bytes, delimiter, find_delimiter, messages, messages-append, messages-wire, IsSettled,
  IsSettled-nil, messages_rest, joined, wire,
}

abbrev pub buffer_size : ℕ
buffer_size = 512

pub record Socket : Type 0 where
  pub buffer : Bytes
  pub received : List Bytes

abbrev pub fresh : Socket
fresh = record { buffer = []; received = [] }

-- `std::string::substr(position, count)`
abbrev pub substr : ℕ → ℕ → Bytes → Bytes
substr position count s = take count (drop position s)

-- `update`: one chunk is read.
unfoldable pub update : Bytes → Socket → Socket
update chunk s =
    let (complete, rest) = messages (s.buffer ++ chunk) in
    record { buffer = rest; received = s.received ++ complete }

unfoldable pub updates : List Bytes → Socket → Socket
unfolding update
updates [] s = s
updates (chunk ∷ chunks) s = updates chunks (update chunk s)

-- `receive()`: the oldest message.
unfoldable pub receive : Socket → Result (Bytes × Socket)
receive s = elim s.received [
  | [] ↦ err socket_error
  | message ∷ rest ↦ ok (message, record s { received = rest })
]

-- The loop of `send`, with the rounds left: what it hands to the system. `left` is an `unsigned`.
unfoldable pub send_loop : ℕ → ℕ → Bytes → List Bytes
send_loop zero left message = []
send_loop (suc fuel) left message =
    let right = min (left + buffer_size) (length message) in
    let sub_data = substr left right message in
    let rest = send_loop fuel ((left + buffer_size) % 2 ^ 32) message in
    if ltb left (length message) then take (right - left) sub_data ∷ rest else []

-- Each round moves by 512, so the length is fuel enough for a message that fits. With more bytes
-- than `longest` the loop of the code never ends, since `left` starts again at 0; then this is
-- only what its first rounds hand over.
abbrev pub longest : ℕ
longest = 2 ^ 32 - buffer_size

unfoldable pub send : Bytes → List Bytes
unfolding send_loop
send message = let framed = message ++ delimiter in send_loop (length framed) 0 framed

-- What has been read after all bytes of a stream came in.
abbrev after_stream : Bytes → Socket → Socket
after_stream stream s =
    let (ms, r) = messages (s.buffer ++ stream) in
    record { buffer = r; received = s.received ++ ms }

-- From a buffer with no complete message, only the bytes that come in matter, and not how `recv`
-- cut them into chunks.
updates-after_stream :
    (chunks : List Bytes) (s : Socket)
    → IsSettled s.buffer
    → updates chunks s ≡ after_stream (flatten chunks) s
unfolding updates update flatten
updates-after_stream [] s h = rw (append-nil s.buffer, h, append-nil s.received)
updates-after_stream (chunk ∷ chunks) s h =
    updates-after_stream chunks (update chunk s) (messages_rest (s.buffer ++ chunk))
    ∙ (let whole : messages (s.buffer ++ (chunk ++ flatten chunks))
            ≡ joined (messages (s.buffer ++ chunk)) (flatten chunks) =
          ap messages (sym (append_assoc s.buffer chunk (flatten chunks)))
          ∙ messages-append (s.buffer ++ chunk) (flatten chunks) in
        rw (whole, append_assoc) refl)

-- What `send` hands to the system from a position on is the rest of the message.
send_loop-drop :
    (fuel left : ℕ) (message : Bytes)
    → length message ≤ longest
    → length message ≤ left + fuel
    → flatten (send_loop fuel left message) ≡ drop left message
unfolding send_loop flatten
send_loop-drop zero left message fits h = sym (drop-eq_of_length left message (omega arith))
send_loop-drop (suc fuel) left message fits h = elim (Bool-cases (ltb left (length message))) [
  | inr done ↦ rw done (sym (drop-eq_of_length left message (ground arith)))
  | inl more ↦
      let wraps : (left + buffer_size) % 2 ^ 32 ≡ left + buffer_size = ground arith in
      let right : min (left + buffer_size) (length message) - left
          ≡ min buffer_size (length (drop left message)) =
        omega (arith, length-drop left message) in
      let cut : take (min (left + buffer_size) (length message) - left)
            (substr left (min (left + buffer_size) (length message)) message)
          ≡ take buffer_size (drop left message) =
        take-take _ (min (left + buffer_size) (length message)) (drop left message) (omega arith)
        ∙ ap (λ (k : ℕ). take k (drop left message)) right
        ∙ take-min buffer_size (drop left message) in
      rw
        (
          more,
          wraps,
          send_loop-drop fuel (left + buffer_size) message fits (omega arith),
          cut,
          ← (drop-drop buffer_size left message),
        )
        (take-append-drop buffer_size (drop left message))
]

-- Past the end of the message the loop has ended, whatever rounds are left.
send_loop-ended :
    (fuel left : ℕ) (message : Bytes) → length message ≤ left → send_loop fuel left message ≡ []
unfolding send_loop
send_loop-ended zero left message over = refl
send_loop-ended (suc fuel) left message over =
    let no_more : ltb left (length message) ≡ false = ground arith in rw no_more refl

-- For a message that fits, more rounds than reach its end change nothing.
send_loop-enough :
    (f g left : ℕ) (message : Bytes)
    → length message ≤ longest
    → length message ≤ left + f
    → length message ≤ left + g
    → send_loop f left message ≡ send_loop g left message
unfolding send_loop
send_loop-enough zero g left message fits h k = sym (send_loop-ended g left message (omega arith))
send_loop-enough (suc f) zero left message fits h k =
    send_loop-ended (suc f) left message (omega arith)
send_loop-enough (suc f) (suc g) left message fits h k =
    elim (Bool-cases (ltb left (length message))) [
      | inr over ↦ rw over refl
      | inl more ↦
          let wraps : (left + buffer_size) % 2 ^ 32 ≡ left + buffer_size = ground arith in
          rw
            (
              more,
              wraps,
              send_loop-enough f g (left + buffer_size) message fits (omega arith) (omega arith),
            )
            refl
    ]

-- The message and its delimiter are short enough for the loop to end.
abbrev pub Fits : Bytes → Type 0
Fits message = length message + 2 ≤ longest

-- The chunks of `send` are the message and its delimiter, in order.
pub flatten-send : (message : Bytes) → Fits message → flatten (send message) ≡ message ++ delimiter
unfolding send
flatten-send message fits =
    let total = length-append message delimiter in
    send_loop-drop (length (message ++ delimiter)) 0 (message ++ delimiter) (omega (arith, total))
      (omega arith)

pub flatten-sends :
    (ms : List Bytes) → All Fits ms → flatten (map (λ m. flatten (send m)) ms) ≡ wire ms
unfolding flatten
flatten-sends [] h = refl
flatten-sends (m ∷ ms) (fits, more) =
    rw (flatten-send m fits, flatten-sends ms more) (append_assoc m delimiter (wire ms))

-- Messages without a delimiter arrive as they were sent, and in that order, however the stream of
-- their bytes is cut into chunks on the way.
pub stream_roundtrip :
    (ms chunks : List Bytes)
    → All (λ m. find_delimiter m ≡ none) ms
    → All Fits ms
    → flatten chunks ≡ flatten (map (λ m. flatten (send m)) ms)
    → updates chunks fresh ≡ record { buffer = []; received = ms }
stream_roundtrip ms chunks clean fit same =
    updates-after_stream chunks fresh IsSettled-nil
    ∙ ap (λ stream. after_stream stream fresh) (same ∙ flatten-sends ms fit)
    ∙ (rw (messages-wire ms clean) refl)
