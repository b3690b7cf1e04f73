-- ===== src/Transfer/Framing.antt =====
-- Messages end with "\r\n". Both sockets keep what they have read in `buffer` and take the complete
-- messages off its front (`update` of src/transfer/tcp/LinuxSocket.cpp and of
-- src/transfer/udp/LinuxSocket.cpp).
use asinc_roulette.Base.{
  ℕ, zero, suc, ◌+◌, ◌≤◌, ◌≡◌, ◌⊎◌, refl, sym, ap, ◌∙◌, true, false, ◌&&◌, List, [], ◌∷◌, ◌++◌,
  Option, none, some, arith, ◌==◌, nat_eq, length, All, Option-cases, Bool-cases, inl, inr,
  if◌then◌else◌,
}
use mathlib.Core.Option

abbrev pub Bytes : Type 0
Bytes = List ℕ

abbrev pub delimiter : Bytes
delimiter = 13 ∷ 10 ∷ []

abbrev with_first : ℕ → Bytes × Bytes → Bytes × Bytes
with_first x (m, r) = (x ∷ m, r)

-- What stands before the first delimiter, and what stands behind it.
unfoldable pub find_delimiter : Bytes → Option (Bytes × Bytes)
find_delimiter [] = none
find_delimiter (x ∷ []) = none
find_delimiter (x ∷ y ∷ r) =
    let rest = find_delimiter (y ∷ r) in
    if x == 13 && y == 10 then some ([], r) else Option.map (with_first x) rest

abbrev with_message : Bytes → List Bytes × Bytes → List Bytes × Bytes
with_message m (ms, r) = (m ∷ ms, r)

-- The `while` loop: the messages that are complete, and the bytes that stay in the buffer.
unfoldable pub extract : ℕ → Bytes → List Bytes × Bytes
extract zero buffer = ([], buffer)
extract (suc fuel) buffer = elim (find_delimiter buffer) [
  | none ↦ ([], buffer)
  | some (message, rest) ↦ with_message message (extract fuel rest)
]

-- Each round takes off a delimiter, so the length of the buffer is fuel enough.
unfoldable pub messages : Bytes → List Bytes × Bytes
unfolding extract
messages buffer = extract (length buffer) buffer

-- Where the delimiter stands, by the first byte.
find_delimiter-inv :
    (x y : ℕ) (b m r : Bytes)
    → find_delimiter (x ∷ y ∷ b) ≡ some (m, r)
    → ((x == 13 && y == 10) ≡ true) × (m ≡ []) × (r ≡ b)
      ⊎ ((x == 13 && y == 10) ≡ false)
        × ((m' : Bytes) × (find_delimiter (y ∷ b) ≡ some (m', r)) × (m ≡ x ∷ m'))
unfolding find_delimiter
find_delimiter-inv x y b m r h = elim (Bool-cases (x == 13 && y == 10)) [
  | inl here ↦ inl (here, ground arith, ground arith)
  | inr no_delimiter ↦ elim (Option-cases (find_delimiter (y ∷ b))) [
    | inl missing ↦ absurd (ground arith)
    | inr ((m', r'), found) ↦ inr (no_delimiter, (m', ground arith, ground arith))
  ]
]

pub find_delimiter-length :
    (b m r : Bytes) → find_delimiter b ≡ some (m, r) → length b ≡ length m + 2 + length r
unfolding find_delimiter
find_delimiter-length [] m r h = cc
find_delimiter-length (x ∷ []) m r h = cc
find_delimiter-length (x ∷ y ∷ b) m r h = elim (find_delimiter-inv x y b m r h) [
  | inl (here, em, er) ↦ rw (em, er) (omega arith)
  | inr (no_delimiter, (m', found, em)) ↦
      rw em (omega (arith, find_delimiter-length (y ∷ b) m' r found))
]

pub find_delimiter-append :
    (a b m r : Bytes) → find_delimiter a ≡ some (m, r) → find_delimiter (a ++ b) ≡ some (m, r ++ b)
unfolding find_delimiter
find_delimiter-append [] b m r h = cc
find_delimiter-append (x ∷ []) b m r h = cc
find_delimiter-append (x ∷ y ∷ a) b m r h = elim (find_delimiter-inv x y a m r h) [
  | inl (here, em, er) ↦ rw (here, em, er)
  | inr (no_delimiter, (m', found, em)) ↦
      rw (no_delimiter, em, find_delimiter-append (y ∷ a) b m' r found)
]

-- A message without a delimiter is found whole, also if it ends with "\r".
pub find_delimiter-framed :
    (m r : Bytes) → find_delimiter m ≡ none → find_delimiter (m ++ 13 ∷ 10 ∷ r) ≡ some (m, r)
unfolding find_delimiter
find_delimiter-framed [] r h = refl
find_delimiter-framed (x ∷ []) r h = ground arith
find_delimiter-framed (x ∷ y ∷ m) r h = elim (Bool-cases (x == 13 && y == 10)) [
  | inl here ↦ absurd (ground arith)
  | inr no_delimiter ↦ elim (Option-cases (find_delimiter (y ∷ m))) [
    | inl missing ↦ rw (no_delimiter, find_delimiter-framed (y ∷ m) r missing)
    | inr (found, e) ↦ absurd (ground arith)
  ]
]

extract-step :
    (f : ℕ) (b m r : Bytes)
    → find_delimiter b ≡ some (m, r)
    → extract (suc f) b ≡ with_message m (extract f r)
unfolding extract
extract-step f b m r h = rw (h, extract)

extract-stop : (f : ℕ) (b : Bytes) → find_delimiter b ≡ none → extract f b ≡ ([], b)
unfolding extract
extract-stop zero b h = refl
extract-stop (suc f) b h = rw (h, extract)

find_delimiter-short : (b : Bytes) → length b ≤ 0 → find_delimiter b ≡ none
unfolding find_delimiter
find_delimiter-short [] h = refl
find_delimiter-short (x ∷ b) h = absurd (omega arith)

-- More fuel than bytes changes nothing.
pub extract-fuel : (f g : ℕ) (b : Bytes) → length b ≤ f → length b ≤ g → extract f b ≡ extract g b
extract-fuel zero g b hf hg =
    let stop = find_delimiter-short b hf in extract-stop zero b stop ∙ sym (extract-stop g b stop)
extract-fuel (suc f) zero b hf hg =
    let stop = find_delimiter-short b hg in
    extract-stop (suc f) b stop ∙ sym (extract-stop zero b stop)
extract-fuel (suc f) (suc g) b hf hg = elim (Option-cases (find_delimiter b)) [
  | inl stop ↦ extract-stop (suc f) b stop ∙ sym (extract-stop (suc g) b stop)
  | inr ((m, r), found) ↦
      let shorter = find_delimiter-length b m r found in
      extract-step f b m r found
      ∙ ap (with_message m) (extract-fuel f g r (omega arith) (omega arith))
      ∙ sym (extract-step g b m r found)
]

pub messages-stop : (b : Bytes) → find_delimiter b ≡ none → messages b ≡ ([], b)
unfolding messages
messages-stop b h = extract-stop (length b) b h

pub messages-step :
    (b m r : Bytes) → find_delimiter b ≡ some (m, r) → messages b ≡ with_message m (messages r)
unfolding messages
messages-step b m r h =
    let shorter = find_delimiter-length b m r h in
    extract-fuel (length b) (suc (length b)) b (omega arith) (omega arith)
    ∙ extract-step (length b) b m r h
    ∙ ap (with_message m) (extract-fuel (length b) (length r) r (omega arith) (omega arith))

abbrev pub joined : List Bytes × Bytes → Bytes → List Bytes × Bytes
joined (ms, r) b = let (ms', r') = messages (r ++ b) in (ms ++ ms', r')

messages-append_below :
    (n : ℕ) (a b : Bytes) → length a ≤ n → messages (a ++ b) ≡ joined (messages a) b
messages-append_below zero a b h = rw (messages-stop a (find_delimiter-short a h)) refl
messages-append_below (suc n) a b h = elim (Option-cases (find_delimiter a)) [
  | inl stop ↦ rw (messages-stop a stop) refl
  | inr ((m, r), found) ↦
      let shorter = find_delimiter-length a m r found in
      messages-step (a ++ b) m (r ++ b) (find_delimiter-append a b m r found)
      ∙ ap (with_message m) (messages-append_below n r b (omega arith))
      ∙ ap (λ p. joined p b) (sym (messages-step a m r found))
]

-- Reading bytes in two parts yields the messages that reading them at once yields.
pub messages-append : (a b : Bytes) → messages (a ++ b) ≡ joined (messages a) b
messages-append a b = messages-append_below (length a) a b (omega arith)

-- A message without a delimiter comes out as it was sent, and then what follows it.
pub messages-framed :
    (m r : Bytes)
    → find_delimiter m ≡ none
    → messages (m ++ (delimiter ++ r)) ≡ with_message m (messages r)
messages-framed m r h = messages-step (m ++ 13 ∷ 10 ∷ r) m r (find_delimiter-framed m r h)

-- No complete message is left in a buffer.
abbrev pub IsSettled : Bytes → Type 0
IsSettled b = messages b ≡ ([], b)

pub IsSettled-nil : IsSettled []
unfolding messages extract
IsSettled-nil = refl

messages_rest_below : (n : ℕ) (b : Bytes) → length b ≤ n → IsSettled (messages b).1
messages_rest_below zero b h = let stop = messages-stop b (find_delimiter-short b h) in rw stop stop
messages_rest_below (suc n) b h = elim (Option-cases (find_delimiter b)) [
  | inl none_left ↦ let stop = messages-stop b none_left in rw stop stop
  | inr ((m, r), found) ↦
      let shorter = find_delimiter-length b m r found in
      rw (messages-step b m r found) (messages_rest_below n r (omega arith))
]

pub messages_rest : (b : Bytes) → IsSettled (messages b).1
messages_rest b = messages_rest_below (length b) b (omega arith)

-- What goes over the wire for a list of messages.
abbrev pub wire : List Bytes → Bytes
wire [] = []
wire (m ∷ ms) = m ++ (delimiter ++ wire ms)

pub messages-wire :
    (ms : List Bytes) → All (λ m. find_delimiter m ≡ none) ms → messages (wire ms) ≡ (ms, [])
unfolding messages extract
messages-wire [] h = refl
messages-wire (m ∷ ms) (h, hs) =
    messages-framed m (wire ms) h ∙ ap (with_message m) (messages-wire ms hs)
