-- ===== src/Session/Vectors.antt =====
-- Three texts in one (`construct` and `deconstruct` of src/session/Session.cpp). A `size_t` takes
-- eight bytes, the lowest first.
use asinc_roulette.Base.{
  ℕ, zero, suc, ◌+◌, ◌*◌, ◌/◌, ◌%◌, ◌^◌, ◌<◌, ◌≡◌, refl, sym, ap, ◌∙◌, false, not, ◌||◌, List, [],
  ◌∷◌, ◌++◌, arith, length, length-append, take, drop, leb, ◌==◌, nat_eq, if◌then◌else◌,
}
use asinc_roulette.Base.Slices.{drop-drop, take-eq_of_length}
use asinc_roulette.Failure.{Result, ok, err, wrong_message_format, undefined_behaviour}

abbrev pub Bytes : Type 0
Bytes = List ℕ

pub record Vector : Type 0 where
  pub content : Bytes
  pub key : Bytes
  pub iv : Bytes

-- `memcpy` of a number into `n` bytes, and back.
unfoldable pub to_bytes : ℕ → ℕ → Bytes
to_bytes zero k = []
to_bytes (suc n) k = k % 256 ∷ to_bytes n (k / 256)

unfoldable pub from_bytes : ℕ → Bytes → ℕ
from_bytes zero b = 0
from_bytes (suc n) [] = 0
from_bytes (suc n) (x ∷ b) = x + 256 * from_bytes n b

abbrev pub type_size : ℕ
type_size = 8

unfoldable pub construct : Vector → Bytes
unfolding to_bytes
construct v =
    to_bytes type_size (length v.content)
    ++ (to_bytes type_size (length v.key)
        ++ (to_bytes type_size (length v.iv) ++ (v.content ++ (v.key ++ v.iv))))

-- The first three tests of the length throw the same. Where the sum of the lengths wraps around,
-- the copies read past the end.
unfoldable pub deconstruct : Bytes → Result Vector
unfolding from_bytes
deconstruct vector =
    let content_length = from_bytes type_size vector in
    let key_length = from_bytes type_size (drop type_size vector) in
    let iv_length = from_bytes type_size (drop (2 * type_size) vector) in
    let size = 3 * type_size + content_length + key_length + iv_length in
    let body = drop (3 * type_size) vector in
    if leb (length vector) (3 * type_size) || not (size % 2 ^ 64 == length vector)
    then err wrong_message_format
    else if not (size == length vector)
    then err undefined_behaviour
    else ok (record {
      content = take content_length body;
      key = take key_length (drop content_length body);
      iv = take iv_length (drop (content_length + key_length) body);
    })

limit : ℕ → ℕ
limit zero = 1
limit (suc n) = 256 * limit n

from_bytes-to_bytes :
    (n k : ℕ) (rest : Bytes) → k < limit n → from_bytes n (to_bytes n k ++ rest) ≡ k
unfolding from_bytes to_bytes limit
from_bytes-to_bytes zero k rest h = omega arith
from_bytes-to_bytes (suc n) k rest h =
    omega (arith, from_bytes-to_bytes n (k / 256) rest (omega arith))

length-to_bytes : (n k : ℕ) → length (to_bytes n k) ≡ n
unfolding to_bytes
length-to_bytes zero k = refl
length-to_bytes (suc n) k = omega (arith, length-to_bytes n (k / 256))

drop-append : (n : ℕ) (a b : Bytes) → length a ≡ n → drop n (a ++ b) ≡ b
drop-append zero [] b h = refl
drop-append zero (x ∷ a) b h = absurd (omega arith)
drop-append (suc n) [] b h = absurd (omega arith)
drop-append (suc n) (x ∷ a) b h = drop-append n a b (omega arith)

take-append : (n : ℕ) (a b : Bytes) → length a ≡ n → take n (a ++ b) ≡ a
take-append zero [] b h = refl
take-append zero (x ∷ a) b h = absurd (omega arith)
take-append (suc n) [] b h = absurd (omega arith)
take-append (suc n) (x ∷ a) b h = ap (◌∷◌ x) (take-append n a b (omega arith))

size_t :
    (k : ℕ) (rest : Bytes) → k < 2 ^ 64 → from_bytes type_size (to_bytes type_size k ++ rest) ≡ k
unfolding limit
size_t k rest h = from_bytes-to_bytes 8 k rest h

second :
    (a b : ℕ) (rest : Bytes)
    → drop type_size (to_bytes type_size a ++ (to_bytes type_size b ++ rest))
      ≡ to_bytes type_size b ++ rest
second a b rest =
    drop-append type_size (to_bytes type_size a) (to_bytes type_size b ++ rest)
      (length-to_bytes type_size a)

third :
    (a b : ℕ) (rest : Bytes)
    → drop (2 * type_size) (to_bytes type_size a ++ (to_bytes type_size b ++ rest)) ≡ rest
third a b rest =
    sym (drop-drop type_size type_size (to_bytes type_size a ++ (to_bytes type_size b ++ rest)))
    ∙ ap (drop type_size) (second a b rest)
    ∙ drop-append type_size (to_bytes type_size b) rest (length-to_bytes type_size b)

fourth :
    (a b c : ℕ) (rest : Bytes)
    → drop
        (3 * type_size)
        (to_bytes type_size a ++ (to_bytes type_size b ++ (to_bytes type_size c ++ rest)))
      ≡ rest
fourth a b c rest =
    sym (
      drop-drop type_size (2 * type_size)
        (to_bytes type_size a ++ (to_bytes type_size b ++ (to_bytes type_size c ++ rest))))
    ∙ ap (drop type_size) (third a b (to_bytes type_size c ++ rest))
    ∙ drop-append type_size (to_bytes type_size c) rest (length-to_bytes type_size c)

abbrev pub total : Vector → ℕ
total v = length v.content + length v.key + length v.iv

length-framed : (k : ℕ) (rest : Bytes) → length (to_bytes type_size k ++ rest) ≡ 8 + length rest
length-framed k rest =
    length-append (to_bytes type_size k) rest
    ∙ ap (λ (n : ℕ). n + length rest) (length-to_bytes type_size k)

pub length-construct : (v : Vector) → length (construct v) ≡ 24 + total v
unfolding construct
length-construct v =
    let body = v.content ++ (v.key ++ v.iv) in
    let last = to_bytes type_size (length v.iv) ++ body in
    omega (
      arith,
      length-framed (length v.content) (to_bytes type_size (length v.key) ++ last),
      length-framed (length v.key) last,
      length-framed (length v.iv) body,
      length-append v.content (v.key ++ v.iv),
      length-append v.key v.iv,
    )

module _ (v : Vector) (small : 24 + total v < 2 ^ 64) where
  content_size : from_bytes type_size (construct v) ≡ length v.content
  unfolding construct
  content_size = size_t (length v.content) _ (omega arith)

  key_size : from_bytes type_size (drop type_size (construct v)) ≡ length v.key
  unfolding construct
  key_size =
      ap (from_bytes type_size) (second (length v.content) (length v.key) _)
      ∙ size_t (length v.key) _ (omega arith)

  iv_size : from_bytes type_size (drop (2 * type_size) (construct v)) ≡ length v.iv
  unfolding construct
  iv_size =
      ap (from_bytes type_size) (third (length v.content) (length v.key) _)
      ∙ size_t (length v.iv) _ (omega arith)

  body : drop (3 * type_size) (construct v) ≡ v.content ++ (v.key ++ v.iv)
  unfolding construct
  body = fourth (length v.content) (length v.key) (length v.iv) _

accepted :
    (a b c : ℕ)
    → 0 < a + b + c
    → 24 + (a + b + c) < 2 ^ 64
    → (leb (24 + (a + b + c)) 24 || not ((24 + a + b + c) % 2 ^ 64 == 24 + (a + b + c))) ≡ false
accepted a b c h k = ground arith

whole : (a b c : ℕ) → not (24 + a + b + c == 24 + (a + b + c)) ≡ false
whole a b c = ground arith

-- What is put into one text comes out of it, unless all three parts are empty or longer than a
-- `size_t` counts.
pub deconstruct-construct :
    (v : Vector) → 0 < total v → 24 + total v < 2 ^ 64 → deconstruct (construct v) ≡ ok v
unfolding deconstruct
deconstruct-construct v some_byte small =
    let a = length v.content in
    let b = length v.key in
    let c = length v.iv in
    let behind : drop a (v.content ++ (v.key ++ v.iv)) ≡ v.key ++ v.iv =
      drop-append a v.content (v.key ++ v.iv) refl in
    let content : take a (v.content ++ (v.key ++ v.iv)) ≡ v.content =
      take-append a v.content (v.key ++ v.iv) refl in
    let key : take b (drop a (v.content ++ (v.key ++ v.iv))) ≡ v.key =
      ap (take b) behind ∙ take-append b v.key v.iv refl in
    let iv : take c (drop (a + b) (v.content ++ (v.key ++ v.iv))) ≡ v.iv =
      ap (take c) (
        sym (drop-drop b a (v.content ++ (v.key ++ v.iv)))
        ∙ ap (drop b) behind
        ∙ drop-append b v.key v.iv refl)
      ∙ take-eq_of_length c v.iv (omega arith) in
    rw
      (
        content_size v small,
        key_size v small,
        iv_size v small,
        body v small,
        length-construct v,
        accepted a b c some_byte small,
        whole a b c,
      )
      (cc (content, key, iv))
