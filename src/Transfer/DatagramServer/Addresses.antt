-- ===== src/Transfer/DatagramServer/Addresses.antt =====
-- The ids of addresses (src/transfer/udp/LinuxSocket.cpp, `concat`).
use asinc_roulette.Base.{ℕ, suc, ◌+◌, ◌*◌, ◌/◌, ◌%◌, ◌^◌, ◌<◌, ◌≡◌, sym, ap, ◌∙◌, nat_eq, arith}
use asinc_roulette.Transfer.DatagramServer.State.{bit_or, concat}

-- A bit that is set on the right is set.
bit_or-odd : (bits a b : ℕ) → bit_or (suc bits) a (2 * b + 1) ≡ 2 * bit_or bits (a / 2) b + 1
unfolding bit_or
bit_or-odd bits a b =
    let low : (2 * b + 1) % 2 ≡ 1 = omega arith in
    let high : (2 * b + 1) / 2 ≡ b = omega arith in
    rw high (ground (arith, low, nat_eq.beq_iff (a % 2 + (2 * b + 1) % 2) 0))

-- The same for the number `2 * b + 1` under another name.
bit_or-one :
    (bits a b x : ℕ) → x ≡ 2 * b + 1 → bit_or (suc bits) a x ≡ 2 * bit_or bits (a / 2) b + 1
bit_or-one bits a b x e = ap (bit_or (suc bits) a) e ∙ bit_or-odd bits a b

-- Seven bits that are set on the right hide those on the left.
bit_or-seven :
    (a c : ℕ)
    → bit_or 32 a (128 * c + 127) ≡ 128 * bit_or 25 (a / 2 / 2 / 2 / 2 / 2 / 2 / 2) c + 127
bit_or-seven a c = omega (
  arith,
  bit_or-one 31 a (64 * c + 63) (128 * c + 127) (omega arith),
  bit_or-one 30 (a / 2) (32 * c + 31) (64 * c + 63) (omega arith),
  bit_or-one 29 (a / 2 / 2) (16 * c + 15) (32 * c + 31) (omega arith),
  bit_or-one 28 (a / 2 / 2 / 2) (8 * c + 7) (16 * c + 15) (omega arith),
  bit_or-one 27 (a / 2 / 2 / 2 / 2) (4 * c + 3) (8 * c + 7) (omega arith),
  bit_or-one 26 (a / 2 / 2 / 2 / 2 / 2) (2 * c + 1) (4 * c + 3) (omega arith),
  bit_or-one 25 (a / 2 / 2 / 2 / 2 / 2 / 2) c (2 * c + 1) (omega arith),
)

-- Two clients of one host get the same id when the first byte of the host's address is 127, as for
-- the machine itself, or any other byte whose low seven bits are set, and their ports, as they
-- stand in `sin_port`, differ in the low three bits alone.
pub local_ports_collide :
    (p r q c : ℕ)
    → r < 8
    → q < 8
    → concat (record { sin_port = 8 * p + r; s_addr = 128 * c + 127 })
      ≡ concat (record { sin_port = 8 * p + q; s_addr = 128 * c + 127 })
unfolding concat
local_ports_collide p r q c few few' =
    bit_or-seven ((8 * p + r) * 2 ^ 4) c
    ∙ ap (λ x. 128 * bit_or 25 x c + 127) (omega arith)
    ∙ sym (bit_or-seven ((8 * p + q) * 2 ^ 4) c)
