-- ===== src/Permissions.antt =====
-- src/commands/permissions.h. A `permission_t` is an `int`; it stands here as its bit pattern.
use Prim.Native.Nat.{bit_and, bit_or}
use asinc_roulette.Base.{ℕ, Bool, not, ◌==◌, nat_eq}

abbrev pub none : ℕ
none = 0

abbrev pub guest : ℕ
guest = 1

abbrev pub user : ℕ
user = 4

abbrev pub staff : ℕ
staff = 8

abbrev pub player : ℕ
player = 16

abbrev pub croupier : ℕ
croupier = 32

abbrev pub admin : ℕ
admin = 64

abbrev pub wait : ℕ
wait = bit_or (bit_or user staff) admin

abbrev pub play : ℕ
play = bit_or player croupier

abbrev pub auth : ℕ
auth = bit_or wait play

abbrev pub all : ℕ
all =
    bit_or (bit_or (bit_or (bit_or (bit_or (bit_or none guest) user) staff) player) croupier) admin

-- `permission & needed_permission` as a condition.
abbrev pub allows : ℕ → ℕ → Bool
allows permission needed_permission = not (bit_and permission needed_permission == 0)
