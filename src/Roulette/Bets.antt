-- ===== src/Roulette/Bets.antt =====
-- The bet types with their ranges and multipliers (`namespace bets` of src/core/config.h) and
-- `bet_t` of src/core/Server.h.
use asinc_roulette.Base.{ℕ, String, List, [], ◌∷◌}
use asinc_roulette.Base.Int.{ℤ}
use asinc_roulette.Base.Map.{Map}

pub record Bet : Type 0 where
  pub type : String
  pub number : ℤ
  pub value : ℤ

abbrev pub max_number : ℕ
max_number = 37

-- `bets::bets`, in the order in which the client lists them.
abbrev pub bets : List String
bets =
    "red" ∷ "black" ∷ "even" ∷ "odd" ∷ "low" ∷ "high" ∷ "zero" ∷ "basket" ∷ "column" ∷ "dozen"
    ∷ "line" ∷ "street" ∷ "corner" ∷ "hsplit" ∷ "vsplit" ∷ "straight" ∷ []

-- The numbers that a player may name, from the first to the second, both included.
abbrev pub ranges : Map String (ℕ × ℕ)
ranges =
    ("red", (1, 1))
    ∷ ("black", (1, 1))
    ∷ ("even", (1, 1))
    ∷ ("odd", (1, 1))
    ∷ ("low", (1, 1))
    ∷ ("high", (1, 1))
    ∷ ("zero", (1, 1))
    ∷ ("basket", (1, 1))
    ∷ ("column", (1, 3))
    ∷ ("dozen", (1, 3))
    ∷ ("line", (1, 11))
    ∷ ("street", (1, 12))
    ∷ ("corner", (1, 22))
    ∷ ("hsplit", (1, 24))
    ∷ ("vsplit", (1, 33))
    ∷ ("straight", (1, 36))
    ∷ []

abbrev pub multipliers : Map String ℕ
multipliers =
    ("red", 1)
    ∷ ("black", 1)
    ∷ ("even", 1)
    ∷ ("odd", 1)
    ∷ ("low", 1)
    ∷ ("high", 1)
    ∷ ("zero", 17)
    ∷ ("basket", 6)
    ∷ ("column", 2)
    ∷ ("dozen", 2)
    ∷ ("line", 5)
    ∷ ("street", 11)
    ∷ ("corner", 8)
    ∷ ("hsplit", 17)
    ∷ ("vsplit", 17)
    ∷ ("straight", 35)
    ∷ []

abbrev pub reds : List ℕ
reds = 1 ∷ 3 ∷ 5 ∷ 7 ∷ 9 ∷ 12 ∷ 14 ∷ 16 ∷ 18 ∷ 19 ∷ 21 ∷ 23 ∷ 25 ∷ 27 ∷ 30 ∷ 32 ∷ 34 ∷ 36 ∷ []

abbrev square : ℕ → ℕ → ℕ → ℕ → List ℕ
square a b c d = a ∷ b ∷ c ∷ d ∷ []

abbrev pub corners : List (List ℕ)
corners =
    square 1 2 4 5
    ∷ square 2 3 5 6
    ∷ square 4 5 7 8
    ∷ square 5 6 8 9
    ∷ square 7 8 10 11
    ∷ square 8 9 11 12
    ∷ square 10 11 13 14
    ∷ square 11 12 14 15
    ∷ square 13 14 16 17
    ∷ square 14 15 17 18
    ∷ square 16 17 19 20
    ∷ square 17 18 20 21
    ∷ square 19 20 22 23
    ∷ square 20 21 23 24
    ∷ square 22 23 25 26
    ∷ square 23 24 26 27
    ∷ square 25 26 28 29
    ∷ square 26 27 29 30
    ∷ square 28 29 31 32
    ∷ square 29 30 32 33
    ∷ square 31 32 34 35
    ∷ square 32 33 35 36
    ∷ []
