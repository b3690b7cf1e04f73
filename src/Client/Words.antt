-- ===== src/Client/Words.antt =====
-- A line of input and its words (`Command::parse` of src/commands/Command.cpp; `trim_copy` and
-- `str2int` of src/session/strings.h).
use Prim.Native.Char.{code}
use asinc_roulette.Base.{
  ℕ, suc, ◌+◌, ◌-◌, ◌*◌, ◌^◌, String, Bool, true, false, not, ◌&&◌, ◌||◌, List, [], ◌∷◌, ◌++◌, leb,
  ltb, ◌==◌, nat_eq, string_eq, length, if◌then◌else◌,
}
use asinc_roulette.Base.Int.{ℤ, pos, ◌-ℤ◌}

-- The characters of a text. A word is a list of them until it is complete.
abbrev pub codes : String → List ℕ
codes String.[] = []
codes (String.◌∷◌ c s) = code c ∷ codes s

abbrev pub Word : Type 0
Word = List ℕ

-- `std::isspace` in the C locale
abbrev pub isspace : ℕ → Bool
isspace ch = ch == 32 || leb 9 ch && leb ch 13

unfoldable pub ltrim : Word → Word
ltrim [] = []
ltrim (ch ∷ s) = let rest = ltrim s in if isspace ch then rest else ch ∷ s

abbrev trimmed : ℕ → Word → Word
trimmed ch [] = if isspace ch then [] else ch ∷ []
trimmed ch (x ∷ s) = ch ∷ x ∷ s

unfoldable pub rtrim : Word → Word
rtrim [] = []
rtrim (ch ∷ s) = trimmed ch (rtrim s)

unfoldable pub trim_copy : Word → Word
unfolding ltrim rtrim
trim_copy s = rtrim (ltrim s)

-- The variables of the loop of `parse`.
pub record Parser : Type 0 where
  pub result : List Word
  pub current : Word
  pub in_string : Bool
  pub quote : ℕ

abbrev pub start_parser : Parser
start_parser = record { result = []; current = []; in_string = false; quote = 32 }

abbrev pub is_quote : ℕ → Bool
is_quote ch = ch == b'\'' || ch == b'"'

-- One round of the loop of `parse`.
unfoldable pub parse_step : ℕ → Parser → Parser
parse_step ch p =
    if p.in_string && ch == p.quote
    then record p { in_string = false }
    else if not p.in_string && is_quote ch
    then record p { in_string = true; quote = ch }
    else if not p.in_string && ch == 32
    then record p { result = p.result ++ p.current ∷ []; current = [] }
    else record p { current = p.current ++ ch ∷ [] }

unfoldable pub parse_loop : Word → Parser → Parser
unfolding parse_step
parse_loop [] p = p
parse_loop (ch ∷ s) p = parse_loop s (parse_step ch p)

unfoldable pub parse : Word → List Word
unfolding trim_copy parse_loop
parse command = let p = parse_loop (trim_copy command) start_parser in p.result ++ p.current ∷ []

-- What `std::stoi` does with a text: it throws `invalid_argument` or `out_of_range`, or returns a
-- number and how many characters it read.
pub data Stoi : Type 0 where
  invalid_argument out_of_range : Stoi
  parsed : ℤ → ℕ → Stoi

abbrev is_digit : ℕ → Bool
is_digit ch = leb 48 ch && leb ch 57

abbrev pub digits : ℕ → ℕ → Word → ℕ × ℕ
digits n position [] = (n, position)
digits n position (ch ∷ s) =
    let rest = digits (n * 10 + (ch - 48)) (suc position) s in
    if is_digit ch then rest else (n, position)

abbrev from_digits : Bool → ℕ → Word → Stoi
from_digits negative position s =
    let (n, end) = digits 0 position s in
    if end == position
    then Stoi.invalid_argument
    else if ltb (if negative then 2 ^ 31 else 2 ^ 31 - 1) n
    then Stoi.out_of_range
    else Stoi.parsed (if negative then pos 0 -ℤ pos n else pos n) end

abbrev from_sign : ℕ → Word → Stoi
from_sign position [] = Stoi.invalid_argument
from_sign position (ch ∷ s) =
    if ch == b'-'
    then from_digits true (suc position) s
    else if ch == b'+'
    then from_digits false (suc position) s
    else from_digits false position (ch ∷ s)

unfoldable pub stoi : Word → Stoi
unfolding ltrim ◌-ℤ◌
stoi s = from_sign (length s - length (ltrim s)) (ltrim s)

-- `str2int` catches `invalid_argument` alone.
pub data Number : Type 0 where
  number : ℤ → Number
  no_number uncaught : Number

unfoldable pub str2int : Word → Number
unfolding stoi
str2int s = elim (stoi s) [
  | Stoi.invalid_argument ↦ Number.no_number
  | Stoi.out_of_range ↦ Number.uncaught
  | Stoi.parsed integer position ↦
      if position == length s then Number.number integer else Number.no_number
]
