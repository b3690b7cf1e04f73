-- ===== src/Json/Example.antt =====
-- Requests without a parser: the texts that the tests send, each with its value.
use asinc_roulette.Base.{
  String, Bool, false, Option, none, some, [], ◌∷◌, string_eq, ◌==◌, if◌then◌else◌,
}
use asinc_roulette.Base.Int.{ℤ}
use asinc_roulette.Base.Map.{Map, lookup, member}
use asinc_roulette.Json.{Json}

pub data Atom : Type 0 where
  word : String → Atom
  amount : ℤ → Atom

pub data Toy : Type 0 where
  null : Toy
  atom : Atom → Toy
  body : Map String Atom → Toy
  request : String → Map String Atom → Toy

abbrev requests : Map String Toy
requests =
    (
      "signup bob",
      Toy.request "signup" (("login", Atom.word "bob") ∷ ("password", Atom.word "pw") ∷ []),
    )
    ∷ (
      "signin bob",
      Toy.request "signin" (("login", Atom.word "bob") ∷ ("password", Atom.word "pw") ∷ []),
    )
    ∷ ("signout", Toy.request "signout" [])
    ∷ ("join t", Toy.request "join" (("name", Atom.word "t") ∷ ("password", Atom.word "pw") ∷ []))
    ∷ (
      "create t",
      Toy.request "create" (("name", Atom.word "t") ∷ ("password", Atom.word "pw") ∷ []),
    )
    ∷ ("spin", Toy.request "spin" [])
    ∷ ("leave", Toy.request "leave" [])
    ∷ []

abbrev member_of : Map String Atom → String → Toy
member_of m name = elim (lookup name m) [ none ↦ Toy.null | some a ↦ Toy.atom a ]

abbrev read_field : Toy → String → Option Toy
read_field (Toy.request command m) name =
    if name == "command"
    then some (Toy.atom (Atom.word command))
    else if name == "data"
    then some (Toy.body m)
    else some Toy.null
read_field (Toy.body m) name = some (member_of m name)
read_field _ name = none

abbrev read_string : Toy → Option String
read_string (Toy.atom (Atom.word w)) = some w
read_string _ = none

abbrev read_int : Toy → Option ℤ
read_int (Toy.atom (Atom.amount a)) = some a
read_int _ = none

abbrev has_field : Toy → String → Bool
has_field (Toy.body m) name = member name m
has_field _ name = false

instance abbrev pub toy : Json Toy
toy = record {
  parse = λ message. lookup message requests;
  field = read_field;
  as_string = read_string;
  as_int = read_int;
  has = has_field;
}
