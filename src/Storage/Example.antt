-- ===== src/Storage/Example.antt =====
-- A table as an association list: the assumptions on SQLite can be met, and the tests run on it.
use asinc_roulette.Base.{
  String, ◌≡◌, refl, Option, none, some, ◌==◌, string_eq, inl, inr, [], arith, Option-cases,
  if◌then◌else◌,
}
use mathlib.Core.Option
use mathlib.Core.Option.{some-injective}
use asinc_roulette.Base.Map.{Map, lookup, insert, lookup-insert}
use asinc_roulette.Storage.{User, Sqlite, IsTable, with_permission, with_balance}

abbrev pub Rows : Type 0
Rows = Map String User

abbrev stored : User → Rows → Option Rows
stored u d = elim (lookup u.login d) [ none ↦ some (insert u.login u d) | some _ ↦ none ]

abbrev changed : (User → User) → String → Rows → Rows
changed f l d = elim (lookup l d) [ none ↦ d | some u ↦ insert l (f u) d ]

instance abbrev pub rows : Sqlite Rows
rows = record {
  select = λ d k. lookup k d;
  insert = λ d u. stored u d;
  update_permission = λ d p l. some (changed (with_permission p) l d);
  update_balance = λ d b l. some (changed (with_balance b) l d);
  create = λ d. [];
}

lookup-stored :
    (d d' : Rows) (u : User) (k : String)
    → stored u d ≡ some d'
    → lookup k d' ≡ (if k == u.login then some u else lookup k d)
lookup-stored d d' u k h = elim (Option-cases (lookup u.login d)) [
  | inl e ↦
      let same : insert u.login u d ≡ d' = ground arith in rw (← same) (lookup-insert u.login k u d)
  | inr (v, e) ↦ absurd (ground arith)
]

lookup-changed :
    (f : User → User) (l k : String) (d : Rows)
    → lookup k (changed f l d) ≡ (if k == l then Option.map f (lookup k d) else lookup k d)
lookup-changed f l k d = elim (Option-cases (lookup l d)) [
  | inl e ↦ ground (arith, string_eq.beq_iff k l)
  | inr (v, e) ↦ ground (arith, string_eq.beq_iff k l, lookup-insert l k (f v) d)
]

pub rows-IsTable : IsTable rows
unfolding lookup
rows-IsTable = record {
  select-insert = λ d d' u k h. lookup-stored d d' u k h;
  insert_known = λ d u v h. ground arith;
  select-update_permission =
      λ d d' p l k h. rw (← (some-injective _ _ h)) (lookup-changed (with_permission p) l k d);
  select-update_balance =
      λ d d' b l k h. rw (← (some-injective _ _ h)) (lookup-changed (with_balance b) l k d);
  select-create = λ d k. refl;
}
