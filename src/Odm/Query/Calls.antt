-- ===== src/Odm/Query/Calls.antt =====
-- The builder methods of a query in one type, and a chain of them (odm/query.go, update.go,
-- soft_delete.go, relation.go, scopes.go).
use chandlery.Base.{String, List, [], ◌∷◌}
use chandlery.Base.Int.{ℤ}
use chandlery.Odm.Value.{Value}
use chandlery.Odm.Relation.{Relation}
use chandlery.Odm.Query.{Query}
use chandlery.Odm.Query.Meaning.{Condition, apply}
use chandlery.Odm.Query.Projection
use chandlery.Odm.Query.Sort
use chandlery.Odm.Query.Update
use chandlery.Odm.Query.Scope
use chandlery.Odm.Query.Eager

pub data Call : Type 0 where
  condition : Condition → Call
  select : List String → Call
  exclude : List String → Call
  order_by : String → ℤ → Call
  latest : List String → Call
  oldest : List String → Call
  limit : ℤ → Call
  skip : ℤ → Call
  set : String → Value → Call
  unset : String → Call
  inc : String → Value → Call
  increment : String → ℤ → Call
  decrement : String → ℤ → Call
  push : String → Value → Call
  pull : String → Value → Call
  add_to_set : String → Value → Call
  without_timestamps : Call
  with_trashed : Call
  only_trashed : Call
  with_relations : List Relation → Call

unfoldable pub build : Query → Call → Query
build q (condition c) = apply q c
build q (select fs) = Projection.select q fs
build q (exclude fs) = Projection.exclude q fs
build q (order_by f direction) = Sort.order_by q f direction
build q (latest fs) = Sort.latest q fs
build q (oldest fs) = Sort.oldest q fs
build q (limit n) = Sort.limit q n
build q (skip n) = Sort.skip q n
build q (set f v) = Update.set q f v
build q (unset f) = Update.unset q f
build q (inc f v) = Update.inc q f v
build q (increment f by) = Update.increment q f by
build q (decrement f by) = Update.decrement q f by
build q (push f v) = Update.push q f v
build q (pull f v) = Update.pull q f v
build q (add_to_set f v) = Update.add_to_set q f v
build q without_timestamps = Update.without_timestamps q
build q with_trashed = Scope.with_trashed q
build q only_trashed = Scope.only_trashed q
build q (with_relations rs) = Eager.with_relations q rs

unfoldable pub build_all : Query → List Call → Query
build_all q [] = q
build_all q (c ∷ cs) = build_all (build q c) cs
