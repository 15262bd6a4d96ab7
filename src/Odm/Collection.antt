-- ===== src/Odm/Collection.antt =====
-- odm/collection.go and scopes.go: the methods of a collection that start a query, and Scope.
use chandlery.Base.{ℕ, suc, Option, none, some, List, [], ◌∷◌}
use chandlery.Odm.Errors.{nil_scope}
use chandlery.Odm.Query.{Query, ModelMeta, new_query, invalid}
use chandlery.Odm.Query.Calls.{Call, build}

-- The collection's method of this name and with these arguments.
unfoldable pub start : ModelMeta → Call → Query
start meta call = build (new_query meta) call

-- The scopes, `none` a nil one: it is an error of the query that Scope was called on.
abbrev pub scope_loop : Query → ℕ → List (Option (Query → Query)) → Query → Query
scope_loop q i [] next = next
scope_loop q i (none ∷ scopes) next = invalid q (nil_scope i)
scope_loop q i (some f ∷ scopes) next = scope_loop q (suc i) scopes (f next)

unfoldable pub scope : Query → List (Option (Query → Query)) → Query
scope q scopes = scope_loop q 0 scopes q

unfoldable pub scope_collection : ModelMeta → List (Option (Query → Query)) → Query
scope_collection meta scopes = scope (new_query meta) scopes
