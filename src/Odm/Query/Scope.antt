-- ===== src/Odm/Query/Scope.antt =====
-- odm/soft_delete.go and Query.compileFilter of odm/query.go: which documents a query can see.
use chandlery.Base.{ℕ, String, not, ◌||◌, Option, none, some, List, [], ◌∷◌, ◌++◌, if◌then◌else◌}
use chandlery.Odm.Value.{Value, null, text, time, single}
use chandlery.Odm.Errors.{Error, invalid_query, no_soft_deletes}
use chandlery.Odm.Filter.{build_filter}
use chandlery.Odm.Query.{
  Query, UpdateOp, TrashedMode, trashed_excluded, trashed_included, trashed_only, with_error,
}
use chandlery.Odm.Query.Update.{Update, compile_update}

unfoldable pub soft_delete_filter : TrashedMode → Option Value
soft_delete_filter trashed_excluded = some (single "deleted_at" null)
soft_delete_filter trashed_only = some (single "deleted_at" (single "$ne" null))
soft_delete_filter trashed_included = none

unfoldable pub require_soft_deletes : String → Query → Option Error
require_soft_deletes call q =
    if q.meta.soft_deletes then none else some (invalid_query (no_soft_deletes call))

abbrev pub in_mode : TrashedMode → Query → Option Error → Query
in_mode mode q (some e) = with_error q e
in_mode mode q none = record q { trashed = mode }

unfoldable pub with_trashed_mode : String → TrashedMode → Query → Query
with_trashed_mode call mode q = in_mode mode q (require_soft_deletes call q)

unfoldable pub with_trashed : Query → Query
with_trashed q = with_trashed_mode "WithTrashed" trashed_included q

unfoldable pub only_trashed : Query → Query
only_trashed q = with_trashed_mode "OnlyTrashed" trashed_only q

abbrev pub scoped : List Value → Option Value → List Value
scoped fs none = fs
scoped fs (some scope) = fs ++ scope ∷ []

-- The conditions, and after them the scope of a model that soft-deletes.
unfoldable pub compile_filter : Query → TrashedMode → Value
compile_filter q mode =
    if q.meta.soft_deletes
    then build_filter (scoped q.filters (soft_delete_filter mode))
    else build_filter q.filters

unfoldable pub filter : Query → Value
filter q = compile_filter q q.trashed

unfoldable pub force_delete_mode : TrashedMode → TrashedMode
force_delete_mode trashed_excluded = trashed_included
force_delete_mode mode = mode

abbrev stamped : ℕ → Query → List UpdateOp → List UpdateOp
stamped now q ops =
    if not q.meta.timestamps || q.skip_timestamps
    then ops
    else ops ++ record { operator = "$set"; target = "updated_at"; value = time now } ∷ []

unfoldable pub restore_ops : ℕ → Query → List UpdateOp
restore_ops now q =
    stamped now q (record { operator = "$unset"; target = "deleted_at"; value = text "" } ∷ [])

unfoldable pub soft_delete_update : ℕ → Query → Update
soft_delete_update now q =
    compile_update
      (stamped now q (record { operator = "$set"; target = "deleted_at"; value = time now } ∷ []))
