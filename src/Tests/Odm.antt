-- ===== src/Tests/Odm.antt =====
-- The theorems on odm at concrete inputs.
use chandlery.Base.{
  ℕ, zero, suc, ◌+◌, ◌≤◌, ◌<◌, String, ◌≡◌, ◌↔◌, refl, Bool, true, false, ◌&&◌, ◌||◌, not, Option,
  some, none, List, [], ◌∷◌, ◌++◌, arith, ◌==◌, if◌then◌else◌, length, map, str_eq, str_eq_iff,
}
use chandlery.Base.Int.{pos, negsuc}
use chandlery.Base.Assoc.{lookup}
use chandlery.Base
use chandlery.Odm.Value.{Value, int, int32}
use chandlery.Odm.Errors.{ok}
use chandlery.Odm.Filter.{build_filter}
use chandlery.Odm.Query.{Query, ModelMeta, new_query, Sorts, UpdateOp, trashed_only}
use chandlery.Odm.Query.Meaning.{Condition, chain, said, joined_all, or_true}
use chandlery.Odm.Query.Chain.{chain-matches}
use chandlery.Odm.Query.Calls.{Call}
use chandlery.Odm.Query.Grouping.{under, entry_of, uses, IsKeyed, compile_update-groups}
use chandlery.Odm.Query.Update
use chandlery.Odm.Query.Update.{compile_update, staged_update}
use chandlery.Odm.Query.Staged.{value_with, effective, staged_update-fields}
use chandlery.Odm.Query.Scope
use chandlery.Odm.Query.Scope.{compile_filter, force_delete_mode}
use chandlery.Odm.Query.Visible.{filter-matches, scope_admits}
use chandlery.Odm.Cursor.{Payload, decode_cursor, encode_cursor, keyset_filter, cursor_version}
use chandlery.Odm.Cursor.Keyset.{later, keyset_filter-matches}
use chandlery.Odm.Cursor.Opaque.{
  SameSort, stored_all, decode_cursor-encode_cursor, decode_cursor_iff,
}
use chandlery.Tests.Codec.{codec, stored, codec-IsCodec}
use chandlery.Tests.Mongo.{Doc, matches, matches-IsMongo}

abbrev tasks : ModelMeta
tasks = record { collection = "tasks"; timestamps = true; soft_deletes = true; trackable = true }

abbrev doc : Doc
doc f = if str_eq f "done" then 1 else if str_eq f "age" then 30 else 0

abbrev conditions : List Condition
conditions =
    Condition.filter_where "done" (int (pos 1) ∷ [])
    ∷ Condition.or_where "age" (Value.operator ">" ∷ int (pos 40) ∷ [])
    ∷ Condition.where_null "deleted_at"
    ∷ []

chain-matches_example :
    matches (build_filter (chain (new_query tasks) conditions).filters) doc
    ≡ or_true (joined_all matches doc (said matches doc []) conditions)
chain-matches_example = chain-matches matches matches-IsMongo (new_query tasks) conditions doc

abbrev sorts : Sorts
sorts = ("age", int (negsuc 0)) ∷ ("_id", int (pos 1)) ∷ []

abbrev keys : Sorts
keys = ("age", int32 (pos 40)) ∷ ("_id", int32 (pos 7)) ∷ []

keyset_filter-matches_example :
    matches (keyset_filter sorts keys) doc ≡ later matches sorts keys doc
keyset_filter-matches_example = keyset_filter-matches matches matches-IsMongo sorts keys doc

abbrev calls : List Call
calls =
    Call.order_by "age" (negsuc 0)
    ∷ Call.select ("age" ∷ [])
    ∷ Call.set "done" (int (pos 1))
    ∷ Call.inc "done" (int (pos 2))
    ∷ Call.limit (negsuc 3)
    ∷ []

abbrev ops : List UpdateOp
ops =
    record { operator = "$set"; target = "a"; value = int (pos 1) }
    ∷ record { operator = "$inc"; target = "b"; value = int (pos 2) }
    ∷ record { operator = "$set"; target = "c"; value = int (pos 3) }
    ∷ []

compile_update-groups_example :
    (under "$set" (compile_update ops) ≡ map entry_of (Base.filter (uses "$set") ops))
    × IsKeyed (compile_update ops)
compile_update-groups_example = compile_update-groups ops "$set"

abbrev staged : Query
staged = record (new_query tasks) { updates = ops }

stages : staged_update 9 staged ≡ ok (compile_update (ops ++ Update.updated_at 9 ∷ []))
unfolding staged_update Update.timestamped_ops Update.staged_on
stages = refl

staged_update-fields_example :
    lookup "updated_at" (under "$set" (compile_update (ops ++ Update.updated_at 9 ∷ [])))
    ≡ value_with "$set" (effective 9 staged "updated_at")
unfolding Update.staged_on
staged_update-fields_example =
    staged_update-fields 9 staged (compile_update (ops ++ Update.updated_at 9 ∷ []))
      (refl, (refl, (refl, tt))) stages "$set" "updated_at"

abbrev trashed : Query
trashed = record (new_query tasks) { trashed = trashed_only }

filter-matches_example :
    matches (Scope.filter trashed) doc
    ≡ (matches (build_filter []) doc && scope_admits matches matches-IsMongo trashed_only doc)
filter-matches_example = filter-matches matches matches-IsMongo trashed doc

abbrev by_id : Sorts
by_id = ("_id", int (pos 1)) ∷ []

encodes : encode_cursor codec by_id (("_id", int32 (pos 5)) ∷ []) ≡ ok (5 ∷ [])
unfolding encode_cursor
encodes = refl

decode_cursor-encode_cursor_example :
    decode_cursor codec (5 ∷ []) by_id ≡ ok (stored_all stored (("_id", int32 (pos 5)) ∷ []))
decode_cursor-encode_cursor_example =
    decode_cursor-encode_cursor codec stored codec-IsCodec by_id (("_id", int32 (pos 5)) ∷ [])
      (5 ∷ []) (pos 1, refl, tt) refl encodes

abbrev fifth : Payload
fifth = record {
  version = 1;
  sorts = ("_id", int32 (pos 1)) ∷ [];
  keys = ("_id", int32 (pos 5)) ∷ [];
}

decode_cursor_iff_example : (decode_cursor codec (5 ∷ []) by_id ≡ ok fifth.keys) ↔ (
    (fifth.version ≡ cursor_version)
    × (length fifth.keys ≡ length fifth.sorts)
    × SameSort fifth.sorts by_id
    × (fifth.keys ≡ fifth.keys))
decode_cursor_iff_example =
    decode_cursor_iff codec (5 ∷ []) by_id fifth.keys (5 ∷ []) fifth refl refl
