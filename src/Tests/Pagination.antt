-- ===== src/Tests/Pagination.antt =====
-- The theorem on the pages at a concrete server.
use chandlery.Base.{
  ℕ, ◌≡◌, refl, true, none, List, [], ◌∷◌, arith, str_eq, map, take, filter, if◌then◌else◌, length,
}
use chandlery.Base.Int.{pos, pos_part}
use chandlery.Odm.Value.{int, int32}
use chandlery.Odm.Errors.{ok}
use chandlery.Odm.Filter.{build_filter}
use chandlery.Odm.Query.{Query, ModelMeta, new_query, Sorts}
use chandlery.Odm.Query.Scope
use chandlery.Odm.Cursor
use chandlery.Odm.Cursor.{found}
use chandlery.Odm.Cursor.Keyset.{later}
use chandlery.Odm.Pagination.{Backend}
use chandlery.Odm.Pagination.Page.{IsServed}
use chandlery.Odm.Pagination.Complete.{walk, walk-eq}
use chandlery.Tests.Codec.{codec}
use chandlery.Tests.Mongo
use chandlery.Tests.Mongo.{Doc, matches, matches-IsMongo}

abbrev numbered : ℕ → Doc
numbered n f = if str_eq f "_id" then n else 0

abbrev ordered : List Doc
ordered = numbered 1 ∷ numbered 2 ∷ numbered 5 ∷ []

abbrev backend : Backend Doc Doc
backend = record {
  find = λ f sorts projection n. ok (take (pos_part n) (filter (matches f) ordered), none);
  decode = λ d. ok d;
  read = λ d f. found (int32 (pos (d f)));
  codec = codec;
  settle = λ ms ds. ok ms;
}

abbrev notes : ModelMeta
notes = record { collection = "notes"; timestamps = true; soft_deletes = true; trackable = true }

abbrev by_id : Query
by_id = record (new_query notes) { sorts = ("_id", int (pos 1)) ∷ [] }

abbrev keys : Doc → Sorts
keys d = ("_id", int32 (pos (d "_id"))) ∷ []

backend-IsServed :
    IsServed backend matches by_id ordered (λ d. d) (λ d. d) keys keys (λ d. d "_id") (λ d. [])
unfolding Cursor.pagination_sorts Cursor.has_id Cursor.cursor_keys Cursor.encode_cursor
    Cursor.decode_cursor Cursor.same_sort Cursor.same_fields Cursor.same_direction
    Cursor.direction_of later matches Mongo.holds
backend-IsServed = record {
  find = λ f n. refl;
  decode = λ d. refl;
  settle = λ ds. refl;
  key = λ d. refl;
  encode = λ d. refl;
  opens = λ d. refl;
  order = (refl, ((refl, refl), ((refl, refl), tt)), (refl, ((refl, refl), tt), (refl, tt, tt)));
}

three : length (filter (matches (Scope.filter by_id)) ordered) ≡ 3
unfolding matches Mongo.holds Scope.filter Scope.compile_filter Scope.soft_delete_filter
    build_filter
three = refl

walk-eq_example :
    walk backend by_id (pos 2) 4 []
    ≡ ok (map (λ d. d) (filter (matches (Scope.filter by_id)) ordered))
walk-eq_example =
    walk-eq backend matches matches-IsMongo by_id ordered (λ d. d) (λ d. d) keys keys (λ d. d "_id")
      (λ d. []) backend-IsServed 2 4 refl (omega arith) (omega arith) (omega (arith, three))
