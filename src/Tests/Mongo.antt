-- ===== src/Tests/Mongo.antt =====
-- A small MongoDB, as a witness that what is relied on of it can hold: a document gives each field a
-- number, and 0 stands for null.
use chandlery.Base.{
  ℕ, String, ◌≡◌, refl, Bool, true, false, not, ◌&&◌, ◌||◌, List, [], ◌∷◌, arith, all, any, ltb,
  leb, ◌==◌, str_eq, if◌then◌else◌,
}
use chandlery.Base.Int.{pos}
use chandlery.Odm.Value.{Value, int, int32, array, dict, Values, nil, cons, field, end, values}
use chandlery.Odm.Mongo.{IsMongo}

abbrev pub Doc : Type 0
Doc = String → ℕ

-- The number of a value.
abbrev pub number : Value → ℕ
number (int (pos n)) = n
number (int32 (pos n)) = n
number _ = 0

abbrev pub ordered : String → ℕ → ℕ → Bool
ordered op a b =
    if str_eq op "$gt"
    then ltb a b
    else if str_eq op "$lt"
    then ltb b a
    else if str_eq op "$gte"
    then leb a b
    else if str_eq op "$lte"
    then leb b a
    else false

unfoldable mutual
  pub holds : String → Value → Doc → Bool
  holds k (array vs) d =
      let every = holds_all vs d in
      let one = holds_any vs d in
      if str_eq k "$and" then every else if str_eq k "$or" then one else false
  holds k (dict (field op v end)) d =
      let equal = holds k v d in if str_eq op "$ne" then not equal else ordered op (number v) (d k)
  holds k (dict (field op v (field op' w end))) d =
      (str_eq op "$gte" && str_eq op' "$lte") && (leb (number v) (d k) && leb (d k) (number w))
  holds k v d = number v == d k

  pub matches : Value → Doc → Bool
  matches (dict end) d = true
  matches (dict (field k v end)) d = holds k v d
  matches _ d = false

  pub holds_all : Values → Doc → Bool
  holds_all nil d = true
  holds_all (cons f fs) d = matches f d && holds_all fs d

  pub holds_any : Values → Doc → Bool
  holds_any nil d = false
  holds_any (cons f fs) d = matches f d || holds_any fs d

holds_all-values : (fs : List Value) (d : Doc) → holds_all (values fs) d ≡ all (λ f. matches f d) fs
unfolding holds_all
holds_all-values [] d = refl
holds_all-values (f ∷ fs) d = ground (arith, holds_all-values fs d)

holds_any-values : (fs : List Value) (d : Doc) → holds_any (values fs) d ≡ any (λ f. matches f d) fs
unfolding holds_any
holds_any-values [] d = refl
holds_any-values (f ∷ fs) d = ground (arith, holds_any-values fs d)

pub matches-IsMongo : IsMongo matches
unfolding matches holds
matches-IsMongo = record {
  empty = λ d. refl;
  conjunction = holds_all-values;
  disjunction = holds_any-values;
  not_equal = λ f v d. refl;
  between = λ f low high d. refl;
}
