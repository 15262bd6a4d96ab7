-- ===== src/Odm/Cursor/Keyset.antt =====
-- odm/cursor.go: keysetFilter selects what comes after a document in the order of the sort.
use chandlery.Base.{
  ◌≡◌, refl, ◌∙◌, Bool, false, ◌&&◌, ◌||◌, List, [], ◌∷◌, ◌++◌, arith, all, any, all-append,
}
use chandlery.Base.{String, true}
use chandlery.Base.Int.{pos, negsuc, is_neg}
use chandlery.Odm.Value.{
  Value, dict, null, typed_nil, bool, int, int32, int64, uint8, text, operator, time, object_id,
  opaque, array, document, element, single,
}
use chandlery.Odm.Mongo.{IsMongo}
use chandlery.Odm.Query.{Sorts}
use chandlery.Odm.Query.Chain.{build_filter-matches}
use chandlery.Odm.Cursor.{direction_of, seek_operator, branches, keyset_filter}

-- A direction below zero sorts downwards; any other, and what is no direction, upwards.
abbrev pub goes_down : Value → Bool
goes_down (int d) = is_neg d
goes_down (int32 d) = is_neg d
goes_down (int64 d) = is_neg d
goes_down _ = false

-- Beyond a key: less than it where the sort goes down, greater where it goes up.
abbrev pub beyond {ℓ} : {Doc : Type ℓ} → (Value → Doc → Bool) → String → Bool → Value → Doc → Bool
beyond matches f true k doc = matches (single f (single "$lt" k)) doc
beyond matches f false k doc = matches (single f (single "$gt" k)) doc

-- Later than the keys in the lexicographic order: beyond the first key, or equal to it and later than
-- the others.
unfoldable pub later {ℓ} : {Doc : Type ℓ} → (Value → Doc → Bool) → Sorts → Sorts → Doc → Bool
later matches ((f, d) ∷ sorts) ((g, k) ∷ keys) doc =
    beyond matches f (goes_down d) k doc
    || (matches (single f k) doc && later matches sorts keys doc)
later matches _ _ doc = false

module _ {Doc : Type 0} (matches : Value → Doc → Bool) (m : IsMongo matches) where
  seek-beyond :
      (f : String) (d k : Value) (doc : Doc)
      → matches (single f (single (seek_operator d) k)) doc ≡ beyond matches f (goes_down d) k doc
  unfolding direction_of
  seek-beyond f (int (pos n)) k doc = refl
  seek-beyond f (int (negsuc n)) k doc = refl
  seek-beyond f (int32 (pos n)) k doc = refl
  seek-beyond f (int32 (negsuc n)) k doc = refl
  seek-beyond f (int64 (pos n)) k doc = refl
  seek-beyond f (int64 (negsuc n)) k doc = refl
  seek-beyond f null k doc = refl
  seek-beyond f (typed_nil x) k doc = refl
  seek-beyond f (bool b) k doc = refl
  seek-beyond f (uint8 n) k doc = refl
  seek-beyond f (text t) k doc = refl
  seek-beyond f (operator o) k doc = refl
  seek-beyond f (time t) k doc = refl
  seek-beyond f (object_id o) k doc = refl
  seek-beyond f (opaque n) k doc = refl
  seek-beyond f (dict fs) k doc = refl
  seek-beyond f (array vs) k doc = refl
  seek-beyond f (document fs) k doc = refl
  seek-beyond f (element x v) k doc = refl

  branches-later :
      (equal : List Value) (sorts keys : Sorts) (doc : Doc)
      → any (λ f. matches f doc) (branches equal sorts keys)
        ≡ (all (λ f. matches f doc) equal && later matches sorts keys doc)
  unfolding branches later
  branches-later equal [] keys doc = ground arith
  branches-later equal (s ∷ sorts) [] doc = ground arith
  branches-later equal ((f, d) ∷ sorts) ((g, k) ∷ keys) doc = ground (
    arith,
    seek-beyond f d k doc,
    build_filter-matches matches m doc (equal ++ single f (single (seek_operator d) k) ∷ []),
    all-append (λ h. matches h doc) equal (single f (single (seek_operator d) k) ∷ []),
    all-append (λ h. matches h doc) equal (single f k ∷ []),
    branches-later (equal ++ single f k ∷ []) sorts keys doc,
  )

  -- For sorts of any number, the filter matches exactly the documents that come later than the keys
  -- in the lexicographic order of the sorts: less than a key where the sort goes down, else greater.
  pub keyset_filter-matches :
      (sorts keys : Sorts) (doc : Doc)
      → matches (keyset_filter sorts keys) doc ≡ later matches sorts keys doc
  unfolding keyset_filter
  keyset_filter-matches sorts keys doc =
      m.disjunction (branches [] sorts keys) doc ∙ branches-later [] sorts keys doc
