-- ===== src/Odm/Loading.antt =====
-- odm/relation.go, has_many.go, has_one.go, belongs_to.go, belongs_to_many.go: the loading of a
-- relation over a page of parents. The bson reading of a document, the query for the related
-- documents, and the relations nested in this one are parameters.
pub mod Matches
pub mod Groups
pub mod Ascending
pub mod Related
pub mod Attached
use chandlery.Base.{
  ℕ, zero, suc, String, Bool, true, false, Option, none, some, List, [], ◌∷◌, ◌++◌, ◌==◌, leb,
  str_eq, map, length, if◌then◌else◌, get_elem?,
}
use chandlery.Base.Text.{Text, eq}
use chandlery.Odm.Value.{Value}
use chandlery.Odm.Errors.{Error, Result, ok, err, ◌>>=◌}
use chandlery.Odm.State.{RawValue}

-- keyID: the type byte and the bytes.
abbrev pub KeyId : Type 0
KeyId = Text

unfoldable pub key_of : RawValue → KeyId
key_of v = v.kind ∷ v.content

abbrev pub Groups : Type 0
Groups = List (KeyId × List ℕ)

-- grouped[key], empty where there is none.
unfoldable pub group_at : KeyId → Groups → List ℕ
group_at k [] = []
group_at k ((j, is) ∷ g) = let rest = group_at k g in if eq j k then is else rest

-- grouped[key] = append(grouped[key], i)
unfoldable pub add_index : KeyId → ℕ → Groups → Groups
add_index k i [] = (k, i ∷ []) ∷ []
add_index k i ((j, is) ∷ g) =
    let rest = add_index k i g in if eq j k then (j, is ++ i ∷ []) ∷ g else (j, is) ∷ rest

unfoldable pub has_key : KeyId → List KeyId → Bool
has_key k [] = false
has_key k (j ∷ ks) = let rest = has_key k ks in if eq j k then true else rest

unfoldable pub has_index : ℕ → List ℕ → Bool
has_index i [] = false
has_index i (j ∷ is) = let rest = has_index i is in if j == i then true else rest

-- slices.Sort
unfoldable pub sort_insert : ℕ → List ℕ → List ℕ
sort_insert i [] = i ∷ []
sort_insert i (j ∷ is) = let rest = sort_insert i is in if leb i j then i ∷ j ∷ is else j ∷ rest

unfoldable pub sort : List ℕ → List ℕ
sort [] = []
sort (i ∷ is) = sort_insert i (sort is)

-- The inner loop of matchesFor; what has been seen is what is in `matches`.
unfoldable pub unseen : List ℕ → List ℕ → List ℕ
unseen matches [] = matches
unseen matches (i ∷ is) =
    let skipped = unseen matches is in
    let added = unseen (matches ++ i ∷ []) is in if has_index i matches then skipped else added

unfoldable pub collected : Groups → List ℕ → List KeyId → List ℕ
collected g matches [] = matches
collected g matches (k ∷ ks) = collected g (unseen matches (group_at k g)) ks

unfoldable pub matches_for : List KeyId → Groups → List ℕ
matches_for (k ∷ []) g = group_at k g
matches_for ks g = sort (collected g [] ks)

unfoldable pub local_key_or : String → String
local_key_or k = if str_eq k "" then "_id" else k

-- The bson package: LookupErr of a dotted path, whether a value is an array, its elements, and
-- Unmarshal.
pub record Reader (Doc : Type 0) : Type 0 where
  pub find : Doc → String → Option RawValue
  pub is_array : RawValue → Bool
  pub elements : RawValue → Option (List RawValue)
  pub decode : RawValue → Result Value

module _ {Doc : Type 0} (r : Reader Doc) (f : String) where
  abbrev pub keys_of : Option RawValue → Option (List RawValue)
  keys_of none = none
  keys_of (some v) = if r.is_array v then r.elements v else some (v ∷ [])

  unfoldable pub field_keys : Doc → Option (List RawValue)
  field_keys d = keys_of (r.find d f)

  -- One document's elements: its keys, and the values that were not seen before.
  unfoldable pub element_loop :
      List KeyId
      → List KeyId
      → List Value
      → List RawValue
      → Result (List KeyId × List KeyId × List Value)
  element_loop seen keys values [] = ok (seen, keys, values)
  element_loop seen keys values (e ∷ es) =
      let k = key_of e in
      let again = element_loop seen (keys ++ k ∷ []) values es in
      let first = (do
        d ← r.decode e
        element_loop (k ∷ seen) (keys ++ k ∷ []) (values ++ d ∷ []) es) in
      if has_key k seen then again else first

  abbrev pub or_no_keys : Option (List RawValue) → List RawValue
  or_no_keys none = []
  or_no_keys (some es) = es

  -- documentKeys: the keys of each document, and the distinct values.
  unfoldable pub document_loop :
      List KeyId
      → List (List KeyId)
      → List Value
      → List Doc
      → Result (List (List KeyId) × List Value)
  document_loop seen keys values [] = ok (keys, values)
  document_loop seen keys values (d ∷ ds) = do
    e ← element_loop seen [] values (or_no_keys (field_keys d))
    document_loop e.0 (keys ++ e.1 ∷ []) e.2 ds

  unfoldable pub document_keys : List Doc → Result (List (List KeyId) × List Value)
  document_keys ds = document_loop [] [] [] ds

  -- groupByKey
  unfoldable pub index_loop : ℕ → Groups → List RawValue → Groups
  index_loop i g [] = g
  index_loop i g (e ∷ es) = index_loop i (add_index (key_of e) i g) es

  unfoldable pub group_loop : ℕ → Groups → List Doc → Groups
  group_loop i g [] = g
  group_loop i g (d ∷ ds) = group_loop (suc i) (index_loop i g (or_no_keys (field_keys d))) ds

  unfoldable pub group_by_key : List Doc → Groups
  group_by_key ds = group_loop 0 [] ds

-- relatedDocuments with what it reads of the server, and loadNested.
pub record Source (Related Doc World : Type 0) : Type 0 where
  pub fetch : String → List Value → World → World × Result (List Related × List Doc)
  pub settle : List Related → List Doc → World → World × Result (List Related)

-- related[j], for the indices that there are
abbrev pub picked {ℓ} : {A : Type ℓ} → Option A → List A → List A
picked none rest = rest
picked (some a) rest = a ∷ rest

unfoldable pub pick {ℓ} : {A : Type ℓ} → List A → List ℕ → List A
pick related [] = []
pick related (j ∷ js) = picked (get_elem? related j) (pick related js)

abbrev pub first_of {ℓ} : {A : Type ℓ} → List A → Option A
first_of [] = none
first_of (a ∷ rest) = some a

-- What a relation gives a parent: all that match, or the first.
unfoldable pub attach_loop :
    {Parent Related : Type 0}
    → (Parent → List Related → Parent)
    → List Related
    → Groups
    → List Parent
    → List (List KeyId)
    → List Parent
attach_loop attach related g (p ∷ ps) (ks ∷ keys) =
    attach p (pick related (matches_for ks g)) ∷ attach_loop attach related g ps keys
attach_loop attach related g ps _ = ps

module _ {Parent Related Doc World : Type 0} (r : Reader Doc) (s : Source Related Doc World)
    (attach : Parent → List Related → Parent) where
  abbrev pub attached :
      String
      → List Parent
      → List (List KeyId)
      → List Doc
      → World × Result (List Related)
      → World × Result (List Parent)
  attached key parents keys docs (w, err e) = (w, err e)
  attached key parents keys docs (w, ok related) =
      (w, ok (attach_loop attach related (group_by_key r key docs) parents keys))

  abbrev pub settled :
      String
      → List Parent
      → List (List KeyId)
      → World × Result (List Related × List Doc)
      → World × Result (List Parent)
  settled key parents keys (w, err e) = (w, err e)
  settled key parents keys (w, ok (related, docs)) =
      attached key parents keys docs (s.settle related docs w)

  abbrev pub matched :
      String
      → List Parent
      → World
      → Result (List (List KeyId) × List Value)
      → World × Result (List Parent)
  matched key parents w (err e) = (w, err e)
  matched key parents w (ok (keys, [])) = (w, ok (map (λ p. attach p []) parents))
  matched key parents w (ok (keys, v ∷ vs)) = settled key parents keys (s.fetch key (v ∷ vs) w)

  -- loadMany, for HasMany with (LocalKey or _id, ForeignKey) and BelongsToMany with (LocalKey,
  -- OwnerKey or _id).
  unfoldable pub load_many :
      String → String → List Parent → List Doc → World → World × Result (List Parent)
  load_many parent_key related_key parents docs w =
      matched related_key parents w (document_keys r parent_key docs)

-- HasOne and BelongsTo: the same, but Attach takes the first match, or nil.
unfoldable pub load_one :
    {Parent Related Doc World : Type 0}
    → Reader Doc
    → Source Related Doc World
    → (Parent → Option Related → Parent)
    → String
    → String
    → List Parent
    → List Doc
    → World
    → World × Result (List Parent)
load_one r s attach parent_key related_key parents docs w =
    load_many r s (λ p found. attach p (first_of found)) parent_key related_key parents docs w
