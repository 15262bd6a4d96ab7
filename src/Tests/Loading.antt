-- ===== src/Tests/Loading.antt =====
-- The theorems on the loading of relations at concrete inputs.
use chandlery.Base.{ℕ, ◌≡◌, ◌≢◌, refl, some, List, [], ◌∷◌, any, get_elem?, length, ◌==◌, arith}
use chandlery.Base.Text
use chandlery.Odm.Errors.{ok}
use chandlery.Odm.State.{RawValue}
use chandlery.Odm.Value.{null}
use chandlery.Odm.Loading
use chandlery.Odm.Loading.{
  Reader, Source, KeyId, has_key, has_index, matches_for, group_by_key, Groups, document_keys, pick,
  load_many,
}
use chandlery.Odm.Loading.Groups.{keys_at}
use chandlery.Odm.Loading.Attached.{models_of, at_positions, load_many-attaches}
use chandlery.Odm.Loading.Ascending.{IsAscending, matches_for-IsAscending}

-- A document is the value of its one field; type 4 is an array, of numbers.
abbrev numbers : List ℕ → List RawValue
numbers [] = []
numbers (n ∷ ns) = record { kind = 16; content = n ∷ [] } ∷ numbers ns

abbrev reader : Reader RawValue
reader = record {
  find = λ d f. some d;
  is_array = λ v. v.kind == 4;
  elements = λ v. some (numbers v.content);
  decode = λ v. ok null;
}

abbrev key : ℕ → KeyId
key n = 16 ∷ n ∷ []

abbrev documents : List RawValue
documents =
    record { kind = 4; content = 3 ∷ 5 ∷ [] }
    ∷ record { kind = 16; content = 5 ∷ [] }
    ∷ record { kind = 16; content = 8 ∷ [] }
    ∷ []

-- The server's answer: the documents, which are the related models too.
abbrev source : Source RawValue RawValue ℕ
source = record {
  fetch = λ f vs w. (ℕ.suc w, ok (documents, documents));
  settle = λ related docs w. (w, ok related);
}

-- A parent is what is attached to it.
abbrev attach : List RawValue → List RawValue → List RawValue
attach p related = related

abbrev parent_document : RawValue
parent_document = record { kind = 4; content = 8 ∷ 5 ∷ [] }

keyed :
    document_keys reader "role_ids" (parent_document ∷ [])
    ≡ ok ((key 8 ∷ key 5 ∷ []) ∷ [], null ∷ null ∷ [])
unfolding document_keys Loading.document_loop Loading.element_loop Loading.field_keys Loading.key_of
    Loading.has_key Text.eq
keyed = refl

load_many-attaches_example :
    (get_elem?
        (models_of
          (load_many reader source attach "role_ids" "_id" ([] ∷ []) (parent_document ∷ []) 0).1)
        0
      ≡ some (
          attach [] (
            at_positions documents (
              matches_for
                (keys_at reader "role_ids" (some parent_document))
                (group_by_key reader "_id" documents)))))
    × (has_index 1 (
          matches_for
            (keys_at reader "role_ids" (some parent_document))
            (group_by_key reader "_id" documents))
        ≡ any
            (λ k. has_key k (keys_at reader "_id" (get_elem? documents 1)))
            (keys_at reader "role_ids" (some parent_document)))
load_many-attaches_example =
    load_many-attaches reader source attach "role_ids" "_id" ([] ∷ []) (parent_document ∷ []) 0 1 1
      ((key 8 ∷ key 5 ∷ []) ∷ []) null (null ∷ []) documents documents documents 0 1 []
      parent_document keyed refl refl refl refl

two : length (key 8 ∷ key 5 ∷ []) ≢ 1
two h = absurd (omega (arith, h))

matches_for-IsAscending_example :
    IsAscending (matches_for (key 8 ∷ key 5 ∷ []) (group_by_key reader "role_ids" documents))
matches_for-IsAscending_example =
    matches_for-IsAscending (group_by_key reader "role_ids" documents) (key 8 ∷ key 5 ∷ []) two

-- A parent with one key gets a document that holds the key twice two times.
repeats :
    matches_for
      (key 3 ∷ [])
      (group_by_key reader "role_ids" (record { kind = 4; content = 3 ∷ 3 ∷ [] } ∷ []))
    ≡ 0 ∷ 0 ∷ []
unfolding matches_for group_by_key Loading.group_loop Loading.index_loop Loading.add_index
    Loading.group_at Loading.field_keys Loading.key_of Text.eq
repeats = refl
