-- ===== src/Odm/Terminal.antt =====
-- odm/execute.go and soft_delete.go: the methods that send a query to the server. The driver, the
-- decoding of a document, the snapshot of a model and the loading of relations are parameters.
pub mod Reach
pub mod Softly
use chandlery.Base.{
  ℕ, zero, suc, String, Bool, true, false, not, ◌&&◌, ◌||◌, Option, none, some, List, [], ◌∷◌, ◌++◌,
  ltb, if◌then◌else◌,
}
use chandlery.Base.Int.{ℤ, pos, negsuc, is_nonpos}
use chandlery.Odm.Value.{Value, is_nil}
use chandlery.Odm.Errors.{
  Error, invalid_query, duplicate_key, driver, model_not_found, nil_update, staged_updates, Result,
  ok, err, ◌>>=◌,
}
use chandlery.Odm.Query.{Query, Sorts, Projection, TrashedMode, trashed_only}
use chandlery.Odm.Query.Where.{filter_where}
use chandlery.Odm.Query.Update.{Update, compile_update, staged_update}
use chandlery.Odm.Query.Scope.{
  filter, compile_filter, require_soft_deletes, force_delete_mode, restore_ops, soft_delete_update,
}
use chandlery.Odm.Relation.{Relation}

pub record FindOptions : Type 0 where
  pub sort : Sorts
  pub projection : Projection
  pub limit : Option ℤ
  pub skip : Option ℤ

abbrev pub when {ℓ} : {A : Type ℓ} → Bool → A → Option A
when true a = some a
when false a = none

unfoldable pub find_options : Query → FindOptions
find_options q = record {
  sort = q.sorts;
  projection = q.projection;
  limit = when q.has_limit q.limit;
  skip = when q.has_skip q.skip;
}

-- FindOne has no limit to set.
unfoldable pub find_one_options : Query → FindOptions
find_one_options q = record {
  sort = q.sorts;
  projection = q.projection;
  limit = none;
  skip = when q.has_skip q.skip;
}

-- An error of the driver, and whether IsDuplicateKeyError says so of it.
pub record Fault : Type 0 where
  pub is_duplicate : Bool
  pub code : ℕ

unfoldable pub classify : Fault → Error
classify e = if e.is_duplicate then duplicate_key e.code else driver e.code

pub data Answer {ℓ} (A : Type ℓ) : Type ℓ where
  replied : A → Answer A
  failed : Fault → Answer A

pub record UpdateResult : Type 0 where
  pub matched_count : ℤ
  pub modified_count : ℤ

-- What UpdateMany is given: a compiled update, or the caller's own.
pub data UpdateDocument : Type 0 where
  compiled : Update → UpdateDocument
  raw : Value → UpdateDocument

pub record Driver : Type 1 where
  pub World : Type 0
  pub Doc : Type 0
  pub Model : Type 0
  -- the documents that the cursor gives, and the error that it ends with
  pub find : Value → FindOptions → World → World × Answer (List Doc × Option Fault)
  pub find_one : Value → FindOptions → World → World × Answer (Option Doc)
  -- with the limit of CountDocuments, if any
  pub count_documents : Value → Option ℕ → World → World × Answer ℤ
  pub update_many : Value → UpdateDocument → World → World × Answer UpdateResult
  pub update_one : Value → Update → Sorts → World → World × Answer UpdateResult
  pub delete_many : Value → World → World × Answer ℤ
  pub delete_one : Value → World → World × Answer ℤ
  -- whether there was a document
  pub find_one_and_delete : Value → Sorts → World → World × Answer Bool
  pub decode : Doc → Result Model
  pub snapshot : Model → Result Model
  pub load_relations : List Relation → List Model → List Doc → World → World × Result (List Model)

-- An error as it comes, and one that has been named.
abbrev pub plain {ℓ} : {A : Type ℓ} → Answer A → Result A
plain (replied a) = ok a
plain (failed e) = err (driver e.code)

abbrev pub classified {ℓ} : {A : Type ℓ} → Answer A → Result A
classified (replied a) = ok a
classified (failed e) = err (classify e)

module _ (c : Driver) where
  open c use {World, Doc, Model}

  abbrev pub Call : Type 0 → Type 0
  Call A = World → World × Result A

  abbrev pub and_then : {A B : Type 0} → World × Result A → (A → Call B) → World × Result B
  and_then (w, err e) rest = (w, err e)
  and_then (w, ok a) rest = rest a w

  -- `if q.err != nil { return q.err }`
  abbrev pub guarded : {A : Type 0} → Option Error → Call A → Call A
  guarded (some e) call w = (w, err e)
  guarded none call w = call w

  abbrev pub plainly : {A : Type 0} → World × Answer A → World × Result A
  plainly (w, a) = (w, plain a)

  abbrev pub by_name : {A : Type 0} → World × Answer A → World × Result A
  by_name (w, a) = (w, classified a)

  unfoldable pub snapshot_loop : List Model → Result (List Model)
  snapshot_loop [] = ok []
  snapshot_loop (m ∷ ms) = do s ← c.snapshot m; rest ← snapshot_loop ms; ok (s ∷ rest)

  unfoldable pub snapshot_all : Bool → List Model → Result (List Model)
  snapshot_all trackable ms = let taken = snapshot_loop ms in if trackable then taken else ok ms

  unfoldable pub decode_all : List Doc → Option Fault → Result (List Model)
  decode_all [] none = ok []
  decode_all [] (some e) = err (driver e.code)
  decode_all (d ∷ ds) e = do m ← c.decode d; rest ← decode_all ds e; ok (m ∷ rest)

  -- The documents are kept where `keep_raw` asks for them.
  abbrev pub hydrated : Query → Bool → List Doc × Option Fault → Result (List Model × List Doc)
  hydrated q keep_raw (docs, e) = do
    models ← decode_all docs e
    tracked ← snapshot_all q.meta.trackable models
    ok (tracked, if keep_raw then docs else [])

  unfoldable pub fetch : Query → Bool → Call (List Model × List Doc)
  fetch q keep_raw = guarded q.error (λ w.
      and_then (plainly (c.find (filter q) (find_options q) w))
        (λ stream w. (w, hydrated q keep_raw stream)))

  abbrev pub has_relations : List Relation → Bool
  has_relations [] = false
  has_relations (r ∷ rs) = true

  -- Query.loadRelations
  abbrev pub load : List Relation → List Model → List Doc → Call (List Model)
  load [] models docs w = (w, ok models)
  load (r ∷ rs) [] docs w = (w, ok [])
  load (r ∷ rs) (m ∷ models) docs w = c.load_relations (r ∷ rs) (m ∷ models) docs w

  unfoldable pub get : Query → Call (List Model)
  get q w = and_then (fetch q (has_relations q.relations) w) (λ r w. load q.relations r.0 r.1 w)

  -- models[0]
  abbrev pub first_model : List Model → Result Model
  first_model [] = err model_not_found
  first_model (m ∷ ms) = ok m

  abbrev pub single_model : Doc → Query → Result (List Model)
  single_model d q = do m ← c.decode d; snapshot_all q.meta.trackable (m ∷ [])

  abbrev pub found_one : Query → Option Doc → Call Model
  found_one q none w = (w, err model_not_found)
  found_one q (some d) w =
      and_then (w, single_model d q)
        (λ models w.
          and_then (load q.relations models (d ∷ []) w) (λ loaded w. (w, first_model loaded)))

  unfoldable pub first : Query → Call Model
  first q =
      guarded q.error
        (λ w. and_then (plainly (c.find_one (filter q) (find_one_options q) w)) (found_one q))

  unfoldable pub find : Query → Value → Call Model
  find q id = first (filter_where q "_id" (id ∷ []))

  unfoldable pub count : Query → Call ℤ
  count q = guarded q.error (λ w. plainly (c.count_documents (filter q) none w))

  unfoldable pub exists : Query → Call Bool
  exists q = guarded q.error (λ w.
      and_then (plainly (c.count_documents (filter q) (some 1) w))
        (λ n w. (w, ok (not (is_nonpos n)))))

  unfoldable pub update : ℕ → Query → Call UpdateResult
  update now q w =
      and_then (w, staged_update now q) (λ u w. by_name (c.update_many (filter q) (compiled u) w))

  -- The sorts are an option only where there are any: an empty list here is none.
  unfoldable pub send_update_one : Query → Update → Call UpdateResult
  send_update_one q u w = by_name (c.update_one (filter q) u q.sorts w)

  unfoldable pub update_one : ℕ → Query → Call UpdateResult
  update_one now q w = and_then (w, staged_update now q) (send_update_one q)

  abbrev pub has_updates : Query → Bool
  has_updates q = elim q.updates [ [] ↦ false | u ∷ us ↦ true ]

  unfoldable pub update_raw : Query → Value → Call UpdateResult
  update_raw q u = guarded q.error (λ w.
      if is_nil u
      then (w, err (invalid_query nil_update))
      else if has_updates q
      then (w, err (invalid_query staged_updates))
      else by_name (c.update_many (filter q) (raw u) w))

  unfoldable pub delete : ℕ → Query → Call ℤ
  delete now q = guarded q.error (λ w. elim q.meta.soft_deletes [
    | false ↦ plainly (c.delete_many (filter q) w)
    | true ↦
        and_then (by_name (c.update_many (filter q) (compiled (soft_delete_update now q)) w))
          (λ r w. (w, ok r.modified_count))
  ])

  abbrev pub one_if : Bool → ℤ
  one_if true = pos 1
  one_if false = pos 0

  -- A hard DeleteOne, by the order if there is one.
  abbrev pub delete_sorted : Query → Sorts → Call ℤ
  delete_sorted q [] w = plainly (c.delete_one (filter q) w)
  delete_sorted q (s ∷ sorts) w =
      and_then (plainly (c.find_one_and_delete (filter q) (s ∷ sorts) w))
        (λ there w. (w, ok (one_if there)))

  unfoldable pub delete_one : ℕ → Query → Call ℤ
  delete_one now q = guarded q.error (λ w. elim q.meta.soft_deletes [
    | true ↦
        and_then (send_update_one q (soft_delete_update now q) w) (λ r w. (w, ok r.modified_count))
    | false ↦ delete_sorted q q.sorts w
  ])

  unfoldable pub restore : ℕ → Query → Call UpdateResult
  restore now q = guarded q.error (
      guarded (require_soft_deletes "Restore" q) (λ w. by_name (
        c.update_many (compile_filter q trashed_only)
          (compiled (compile_update (restore_ops now q))) w)))

  unfoldable pub force_delete : Query → Call ℤ
  force_delete q = guarded q.error (
      guarded (require_soft_deletes "ForceDelete" q)
        (λ w. plainly (c.delete_many (compile_filter q (force_delete_mode q.trashed)) w)))
