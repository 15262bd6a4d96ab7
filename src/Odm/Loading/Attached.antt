-- ===== src/Odm/Loading/Attached.antt =====
-- odm/has_many.go: what loadMany attaches to each parent.
use chandlery.Base.{
  ℕ, zero, suc, ◌≡◌, sym, ap, subst, ◌∙◌, String, Bool, true, false, Option, none, refl, some, List,
  [], ◌∷◌, ◌++◌, append_assoc, append-nil, any, map, get_elem?, if◌then◌else◌,
}
use chandlery.Odm.Value.{Value}
use chandlery.Odm.Errors.{Result, ok, err, ◌>>=◌}
use chandlery.Odm.State.{RawValue}
use chandlery.Odm.Loading.{
  KeyId, key_of, Groups, has_key, has_index, matches_for, Reader, field_keys, element_loop,
  or_no_keys, document_loop, document_keys, group_by_key, Source, pick, picked, attach_loop,
  attached, settled, matched, load_many,
}
use chandlery.Odm.Loading.Groups.{keys_at}
use chandlery.Odm.Loading.Matches.{matches_for-reaches}

module _ {Doc : Type 0} (r : Reader Doc) (f : String) where
  -- What is left by the loop over a document's elements, when it is not an error, has these keys.
  abbrev HasKeys : Result (List KeyId × List KeyId × List Value) → List KeyId → Type 0
  HasKeys (ok e) ks = e.1 ≡ ks
  HasKeys (err x) ks = Unit {0}

  element_loop-HasKeys :
      (seen keys : List KeyId) (values : List Value) (es : List RawValue)
      → HasKeys (element_loop r f seen keys values es) (keys ++ map key_of es)
  unfolding element_loop
  element_loop-HasKeys seen keys values [] = sym (append-nil keys)
  element_loop-HasKeys seen keys values (e ∷ es) =
      from (has_key (key_of e) seen) (r.decode e)
        (λ seen values. element_loop-HasKeys seen (keys ++ key_of e ∷ []) values es)
    where
      from :
          (b : Bool) (x : Result Value)
          → ((seen : List KeyId) (values : List Value)
              → HasKeys
                  (element_loop r f seen (keys ++ key_of e ∷ []) values es)
                  ((keys ++ key_of e ∷ []) ++ map key_of es))
          → HasKeys
              (if b
                then element_loop r f seen (keys ++ key_of e ∷ []) values es
                else x >>= (λ d.
                  element_loop r f (key_of e ∷ seen) (keys ++ key_of e ∷ []) (values ++ d ∷ []) es))
              (keys ++ key_of e ∷ map key_of es)
      from true x ih =
          subst (HasKeys _) (append_assoc keys (key_of e ∷ []) (map key_of es)) (ih seen values)
      from false (err y) ih = tt
      from false (ok d) ih =
          subst (HasKeys _) (append_assoc keys (key_of e ∷ []) (map key_of es))
            (ih (key_of e ∷ seen) (values ++ d ∷ []))

  -- And what the loop over the documents leaves.
  abbrev ListsKeys : Result (List (List KeyId) × List Value) → List (List KeyId) → Type 0
  ListsKeys (ok e) ks = e.0 ≡ ks
  ListsKeys (err x) ks = Unit {0}

  abbrev keys_of_each : List Doc → List (List KeyId)
  keys_of_each ds = map (λ d. keys_at r f (some d)) ds

  document_loop-ListsKeys :
      (seen : List KeyId) (keys : List (List KeyId)) (values : List Value) (ds : List Doc)
      → ListsKeys (document_loop r f seen keys values ds) (keys ++ keys_of_each ds)
  unfolding document_loop
  document_loop-ListsKeys seen keys values [] = sym (append-nil keys)
  document_loop-ListsKeys seen keys values (d ∷ ds) =
      from (element_loop r f seen [] values (or_no_keys r f (field_keys r f d)))
        (element_loop-HasKeys seen [] values (or_no_keys r f (field_keys r f d)))
        (λ seen ks values. document_loop-ListsKeys seen (keys ++ ks ∷ []) values ds)
    where
      from :
          (x : Result (List KeyId × List KeyId × List Value))
          → HasKeys x (keys_at r f (some d))
          → ((seen : List KeyId) (ks : List KeyId) (values : List Value)
              → ListsKeys
                  (document_loop r f seen (keys ++ ks ∷ []) values ds)
                  ((keys ++ ks ∷ []) ++ keys_of_each ds))
          → ListsKeys
              (x >>= (λ e. document_loop r f e.0 (keys ++ e.1 ∷ []) e.2 ds))
              (keys ++ keys_at r f (some d) ∷ keys_of_each ds)
      from (err y) h ih = tt
      from (ok e) h ih =
          subst (ListsKeys _)
            (append_assoc keys (e.1 ∷ []) (keys_of_each ds)
              ∙ ap (λ ks. keys ++ ks ∷ keys_of_each ds) h)
            (ih e.0 e.1 e.2)

get_elem?-map :
    {A B : Type 0} (g : A → B) (l : List A) (i : ℕ) (a : A)
    → get_elem? l i ≡ some a
    → get_elem? (map g l) i ≡ some (g a)
get_elem?-map g [] i a h = cc
get_elem?-map g (x ∷ l) zero a h = cc
get_elem?-map g (x ∷ l) (suc i) a h = get_elem?-map g l i a h

get_elem?-attach_loop :
    {Parent Related : Type 0} (attach : Parent → List Related → Parent) (related : List Related)
    (g : Groups) (ps : List Parent) (keys : List (List KeyId)) (i : ℕ) (p : Parent)
    (ks : List KeyId)
    → get_elem? ps i ≡ some p
    → get_elem? keys i ≡ some ks
    → get_elem? (attach_loop attach related g ps keys) i
      ≡ some (attach p (pick related (matches_for ks g)))
unfolding attach_loop
get_elem?-attach_loop attach related g [] keys i p ks h k = cc
get_elem?-attach_loop attach related g (q ∷ ps) [] i p ks h k = cc
get_elem?-attach_loop attach related g (q ∷ ps) (l ∷ keys) zero p ks h k = cc
get_elem?-attach_loop attach related g (q ∷ ps) (l ∷ keys) (suc i) p ks h k =
    get_elem?-attach_loop attach related g ps keys i p ks h k

-- The models that a load leaves.
abbrev pub models_of {ℓ} : {A : Type ℓ} → Result (List A) → List A
models_of (ok models) = models
models_of (err e) = []

listed_keys :
    {Doc : Type 0} (r : Reader Doc) (f : String) (docs : List Doc) (keys : List (List KeyId))
    (vs : List Value)
    → document_keys r f docs ≡ ok (keys, vs)
    → keys ≡ map (λ d. keys_at r f (some d)) docs
unfolding document_keys
listed_keys r f docs keys vs h =
    subst (λ x. ListsKeys r f x (keys_of_each r f docs)) h
      (document_loop-ListsKeys r f [] [] [] docs)

-- The elements at these positions, in this order, of those that there are.
abbrev pub present {ℓ} : {A : Type ℓ} → List (Option A) → List A
present [] = []
present (none ∷ os) = present os
present (some a ∷ os) = a ∷ present os

abbrev pub at_positions {ℓ} : {A : Type ℓ} → List A → List ℕ → List A
at_positions l js = present (map (get_elem? l) js)

pick-at_positions : {A : Type 0} (l : List A) (js : List ℕ) → pick l js ≡ at_positions l js
unfolding pick
pick-at_positions l [] = refl
pick-at_positions {A = A} l (j ∷ js) = from (get_elem? l j) (pick-at_positions l js)
  where
    from :
        (o : Option A)
        → pick l js ≡ at_positions l js
        → picked o (pick l js) ≡ present (o ∷ map (get_elem? l) js)
    from none ih = ih
    from (some a) ih = ap (λ rest. a ∷ rest) ih

-- When some parent has a key, and the query for the related documents and their own relations
-- succeed, the load attaches to the i-th parent the related models at the positions of its matches;
-- and a position is among these exactly when a document was found there that shares a key with the
-- parent's document.
pub load_many-attaches :
    {Parent Related Doc World : Type 0} (r : Reader Doc) (s : Source Related Doc World)
    (attach : Parent → List Related → Parent) (parent_key related_key : String)
    (parents : List Parent) (docs : List Doc) (w w₁ w₂ : World) (keys : List (List KeyId))
    (v : Value) (vs : List Value) (related : List Related) (found : List Doc) (whole : List Related)
    (i j : ℕ) (p : Parent) (d : Doc)
    → document_keys r parent_key docs ≡ ok (keys, v ∷ vs)
    → s.fetch related_key (v ∷ vs) w ≡ (w₁, ok (related, found))
    → s.settle related found w₁ ≡ (w₂, ok whole)
    → get_elem? parents i ≡ some p
    → get_elem? docs i ≡ some d
    → (get_elem? (models_of (load_many r s attach parent_key related_key parents docs w).1) i
        ≡ some (
            attach p (
              at_positions whole
                (matches_for (keys_at r parent_key (some d)) (group_by_key r related_key found)))))
      × (has_index j
            (matches_for (keys_at r parent_key (some d)) (group_by_key r related_key found))
          ≡ any
              (λ k. has_key k (keys_at r related_key (get_elem? found j)))
              (keys_at r parent_key (some d)))
unfolding load_many
load_many-attaches r s attach parent_key related_key parents docs w w₁ w₂ keys v vs related found
      whole i j p d keyed fetched settles at_i at_d =
    let g = group_by_key r related_key found in
    let ks = keys_at r parent_key (some d) in
    let known = listed_keys r parent_key docs keys (v ∷ vs) keyed in
    (
      ap (λ x. get_elem? (models_of (matched r s attach related_key parents w x).1) i) keyed
          ∙ ap (λ x. get_elem? (models_of (settled r s attach related_key parents keys x).1) i)
              fetched
          ∙ ap
              (λ x.
                get_elem? (models_of (attached r s attach related_key parents keys found x).1) i)
              settles
          ∙ get_elem?-attach_loop attach whole g parents keys i p ks at_i (
              ap (λ l. get_elem? l i) known
              ∙ get_elem?-map (λ d. keys_at r parent_key (some d)) docs i d at_d)
          ∙ ap (λ l. some (attach p l)) (pick-at_positions whole (matches_for ks g)),
      matches_for-reaches r related_key found ks j,
    )
