-- ===== src/Odm/Pagination/Complete.antt =====
-- odm/pagination.go: a walk through the pages gives every document of the query once, in order.
use chandlery.Base.{
  ℕ, zero, suc, ◌+◌, ◌^◌, ◌<◌, ◌≡◌, refl, ◌∙◌, sym, ap, subst, Bool, true, false, ◌&&◌, none, List,
  [], ◌∷◌, ◌++◌, map, all-append, arith, length, length-append, append_assoc, filter, Bool-cases,
  inl, inr, ltb,
}
use chandlery.Base.Int.{ℤ, pos, is_nonpos}
use chandlery.Base.Text.{Text}
use chandlery.Odm.Value.{Value}
use chandlery.Odm.Errors.{Result, ok, ◌>>=◌}
use chandlery.Odm.Mongo.{IsMongo}
use chandlery.Odm.Query.{Query, Sorts, with_filter}
use chandlery.Odm.Query.Chain.{build_filter-matches}
use chandlery.Odm.Query.Scope
use chandlery.Odm.Query.Visible.{filter-matches}
use chandlery.Odm.Cursor.{keyset_filter, pagination_sorts}
use chandlery.Odm.Cursor.Keyset.{later, keyset_filter-matches}
use chandlery.Odm.Pagination.{Backend, seek_query, fetch_page, cursor_paginate}
use chandlery.Odm.Pagination.Order.{
  IsOrdered, filter-IsOrdered, filter-after, filter-filter, Cut, cut,
}
use chandlery.Odm.Pagination.Page.{IsServed, Resumes, fetch_page-few, fetch_page-many}

abbrev join {ℓ} : {A : Type ℓ} → Bool → List A → Result (List A) → Result (List A)
join false items rest = ok items
join true items rest = rest >>= (λ more. ok (items ++ more))

-- A client's loop: page after page, each from the cursor of the one before, until there is no more.
unfoldable pub walk :
    {Raw Model : Type 0} → Backend Raw Model → Query → ℤ → ℕ → Text → Result (List Model)
walk b q limit zero cursor = ok []
walk b q limit (suc fuel) cursor = do
  page ← cursor_paginate b q (record { limit = limit; cursor = cursor })
  join page.has_more page.items (walk b q limit fuel page.next_cursor)

filter_ext :
    {A : Type 0} (p p' : A → Bool)
    → ((a : A) → p a ≡ p' a)
    → (l : List A) → filter p l ≡ filter p' l
filter_ext p p' h [] = refl
filter_ext p p' h (a ∷ l) = ground (arith, h a, filter_ext p p' h l)

map-regroup :
    {A B : Type 0} (f : A → B) (front : List A) (last : A) (more : List A)
    → map f (front ++ last ∷ []) ++ map f more ≡ map f (front ++ last ∷ more)
map-regroup f [] last more = refl
map-regroup f (x ∷ front) last more = ap (◌∷◌ (f x)) (map-regroup f front last more)

regroup :
    {A : Type 0} (pre front : List A) (last : A) (more : List A)
    → pre ++ (front ++ last ∷ more) ≡ (pre ++ front) ++ last ∷ more
regroup pre front last more = sym (append_assoc pre front (last ∷ more))

shorter :
    {A : Type 0} {n fuel : ℕ} {l : List A} (c : Cut A n l)
    → length l < suc fuel
    → length (c.next ∷ c.back) < fuel
shorter c f = omega (arith, f, ap length c.shape, length-append c.front (c.last ∷ c.next ∷ c.back))

module _ {Raw Model : Type 0} (b : Backend Raw Model) (matches : Value → Raw → Bool)
    (m : IsMongo matches) (q : Query) (ordered : List Raw) (model final : Raw → Model)
    (keys back : Raw → Sorts) (head : Raw → ℕ) (tail : Raw → Text)
    (s : IsServed b matches q ordered model final keys back head tail) where
  abbrev after : Raw → Raw → Bool
  after d e = later matches (pagination_sorts q.sorts) (back d) e

  with_filter-matches :
      (f : Value) (d : Raw)
      → matches (Scope.filter (with_filter q f)) d ≡ (matches (Scope.filter q) d && matches f d)
  with_filter-matches f d =
      filter-matches matches m (with_filter q f) d
      ∙ ground (
        arith,
        filter-matches matches m q d,
        build_filter-matches matches m d (q.filters ++ f ∷ []),
        build_filter-matches matches m d q.filters,
        all-append (λ g. matches g d) q.filters (f ∷ []),
      )

  resumes :
      (pre : List Raw) (d : Raw) (rest : List Raw)
      → filter (matches (Scope.filter q)) ordered ≡ pre ++ d ∷ rest
      → Resumes b matches q ordered model final keys back head tail s (head d ∷ tail d) rest
  unfolding seek_query
  resumes pre d rest h = record {
    seek = with_filter q (keyset_filter (pagination_sorts q.sorts) (back d));
    sought = rw (s.opens d) refl;
    answer =
        filter_ext _ (λ e. matches (Scope.filter q) e && after d e) beyond ordered
        ∙ filter-filter (matches (Scope.filter q)) (after d) ordered
        ∙ ap (filter (after d)) h
        ∙ filter-after after pre d rest (subst (IsOrdered after) h in_order);
  }
    where
      beyond :
          (e : Raw)
          → matches
              (Scope.filter (with_filter q (keyset_filter (pagination_sorts q.sorts) (back d))))
              e
            ≡ (matches (Scope.filter q) e && after d e)
      beyond e =
          with_filter-matches (keyset_filter (pagination_sorts q.sorts) (back d)) e
          ∙ rw (keyset_filter-matches matches m (pagination_sorts q.sorts) (back d) e) refl

      in_order : IsOrdered after (filter (matches (Scope.filter q)) ordered)
      in_order = filter-IsOrdered after (matches (Scope.filter q)) ordered s.order

  page-eq :
      (n : ℕ) (cursor : Text)
      → q.error ≡ none
      → 0 < n
      → cursor_paginate b q (record { limit = pos n; cursor = cursor })
        ≡ fetch_page b q (pos n) cursor
  unfolding cursor_paginate
  page-eq n cursor e p = simp (e, positive n p) refl
    where
      positive : (k : ℕ) → 0 < k → is_nonpos (pos k) ≡ false
      positive zero p = absurd (omega (arith, p))
      positive (suc k) p = refl

  walk-page :
      (n fuel : ℕ) (cursor : Text) (front : List Raw) (last next : Raw) (more : List Raw)
      → q.error ≡ none
      → 0 < n
      → n + 1 < 2 ^ 63
      → suc (length front) ≡ n
      → Resumes b matches q ordered model final keys back head tail s cursor
          (front ++ last ∷ next ∷ more)
      → walk b q (pos n) fuel (head last ∷ tail last) ≡ ok (map final (next ∷ more))
      → walk b q (pos n) (suc fuel) cursor ≡ ok (map final (front ++ last ∷ next ∷ more))
  unfolding walk
  walk-page n fuel cursor front last next more e p l k r ih =
      rw
        (
          page-eq n cursor e p,
          fetch_page-many b matches q ordered model final keys back head tail s n cursor front last
              next more l r k,
          ih,
        )
        (ap ok (map-regroup final front last (next ∷ more)))

  walk-resumed :
      (n fuel : ℕ) (cursor : Text) (pre rest : List Raw)
      → q.error ≡ none
      → 0 < n
      → n + 1 < 2 ^ 63
      → length rest < fuel
      → filter (matches (Scope.filter q)) ordered ≡ pre ++ rest
      → Resumes b matches q ordered model final keys back head tail s cursor rest
      → walk b q (pos n) fuel cursor ≡ ok (map final rest)
  unfolding walk
  walk-resumed n zero cursor pre rest e p l f h r = absurd (omega (arith, f))
  walk-resumed n (suc fuel) cursor pre rest e p l f h r = elim (Bool-cases (ltb n (length rest))) [
    | inr few ↦
        rw
          (
            page-eq n cursor e p,
            fetch_page-few b matches q ordered model final keys back head tail s n cursor rest l r
                (ground (arith, few)),
          )
          refl
    | inl many ↦
        let c = cut n rest p (ground (arith, many)) in
        let at = regroup pre c.front c.last (c.next ∷ c.back) in
        let h' = h ∙ ap (◌++◌ pre) c.shape in
        subst (λ x. walk b q (pos n) (suc fuel) cursor ≡ ok (map final x)) (sym c.shape)
          (walk-page n fuel cursor c.front c.last c.next c.back e p l c.count
            (subst (Resumes b matches q ordered model final keys back head tail s cursor) c.shape r)
            (walk-resumed n fuel (head c.last ∷ tail c.last) ((pre ++ c.front) ++ c.last ∷ [])
              (c.next ∷ c.back) e p l (shorter c f)
              (h' ∙ at ∙ sym (append_assoc (pre ++ c.front) (c.last ∷ []) (c.next ∷ c.back)))
              (resumes (pre ++ c.front) c.last (c.next ∷ c.back) (h' ∙ at))))
  ]

  -- Take a server that answers in one strict order, under sorts whose keys survive the cursor. Then a
  -- client that asks for page after page of a valid query, n > 0 to the page, until there is no more,
  -- has every document that the query matches, once and in that order; it needs no more pages than
  -- there are documents, and one.
  pub walk-eq :
      (n fuel : ℕ)
      → q.error ≡ none
      → 0 < n
      → n + 1 < 2 ^ 63
      → length (filter (matches (Scope.filter q)) ordered) < fuel
      → walk b q (pos n) fuel [] ≡ ok (map final (filter (matches (Scope.filter q)) ordered))
  unfolding seek_query
  walk-eq n fuel e p l f =
      walk-resumed n fuel [] [] (filter (matches (Scope.filter q)) ordered) e p l f refl
        (record { seek = q; sought = refl; answer = refl })
