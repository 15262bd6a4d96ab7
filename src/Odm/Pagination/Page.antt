-- ===== src/Odm/Pagination/Page.antt =====
-- odm/pagination.go: what one page holds.
use chandlery.Base.{
  ℕ, suc, ◌+◌, ◌^◌, ◌≤◌, ◌<◌, ◌≡◌, ◌≢◌, refl, ◌∙◌, ap, Bool, true, false, Option, none, some, List,
  [], ◌∷◌, ◌++◌, map, arith, ◌==◌, length, take, append_assoc, append-nil, filter,
}
use chandlery.Base.Int.{pos, ◌+ℤ◌, wrap}
use chandlery.Base.Text.{Text}
use chandlery.Odm.Value.{Value}
use chandlery.Odm.Errors.{Result, ok}
use chandlery.Odm.Query.{Query, Sorts}
use chandlery.Odm.Query.Scope
use chandlery.Odm.Cursor.{cursor_keys, encode_cursor, decode_cursor, pagination_sorts}
use chandlery.Odm.Cursor.Keyset.{later}
use chandlery.Odm.Relation.{Relation}
use chandlery.Odm.Pagination.{
  CursorPage, Backend, kept, seek_query, page_of, minted, finish_page, collect, fetch_page,
}
use chandlery.Odm.Pagination.Order.{IsOrdered, take_all, take-cut}

-- What is kept of the documents for relations.
abbrev pub kept_all {ℓ} : {A : Type ℓ} → List Relation → List A → List A
kept_all [] ds = []
kept_all (r ∷ rs) ds = ds

-- A server whose answers are in one strict order of its documents, all of which decode, and codecs
-- that give the keys back as `back`. A cursor is never the empty text.
pub record IsServed {Raw Model : Type 0} (b : Backend Raw Model) (matches : Value → Raw → Bool)
    (q : Query) (ordered : List Raw) (model final : Raw → Model) (keys back : Raw → Sorts)
    (head : Raw → ℕ) (tail : Raw → Text) : Type 0 where
  pub find :
      (f : Value) (n : ℕ)
      → b.find f (pagination_sorts q.sorts) q.projection (pos n)
        ≡ ok (take n (filter (matches f) ordered), none)
  pub decode : (d : Raw) → b.decode d ≡ ok (model d)
  pub settle :
      (ds : List Raw) → b.settle (map model ds) (kept_all q.relations ds) ≡ ok (map final ds)
  pub key : (d : Raw) → cursor_keys b.read d (pagination_sorts q.sorts) ≡ ok (keys d)
  pub encode :
      (d : Raw) → encode_cursor b.codec (pagination_sorts q.sorts) (keys d) ≡ ok (head d ∷ tail d)
  pub opens :
      (d : Raw) → decode_cursor b.codec (head d ∷ tail d) (pagination_sorts q.sorts) ≡ ok (back d)
  pub order : IsOrdered (λ d e. later matches (pagination_sorts q.sorts) (back d) e) ordered

kept_all-nil : {A : Type 0} (rels : List Relation) → kept_all {A = A} rels [] ≡ []
kept_all-nil [] = refl
kept_all-nil (r ∷ rs) = refl

kept_all-snoc :
    {A : Type 0} (rels : List Relation) (ds : List A) (d : A)
    → kept_all rels (ds ++ d ∷ []) ≡ kept rels (kept_all rels ds) d
kept_all-snoc [] ds d = refl
kept_all-snoc (r ∷ rs) ds d = refl

map-snoc :
    {A B : Type 0} (f : A → B) (ds : List A) (d : A) → map f (ds ++ d ∷ []) ≡ map f ds ++ f d ∷ []
map-snoc f [] d = refl
map-snoc f (x ∷ ds) d = ap (◌∷◌ (f x)) (map-snoc f ds d)

length-map : {A B : Type 0} (f : A → B) (ds : List A) → length (map f ds) ≡ length ds
length-map f [] = refl
length-map f (d ∷ ds) = ap suc (length-map f ds)

length-snoc : {A : Type 0} (ds : List A) (d : A) → length (ds ++ d ∷ []) ≡ suc (length ds)
length-snoc [] d = refl
length-snoc (x ∷ ds) d = ap suc (length-snoc ds d)

abbrev last_or {ℓ} : {A : Type ℓ} → Option A → List A → Option A
last_or o [] = o
last_or o (x ∷ xs) = last_or (some x) xs

last_or-snoc : {A : Type 0} (o : Option A) (xs : List A) (x : A) → last_or o (xs ++ x ∷ []) ≡ some x
last_or-snoc o [] x = refl
last_or-snoc o (y ∷ xs) x = last_or-snoc (some y) xs x

module _ {Raw Model : Type 0} (b : Backend Raw Model) (matches : Value → Raw → Bool) (q : Query)
    (ordered : List Raw) (model final : Raw → Model) (keys back : Raw → Sorts) (head : Raw → ℕ)
    (tail : Raw → Text) (s : IsServed b matches q ordered model final keys back head tail) where
  abbrev collected : ℕ → List Raw → Option Raw → List Raw → Result (CursorPage Model)
  collected n pre last docs =
      collect b (pagination_sorts q.sorts) q.relations n none (map model pre)
        (kept_all q.relations pre) last docs

  -- One document more, below the limit.
  collected_step :
      (n : ℕ) (pre : List Raw) (last : Option Raw) (d : Raw) (docs : List Raw)
      → length pre ≢ n
      → collected n pre last (d ∷ docs) ≡ collected n (pre ++ d ∷ []) (some d) docs
  unfolding collect
  collected_step n pre last d docs h =
      rw (map-snoc model pre d, kept_all-snoc q.relations pre d, s.decode d, length-map model pre)
        (ground (arith, h))

  collected-few :
      (n : ℕ) (pre : List Raw) (last : Option Raw) (docs : List Raw)
      → length pre + length docs ≤ n
      → collected n pre last docs ≡ ok (page_of b (map final (pre ++ docs)) [] false)
  unfolding collect finish_page
  collected-few n pre last [] h = rw (s.settle pre, append-nil) refl
  collected-few n pre last (d ∷ docs) h =
      collected_step n pre last d docs (λ e. absurd (omega (arith, h, e)))
      ∙ collected-few n (pre ++ d ∷ []) (some d) docs (omega (arith, h, length-snoc pre d))
      ∙ rw append_assoc refl

  collected-many :
      (n : ℕ) (pre : List Raw) (last : Option Raw) (xs : List Raw) (d : Raw)
      → length pre + length xs ≡ n
      → collected n pre last (xs ++ d ∷ [])
        ≡ minted b (pagination_sorts q.sorts) (map final (pre ++ xs)) true (last_or last xs)
  unfolding collect finish_page
  collected-many n pre last [] d h =
      let full : (length (map model pre) == n) ≡ true = ground (arith, h, length-map model pre) in
      rw (full, append-nil, s.settle pre) refl
  collected-many n pre last (x ∷ xs) d h =
      collected_step n pre last x (xs ++ d ∷ []) (λ e. absurd (omega (arith, h, e)))
      ∙ collected-many n (pre ++ x ∷ []) (some x) xs d (omega (arith, h, length-snoc pre x))
      ∙ rw append_assoc refl

  -- From this cursor the server finds these documents.
  pub record Resumes (cursor : Text) (rest : List Raw) : Type 0 where
    pub seek : Query
    pub sought : seek_query b q (pagination_sorts q.sorts) cursor ≡ ok seek
    pub answer : filter (matches (Scope.filter seek)) ordered ≡ rest

  next_limit : (n : ℕ) → n + 1 < 2 ^ 63 → wrap (pos n +ℤ pos 1) ≡ pos (suc n)
  unfolding wrap ◌+ℤ◌
  next_limit n h = ground (arith, h)

  fetch_page-eq :
      (n : ℕ) (cursor : Text) (rest : List Raw)
      → n + 1 < 2 ^ 63
      → Resumes cursor rest
      → fetch_page b q (pos n) cursor ≡ collected n [] none (take (suc n) rest)
  unfolding fetch_page
  fetch_page-eq n cursor rest h r =
      rw
        (
          r.sought,
          next_limit n h,
          s.find (Scope.filter r.seek) (suc n),
          r.answer,
          kept_all-nil q.relations,
        )
        refl

  -- The last page.
  pub fetch_page-few :
      (n : ℕ) (cursor : Text) (rest : List Raw)
      → n + 1 < 2 ^ 63
      → Resumes cursor rest
      → length rest ≤ n
      → fetch_page b q (pos n) cursor ≡ ok (page_of b (map final rest) [] false)
  fetch_page-few n cursor rest h r few =
      fetch_page-eq n cursor rest h r
      ∙ ap (collected n [] none) (take_all (suc n) rest (omega (arith, few)))
      ∙ collected-few n [] none rest (omega (arith, few))

  -- A page that is not the last.
  pub fetch_page-many :
      (n : ℕ) (cursor : Text) (front : List Raw) (last next : Raw) (more : List Raw)
      → n + 1 < 2 ^ 63
      → Resumes cursor (front ++ last ∷ next ∷ more)
      → suc (length front) ≡ n
      → fetch_page b q (pos n) cursor
        ≡ ok (page_of b (map final (front ++ last ∷ [])) (head last ∷ tail last) true)
  fetch_page-many n cursor front last next more h r e =
      fetch_page-eq n cursor (front ++ last ∷ next ∷ more) h r
      ∙ ap (collected n [] none) shown
      ∙ collected-many n [] none (front ++ last ∷ []) next
          (omega (arith, e, length-snoc front last))
      ∙ rw (last_or-snoc none front last, s.key last, s.encode last) refl
    where
      shown : take (suc n) (front ++ last ∷ next ∷ more) ≡ (front ++ last ∷ []) ++ next ∷ []
      shown = rw (← e, append_assoc) (take-cut front last next more)
