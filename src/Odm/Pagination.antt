-- ===== src/Odm/Pagination.antt =====
-- odm/pagination.go: one page of documents, found by seeking past a cursor. MongoDB's answers, the
-- decoding of a document, the codecs, and snapshots with the loading of relations are parameters.
pub mod Order
pub mod Page
pub mod Complete
use chandlery.Base.{
  ℕ, zero, suc, String, Bool, true, false, Option, none, some, List, [], ◌∷◌, ◌++◌, ◌==◌,
  if◌then◌else◌, length,
}
use chandlery.Base.Int.{ℤ, pos, negsuc, ◌+ℤ◌, wrap, is_nonpos, pos_part}
use chandlery.Base.Text.{Text}
use chandlery.Odm.Value.{Value}
use chandlery.Odm.Errors.{Error, invalid_query, page_size, Result, ok, err, ◌>>=◌}
use chandlery.Odm.Query.{Query, Sorts, Projection, with_filter}
use chandlery.Odm.Query.Scope.{filter}
use chandlery.Odm.Query.Update.{unless_error}
use chandlery.Odm.Relation.{Relation}
use chandlery.Odm.Cursor.{
  Codec, Reading, cursor_keys, decode_cursor, encode_cursor, keyset_filter, pagination_sorts,
}

pub record CursorPagination : Type 0 where
  pub limit : ℤ
  pub cursor : Text

pub record CursorPage (Model : Type 0) : Type 0 where
  pub items : List Model
  pub next_cursor : Text
  pub has_more : Bool

-- The documents that an iteration gives, and the error that it ends with, if any.
abbrev pub Stream : Type 0 → Type 0
Stream Raw = List Raw × Option Error

pub record Backend (Raw Model : Type 0) : Type 0 where
  pub find : Value → Sorts → Projection → ℤ → Result (Stream Raw)
  pub decode : Raw → Result Model
  pub read : Raw → String → Reading
  pub codec : Codec
  -- snapshotAll, and loadRelations over the raw documents
  pub settle : List Model → List Raw → Result (List Model)

-- The documents' bytes are kept for relations alone.
abbrev pub kept {ℓ} : {A : Type ℓ} → List Relation → List A → A → List A
kept [] raws d = raws
kept (r ∷ rs) raws d = raws ++ d ∷ []

module _ {Raw Model : Type 0} (b : Backend Raw Model) where
  unfoldable pub seek_query : Query → Sorts → Text → Result Query
  seek_query q sorts [] = ok q
  seek_query q sorts (c ∷ cursor) = do
    keys ← decode_cursor b.codec (c ∷ cursor) sorts
    ok (with_filter q (keyset_filter sorts keys))

  abbrev pub page_of : List Model → Text → Bool → CursorPage Model
  page_of items cursor more = record { items = items; next_cursor = cursor; has_more = more }

  -- The cursor for what the page ended on; a page that ran out of documents gets none.
  abbrev pub minted : Sorts → List Model → Bool → Option Raw → Result (CursorPage Model)
  minted sorts items false last = ok (page_of items [] false)
  minted sorts items true none = ok (page_of items [] true)
  minted sorts items true (some raw) = do
    keys ← cursor_keys b.read raw sorts
    next ← encode_cursor b.codec sorts keys
    ok (page_of items next true)

  unfoldable pub finish_page :
      Sorts → List Model → List Raw → Option Raw → Bool → Result (CursorPage Model)
  finish_page sorts models raws last more = do
    items ← b.settle models raws
    minted sorts items more last

  -- The loop over the cursor: the document beyond the limit only says that there are more.
  unfoldable pub collect :
      Sorts
      → List Relation
      → ℕ
      → Option Error
      → List Model
      → List Raw
      → Option Raw
      → List Raw
      → Result (CursorPage Model)
  collect sorts rels limit failure models raws last [] =
      unless_error failure (finish_page sorts models raws last false)
  collect sorts rels limit failure models raws last (d ∷ docs) =
      let rest = (do
        model ← b.decode d
        collect sorts rels limit failure (models ++ model ∷ []) (kept rels raws d) (some d) docs) in
      if length models == limit then finish_page sorts models raws last true else rest

  -- The checks have passed.
  unfoldable pub fetch_page : Query → ℤ → Text → Result (CursorPage Model)
  fetch_page q limit cursor = do
    let sorts = pagination_sorts q.sorts
    seek ← seek_query q sorts cursor
    stream ← b.find (filter seek) sorts q.projection (wrap (limit +ℤ pos 1))
    collect sorts q.relations (pos_part limit) stream.1 [] [] none stream.0

  unfoldable pub cursor_paginate : Query → CursorPagination → Result (CursorPage Model)
  cursor_paginate q page = unless_error q.error (
      if is_nonpos page.limit
      then err (invalid_query (page_size page.limit))
      else fetch_page q page.limit page.cursor)
