-- ===== src/Odm/Cursor.antt =====
-- odm/cursor.go: opaque cursors, and the filter for "everything after this document".
pub mod Keyset
pub mod Opaque
use chandlery.Base.{
  ℕ, zero, suc, String, Bool, true, false, Option, none, some, List, [], ◌∷◌, ◌++◌, ◌==◌, str_eq,
  if◌then◌else◌, length,
}
use chandlery.Base.Int.{ℤ, pos, negsuc, is_neg}
use chandlery.Base.Text.{Text}
use chandlery.Odm.Value.{Value, int, int32, int64, array, values, single}
use chandlery.Odm.Errors.{
  Error, invalid_query, invalid_cursor, driver, missing_sort_field, CursorFault, not_base64,
  not_a_document, wrong_version, key_count, sort_count, sort_field, sort_direction, Result, ok, err,
  ◌>>=◌,
}
use chandlery.Odm.Filter.{build_filter}
use chandlery.Odm.Query.{Sorts}
use chandlery.Odm.Query.Sort.{asc}

abbrev pub cursor_version : ℕ
cursor_version = 1

-- The sort that the cursor was made under, and the sort values of the last document.
pub record Payload : Type 0 where
  pub version : ℕ
  pub sorts : Sorts
  pub keys : Sorts

-- The bson and base64 packages, which are parameters: `none` is an error.
pub record Codec : Type 0 where
  pub marshal : Payload → Option (List ℕ)
  pub unmarshal : List ℕ → Option Payload
  pub encode : List ℕ → Text
  pub decode : Text → Option (List ℕ)

-- sortDirection
unfoldable pub direction_of : Value → ℤ
direction_of (int d) = d
direction_of (int32 d) = d
direction_of (int64 d) = d
direction_of _ = pos 0

abbrev pub int_eq : ℤ → ℤ → Bool
int_eq (pos m) (pos n) = m == n
int_eq (negsuc m) (negsuc n) = m == n
int_eq _ _ = false

unfoldable pub same_direction : Value → Value → Bool
same_direction a b = int_eq (direction_of a) (direction_of b)

-- The loop of sameSort.
unfoldable pub same_fields : Sorts → Sorts → Option CursorFault
same_fields ((f, a) ∷ cs) ((g, b) ∷ ss) =
    let rest = same_fields cs ss in
    if str_eq f g
    then (if same_direction a b then rest else some sort_direction)
    else some sort_field
same_fields _ _ = none

unfoldable pub same_sort : Sorts → Sorts → Option CursorFault
same_sort cursor sorts =
    if length cursor == length sorts then same_fields cursor sorts else some sort_count

abbrev pub fault_or : Option CursorFault → Sorts → Result Sorts
fault_or none keys = ok keys
fault_or (some f) keys = err (invalid_cursor f)

abbrev pub checked_payload : Sorts → Payload → Result Sorts
checked_payload sorts p =
    if p.version == cursor_version
    then if length p.keys == length p.sorts
      then fault_or (same_sort p.sorts sorts) p.keys
      else err (invalid_cursor key_count)
    else err (invalid_cursor wrong_version)

abbrev pub parsed : Sorts → Option Payload → Result Sorts
parsed sorts none = err (invalid_cursor not_a_document)
parsed sorts (some p) = checked_payload sorts p

abbrev pub unwrapped : Codec → Sorts → Option (List ℕ) → Result Sorts
unwrapped c sorts none = err (invalid_cursor not_base64)
unwrapped c sorts (some raw) = parsed sorts (c.unmarshal raw)

unfoldable pub decode_cursor : Codec → Text → Sorts → Result Sorts
decode_cursor c cursor sorts = unwrapped c sorts (c.decode cursor)

abbrev pub wrapped : Codec → Option (List ℕ) → Result Text
wrapped c none = err (driver 0)
wrapped c (some raw) = ok (c.encode raw)

unfoldable pub encode_cursor : Codec → Sorts → Sorts → Result Text
encode_cursor c sorts keys =
    wrapped c (c.marshal (record { version = cursor_version; sorts = sorts; keys = keys }))

-- What reading a dotted path of a raw document gives: nothing there, a value that does not decode,
-- or the value.
pub data Reading : Type 0 where
  missing : Reading
  broken : ℕ → Reading
  found : Value → Reading

abbrev pub read_key : String → Reading → Result Value
read_key f missing = err (invalid_query (missing_sort_field f))
read_key f (broken e) = err (driver e)
read_key f (found v) = ok v

unfoldable pub cursor_keys {ℓ} :
    {Raw : Type ℓ} → (Raw → String → Reading) → Raw → Sorts → Result Sorts
cursor_keys read raw [] = ok []
cursor_keys read raw ((f, d) ∷ sorts) = do
  v ← read_key f (read raw f)
  rest ← cursor_keys read raw sorts
  ok ((f, v) ∷ rest)

unfoldable pub has_id : Sorts → Bool
has_id [] = false
has_id ((f, d) ∷ sorts) = let rest = has_id sorts in if str_eq f "_id" then true else rest

-- The direction of the last sort, ascending where there is none.
unfoldable pub last_direction : Sorts → ℤ
last_direction [] = asc
last_direction ((f, d) ∷ []) = direction_of d
last_direction (s ∷ t ∷ sorts) = last_direction (t ∷ sorts)

unfoldable pub pagination_sorts : Sorts → Sorts
pagination_sorts sorts =
    if has_id sorts then sorts else sorts ++ ("_id", int (last_direction sorts)) ∷ []

abbrev pub seek_operator : Value → String
seek_operator d = if is_neg (direction_of d) then "$lt" else "$gt"

-- One branch for each sort: the sorts before it equal, and it beyond. A key short would be an index
-- out of range; decode_cursor has counted them.
unfoldable pub branches : List Value → Sorts → Sorts → List Value
branches equal ((f, d) ∷ sorts) ((g, k) ∷ keys) =
    build_filter (equal ++ single f (single (seek_operator d) k) ∷ [])
    ∷ branches (equal ++ single f k ∷ []) sorts keys
branches equal _ _ = []

unfoldable pub keyset_filter : Sorts → Sorts → Value
keyset_filter sorts keys = single "$or" (array (values (branches [] sorts keys)))
