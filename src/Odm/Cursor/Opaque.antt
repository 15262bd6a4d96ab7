-- ===== src/Odm/Cursor/Opaque.antt =====
-- odm/cursor.go: what is in a cursor comes out again, and only under the sort that it was made for.
use chandlery.Base.{
  ℕ, suc, ◌≡◌, refl, ◌↔◌, ◌⊎◌, inl, inr, ap, true, Option, none, some, List, [], ◌∷◌, arith, ◌==◌,
  str_eq_iff, str_eq_refl, length,
}
use chandlery.Base.Int.{ℤ, pos, negsuc}
use chandlery.Base.Text.{Text}
use chandlery.Odm.Value.{Value, int, int32, int64}
use chandlery.Odm.Errors.{ok}
use chandlery.Odm.Query.{Sorts}
use chandlery.Odm.Cursor.{
  Codec, Payload, cursor_version, direction_of, int_eq, same_direction, same_fields, same_sort,
  checked_payload, unwrapped, wrapped, decode_cursor, encode_cursor,
}

-- What a value is once it has been through BSON.
abbrev pub stored_all : (Value → Value) → Sorts → Sorts
stored_all stored [] = []
stored_all stored ((f, v) ∷ s) = (f, stored v) ∷ stored_all stored s

-- What the codecs give back: base64 the bytes, and BSON the document, an int as an
-- int32 or, beyond the range of one, as an int64.
pub record IsCodec (c : Codec) (stored : Value → Value) : Type 0 where
  pub bytes : (b : List ℕ) → c.decode (c.encode b) ≡ some b
  pub document :
      (p : Payload) (b : List ℕ)
      → c.marshal p ≡ some b
      → c.unmarshal b
        ≡ some (record {
          version = p.version;
          sorts = stored_all stored p.sorts;
          keys = stored_all stored p.keys;
        })
  pub int : (d : ℤ) → (stored (Value.int d) ≡ int32 d) ⊎ (stored (Value.int d) ≡ int64 d)

-- The sorts of a query, whose directions are ints.
abbrev pub AreInts : Sorts → Type 0
AreInts [] = Unit
AreInts ((f, v) ∷ s) = (d : ℤ) × (v ≡ int d) × AreInts s

length-stored_all : (stored : Value → Value) (s : Sorts) → length (stored_all stored s) ≡ length s
length-stored_all stored [] = refl
length-stored_all stored ((f, v) ∷ s) = ap suc (length-stored_all stored s)

int_eq_refl : (d : ℤ) → int_eq d d ≡ true
int_eq_refl (pos n) = ground arith
int_eq_refl (negsuc n) = ground arith

same_fields-stored :
    (stored : Value → Value)
    → ((d : ℤ) → (stored (int d) ≡ int32 d) ⊎ (stored (int d) ≡ int64 d))
    → (s : Sorts) → AreInts s
    → same_fields (stored_all stored s) s ≡ none
unfolding same_fields same_direction direction_of
same_fields-stored stored i [] a = refl
same_fields-stored stored i ((f, v) ∷ s) (d, e, a) =
    let rest = same_fields-stored stored i s a in
    elim (i d) [
      | inl x ↦ rw (e, x, str_eq_refl f, int_eq_refl d) rest
      | inr x ↦ rw (e, x, str_eq_refl f, int_eq_refl d) rest
    ]

module _ (c : Codec) (stored : Value → Value) (i : IsCodec c stored) where
  decode_wrapped :
      (sorts keys : Sorts) (o : Option (List ℕ)) {cursor : Text}
      → c.marshal (record { version = cursor_version; sorts = sorts; keys = keys }) ≡ o
      → AreInts sorts
      → length keys ≡ length sorts
      → wrapped c o ≡ ok cursor
      → decode_cursor c cursor sorts ≡ ok (stored_all stored keys)
  decode_wrapped sorts keys none e a n h = cc
  decode_wrapped sorts keys (some b) {cursor} e a n h = rw (← cursor_eq) (
      unfold decode_cursor same_sort in
      rw (
        i.bytes b,
        i.document (record { version = cursor_version; sorts = sorts; keys = keys }) b e,
        length-stored_all stored keys,
        length-stored_all stored sorts,
        n,
        refl-eq (length sorts),
        same_fields-stored stored i.int sorts a,
      ))
    where
      cursor_eq : c.encode b ≡ cursor
      cursor_eq = ground (arith, h)

      refl-eq : (k : ℕ) → (k == k) ≡ true
      refl-eq k = ground arith

  -- A cursor encoded under a query's sort, with a key for each sort, decodes under the same sort to
  -- the keys as BSON stores them.
  pub decode_cursor-encode_cursor :
      (sorts keys : Sorts) (cursor : Text)
      → AreInts sorts
      → length keys ≡ length sorts
      → encode_cursor c sorts keys ≡ ok cursor
      → decode_cursor c cursor sorts ≡ ok (stored_all stored keys)
  unfolding encode_cursor
  decode_cursor-encode_cursor sorts keys cursor a n h = decode_wrapped sorts keys _ refl a n h

-- The same fields in the same order, each in the same direction.
abbrev pub SameSort : Sorts → Sorts → Type 0
SameSort [] [] = Unit
SameSort [] (s ∷ ss) = ⊥
SameSort (s ∷ ss) [] = ⊥
SameSort ((f, a) ∷ cs) ((g, b) ∷ ss) = (f ≡ g) × (direction_of a ≡ direction_of b) × SameSort cs ss

int_eq→≡ : (a b : ℤ) → int_eq a b ≡ true → a ≡ b
int_eq→≡ (pos m) (pos n) h = ground arith
int_eq→≡ (pos m) (negsuc n) h = cc
int_eq→≡ (negsuc m) (pos n) h = cc
int_eq→≡ (negsuc m) (negsuc n) h = ground arith

same_sort→SameSort : (cs ss : Sorts) → same_sort cs ss ≡ none → SameSort cs ss
unfolding same_sort same_fields same_direction
same_sort→SameSort [] [] h = tt
same_sort→SameSort [] (s ∷ ss) h = ground (arith, h)
same_sort→SameSort (s ∷ ss) [] h = ground (arith, h)
same_sort→SameSort ((f, a) ∷ cs) ((g, b) ∷ ss) h = (
  ground (arith, str_eq_iff f g),
  ground (arith, int_eq→≡ (direction_of a) (direction_of b)),
  same_sort→SameSort cs ss (ground arith),
)

SameSort→same_sort : (cs ss : Sorts) → SameSort cs ss → same_sort cs ss ≡ none
unfolding same_sort same_fields same_direction
SameSort→same_sort [] [] h = refl
SameSort→same_sort [] (s ∷ ss) h = absurd h
SameSort→same_sort (s ∷ ss) [] h = absurd h
SameSort→same_sort ((f, a) ∷ cs) ((g, b) ∷ ss) (e, d, r) =
    ground (arith, e, d, SameSort→same_sort cs ss r, str_eq_iff f g, int_eq_refl (direction_of b))

-- A cursor that holds a payload is accepted exactly under the version of this build, with a key for
-- each of its sorts, and for a query that sorts by the same fields in the same directions; what it
-- then gives are the payload's keys. Under any other sort it is refused.
pub decode_cursor_iff :
    (c : Codec) (cursor : Text) (sorts keys : Sorts) (raw : List ℕ) (p : Payload)
    → c.decode cursor ≡ some raw
    → c.unmarshal raw ≡ some p
    → (decode_cursor c cursor sorts ≡ ok keys) ↔ (
        (p.version ≡ cursor_version)
        × (length p.keys ≡ length p.sorts)
        × SameSort p.sorts sorts
        × (keys ≡ p.keys))
unfolding decode_cursor
decode_cursor_iff c cursor sorts keys raw p e f =
    (λ h. accepted (rw (e, unwrapped, f) at h), λ h. rw (e, f) (accepts h))
  where
    accepted :
        checked_payload sorts p ≡ ok keys
        → (p.version ≡ cursor_version)
          × (length p.keys ≡ length p.sorts)
          × SameSort p.sorts sorts
          × (keys ≡ p.keys)
    accepted h = (
      ground (arith, h),
      ground (arith, h),
      same_sort→SameSort p.sorts sorts (ground (arith, h)),
      ground (arith, h),
    )

    accepts :
        (p.version ≡ cursor_version)
          × (length p.keys ≡ length p.sorts)
          × SameSort p.sorts sorts
          × (keys ≡ p.keys)
        → checked_payload sorts p ≡ ok keys
    accepts h = ground (arith, h.0, h.1, h.3, SameSort→same_sort p.sorts sorts h.2)
