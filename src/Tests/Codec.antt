-- ===== src/Tests/Codec.antt =====
-- A codec for the cursors of one key, as a witness that what is relied on of BSON and base64 can hold.
use chandlery.Base.{
  ℕ, zero, suc, ◌≡◌, refl, inl, Bool, true, ◌&&◌, Option, some, none, List, [], ◌∷◌, arith, str_eq,
  str_eq_iff,
}
use chandlery.Base.Int.{ℤ, pos}
use chandlery.Odm.Value.{Value, int, int32}
use chandlery.Odm.Query.{Sorts}
use chandlery.Odm.Cursor.{Codec, Payload}
use chandlery.Odm.Cursor.Opaque.{IsCodec, stored_all}

-- A codec for the cursors of one key, under a sort by _id.
abbrev pub natural : Value → Option ℕ
natural (int32 (pos n)) = some n
natural _ = none

abbrev pub direction : Value → Option ℤ
direction (int d) = some d
direction _ = none

abbrev pub stored : Value → Value
stored (int d) = int32 d
stored v = v

abbrev pub written : Option ℕ → Bool → Option (List ℕ)
written (some n) true = some (n ∷ [])
written _ _ = none

abbrev pub marshal_by : ℕ → Sorts → Sorts → Option (List ℕ)
marshal_by (suc zero) ((f, int (pos (suc zero))) ∷ []) ((g, v) ∷ []) =
    written (natural v) (str_eq f "_id" && str_eq g "_id")
marshal_by _ _ _ = none

abbrev pub read_back : List ℕ → Option Payload
read_back (n ∷ []) = some (record {
  version = 1;
  sorts = ("_id", int32 (pos 1)) ∷ [];
  keys = ("_id", int32 (pos n)) ∷ [];
})
read_back _ = none

abbrev pub codec : Codec
codec = record {
  marshal = λ p. marshal_by p.version p.sorts p.keys;
  unmarshal = read_back;
  encode = λ b. b;
  decode = λ t. some t;
}

reads_back :
    (v : ℕ) (s k : Sorts) (b : List ℕ)
    → marshal_by v s k ≡ some b
    → read_back b
      ≡ some (record { version = v; sorts = stored_all stored s; keys = stored_all stored k })
reads_back (suc zero) ((f, int (pos (suc zero))) ∷ []) (x ∷ y ∷ k) b h = cc
reads_back (suc zero) ((f, int (pos (suc zero))) ∷ []) ((g, int32 (pos n)) ∷ []) b h =
    ground (arith, h, str_eq_iff f "_id", str_eq_iff g "_id")
reads_back _ _ _ b h = cc

pub codec-IsCodec : IsCodec codec stored
codec-IsCodec = record {
  bytes = λ b. refl;
  document = λ p. reads_back p.version p.sorts p.keys;
  int = λ d. inl refl;
}
