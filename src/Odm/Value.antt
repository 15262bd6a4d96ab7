-- ===== src/Odm/Value.antt =====
-- The values that odm hands to the driver: Go's `any`, with the types that the package looks at.
use chandlery.Base.{ℕ, String, Bool, true, false, Option, none, some, List, [], ◌∷◌}
use chandlery.Base.Int.{ℤ}

-- reflect.Kind of a typed nil.
pub data Kind : Type 0 where
  chan func map pointer slice unsafe_pointer : Kind

-- `dict` is a bson.M, `document` a bson.D and `array` a bson.A or another slice or array.
-- `operator` is an odm.Operator. `opaque` is a value of any other type.
mutual
  pub data Value : Type 0 where
    null : Value
    typed_nil : Kind → Value
    bool : Bool → Value
    int : ℤ → Value
    int32 : ℤ → Value
    int64 : ℤ → Value
    uint8 : ℕ → Value
    text : String → Value
    operator : String → Value
    time : ℕ → Value
    object_id : List ℕ → Value
    opaque : ℕ → Value
    array : Values → Value
    dict : Fields → Value
    document : Fields → Value
    element : String → Value → Value

  pub data Values : Type 0 where
    nil : Values
    cons : Value → Values → Values

  pub data Fields : Type 0 where
    end : Fields
    field : String → Value → Fields → Fields

abbrev pub values : List Value → Values
values [] = nil
values (v ∷ vs) = cons v (values vs)

abbrev pub list_of : Values → List Value
list_of nil = []
list_of (cons v vs) = v ∷ list_of vs

abbrev pub fields : List (String × Value) → Fields
fields [] = end
fields ((k, v) ∷ es) = field k v (fields es)

abbrev pub elements : Fields → List (String × Value)
elements end = []
elements (field k v fs) = (k, v) ∷ elements fs

-- bson.M{k: v}
abbrev pub single : String → Value → Value
single k v = dict (field k v end)

-- Whether a value is nil, a typed nil inside an interface included (isNil of filter.go).
unfoldable pub is_nil : Value → Bool
is_nil null = true
is_nil (typed_nil unsafe_pointer) = false
is_nil (typed_nil k) = true
is_nil _ = false

abbrev bytes_of : List ℕ → List Value
bytes_of [] = []
bytes_of (b ∷ bs) = uint8 b ∷ bytes_of bs

abbrev pairs_of : List (String × Value) → List Value
pairs_of [] = []
pairs_of ((k, v) ∷ es) = element k v ∷ pairs_of es

-- The elements of a slice or an array of any type (bsonArray of filter.go). A bson.D is a slice of
-- bson.E, and an ObjectID an array of bytes.
unfoldable pub bson_array : Value → Option (List Value)
bson_array (array vs) = some (list_of vs)
bson_array (document fs) = some (pairs_of (elements fs))
bson_array (object_id bs) = some (bytes_of bs)
bson_array (typed_nil slice) = some []
bson_array _ = none
