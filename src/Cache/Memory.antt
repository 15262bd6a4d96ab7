-- ===== src/Cache/Memory.antt =====
-- cache/memory/memory.go: the in-process store. A method takes the state and returns the new state
-- beside its results; the mutex makes each one atomic. The readings of the clock that a method takes
-- are its first arguments: the instants are nanoseconds since Go's zero time, so that 0 is `IsZero`.
pub mod Visible
pub mod Contract
pub mod Refinement
pub mod Runs
pub mod Counter
use chandlery.Base.{
  ℕ, zero, suc, ◌+◌, String, Bool, true, false, not, ◌&&◌, Option, none, some, [], ltb, ◌==◌,
  str_eq, if◌then◌else◌,
}
use chandlery.Base.Assoc.{Assoc, lookup, insert, remove}
use chandlery.Base.Int.{ℤ, pos, negsuc, ◌+ℤ◌, ◌-ℤ◌, wrap}
use chandlery.Base.Text.{Text}
use chandlery.Cache.Numbers.{parse_int, format_int, add_overflows, sub_overflows}

-- A []byte: nil, or the bytes.
pub data Bytes : Type 0 where
  null : Bytes
  bytes : Text → Bytes

-- string(b)
abbrev pub text_of : Bytes → Text
text_of null = []
text_of (bytes s) = s

pub record Entry : Type 0 where
  pub val : Bytes
  pub expires_at : ℕ

pub record Store : Type 0 where
  pub prefix : String
  pub entries : Assoc Entry

pub data Error : Type 0 where
  no_prefix : Error
  not_integer : String → Error
  overflow : String → ℤ → Error

pub data Result {ℓ} (A : Type ℓ) : Type ℓ where
  ok : A → Result A
  err : Error → Result A

abbrev pub init : String → Store
init prefix = record { prefix = prefix; entries = [] }

-- Always a fresh, non-nil slice.
unfoldable pub copy_bytes : Bytes → Bytes
copy_bytes b = bytes (text_of b)

-- now().Add(ttl), or the zero time.
unfoldable pub expiry_for : ℕ → ℤ → ℕ
expiry_for now (pos zero) = 0
expiry_for now (pos (suc n)) = now + suc n
expiry_for now (negsuc n) = 0

-- !e.expiresAt.IsZero() && !now().Before(e.expiresAt)
unfoldable pub expired : ℕ → Entry → Bool
expired now e = not (e.expires_at == 0) && not (ltb now e.expires_at)

-- get: an expired entry is deleted and reported absent.
unfoldable pub find_entry : ℕ → Store → String → Store × Option Entry
unfolding expired
find_entry now s key = elim (lookup key s.entries) [
  | none ↦ (s, none)
  | some e ↦
      if expired now e then (record s { entries = remove key s.entries }, none) else (s, some e)
]

abbrev pub write : String → Entry → Store → Store
write key e s = record s { entries = insert key e s.entries }

-- The rest of Get once the entry has been looked up; so for the methods below.
abbrev pub got : Store × Option Entry → Store × (Bytes × Bool)
got (s, none) = (s, (null, false))
got (s, some e) = (s, (copy_bytes e.val, true))

unfoldable pub get : ℕ → Store → String → Store × (Bytes × Bool)
get now s key = got (find_entry now s key)

unfoldable pub put : ℕ → Store → String → Bytes → ℤ → Store
put now s key val ttl =
    write key (record { val = copy_bytes val; expires_at = expiry_for now ttl }) s

abbrev pub added : ℕ → String → Bytes → ℤ → Store × Option Entry → Store × Bool
added later key val ttl (s, some e) = (s, false)
added later key val ttl (s, none) =
    (write key (record { val = copy_bytes val; expires_at = expiry_for later ttl }) s, true)

-- Two readings: one for the lookup and one for the expiry.
unfoldable pub add : ℕ → ℕ → Store → String → Bytes → ℤ → Store × Bool
add now later s key val ttl = added later key val ttl (find_entry now s key)

unfoldable pub forever : Store → String → Bytes → Store
forever s key val = write key (record { val = copy_bytes val; expires_at = 0 }) s

abbrev pub pulled : String → Store × Option Entry → Store × (Bytes × Bool)
pulled key (s, none) = (s, (null, false))
pulled key (s, some e) = (record s { entries = remove key s.entries }, (copy_bytes e.val, true))

unfoldable pub pull : ℕ → Store → String → Store × (Bytes × Bool)
pull now s key = pulled key (find_entry now s key)

unfoldable pub forget : Store → String → Store
forget s key = record s { entries = remove key s.entries }

abbrev pub had : Store × Option Entry → Store × Bool
had (s, none) = (s, false)
had (s, some e) = (s, true)

unfoldable pub has : ℕ → Store → String → Store × Bool
has now s key = had (find_entry now s key)

abbrev pub number_of : String → Option Entry → Result (ℤ × ℕ)
number_of key none = ok (pos 0, 0)
number_of key (some e) = elim (parse_int (text_of e.val)) [
  | none ↦ err (not_integer key)
  | some n ↦ ok (n, e.expires_at)
]

-- The current number and its expiry; 0 without one for an absent key.
unfoldable pub current_int : ℕ → Store → String → Store × Result (ℤ × ℕ)
current_int now s key = let (s', found) = find_entry now s key in (s', number_of key found)

-- The last lines of addTo and subFrom: refuse an overflow, or store the digits with the old expiry.
abbrev pub store_int : String → ℤ → ℕ → ℤ → Bool → Store → Store × Result ℤ
store_int key delta expires next true s = (s, err (overflow key delta))
store_int key delta expires next false s =
    (write key (record { val = bytes (format_int next); expires_at = expires }) s, ok next)

abbrev pub summed : String → ℤ → Store × Result (ℤ × ℕ) → Store × Result ℤ
summed key delta (s, err e) = (s, err e)
summed key delta (s, ok (cur, expires)) =
    let next = wrap (cur +ℤ delta) in
    store_int key delta expires next (add_overflows cur delta next) s

unfoldable pub add_to : ℕ → Store → String → ℤ → Store × Result ℤ
add_to now s key delta = summed key delta (current_int now s key)

abbrev pub subtracted : String → ℤ → Store × Result (ℤ × ℕ) → Store × Result ℤ
subtracted key delta (s, err e) = (s, err e)
subtracted key delta (s, ok (cur, expires)) =
    let next = wrap (cur -ℤ delta) in
    store_int key delta expires next (sub_overflows cur delta next) s

unfoldable pub sub_from : ℕ → Store → String → ℤ → Store × Result ℤ
sub_from now s key delta = subtracted key delta (current_int now s key)

unfoldable pub increment : ℕ → Store → String → ℤ → Store × Result ℤ
increment now s key by = add_to now s key by

unfoldable pub decrement : ℕ → Store → String → ℤ → Store × Result ℤ
decrement now s key by = sub_from now s key by

unfoldable pub flush : Store → Store × Result (Unit {0})
flush s = if str_eq s.prefix "" then (s, err no_prefix) else (record s { entries = [] }, ok tt)
