-- ===== src/Cache/Numbers.antt =====
-- What cache/memory takes from strconv (ParseInt and FormatInt at base 10 and 64 bits), and its own
-- tests for overflow.
use chandlery.Base.{
  ℕ, zero, suc, ◌+◌, ◌-◌, ◌*◌, ◌/◌, ◌%◌, ◌^◌, ◌<◌, ◌≡◌, refl, inl, inr, Bool, true, false, ◌&&◌,
  not, xor, ◌∙◌, Option, none, some, [], ◌∷◌, arith, ltb, leb, ◌==◌, if◌then◌else◌, Bool-cases,
}
use chandlery.Base.Text.{Text}
use chandlery.Base.Int.{ℤ, pos, negsuc, ◌+ℤ◌, ◌-ℤ◌, is_neg, IsInt64, in_int64, wrap}

abbrev is_digit : ℕ → Bool
is_digit c = leb 48 c && leb c 57

-- The loop of ParseUint: every character a digit, most significant first.
unfoldable pub parse_digits : ℕ → Text → Option ℕ
parse_digits n [] = some n
parse_digits n (c ∷ s) =
    let rest = parse_digits (n * 10 + (c - 48)) s in if is_digit c then rest else none

unfoldable pub parse_uint : Text → Option ℕ
parse_uint [] = none
parse_uint (c ∷ s) = parse_digits 0 (c ∷ s)

abbrev negate : ℕ → ℤ
negate zero = pos 0
negate (suc n) = negsuc n

-- The range check of ParseInt: [0, 2^63) without a minus sign, [0, 2^63] with one.
abbrev signed : Bool → Option ℕ → Option ℤ
signed minus none = none
signed false (some n) = if ltb n (2 ^ 63) then some (pos n) else none
signed true (some n) = if leb n (2 ^ 63) then some (negate n) else none

-- strconv.ParseInt(s, 10, 64); `none` is its error.
unfoldable pub parse_int : Text → Option ℤ
parse_int [] = none
parse_int (c ∷ s) =
    if c == b'+'
    then signed false (parse_uint s)
    else if c == b'-'
    then signed true (parse_uint s)
    else signed false (parse_uint (c ∷ s))

-- The digits of `n` in front of `rest`, least significant written first, as FormatInt does.
unfoldable pub digits : ℕ → ℕ → Text → Text
digits zero n rest = rest
digits (suc f) n rest =
    let more = digits f (n / 10) ((48 + n % 10) ∷ rest) in
    if ltb n 10 then (48 + n) ∷ rest else more

-- strconv.FormatInt(a, 10)
unfoldable pub format_int : ℤ → Text
format_int (pos n) = digits (suc n) n []
format_int (negsuc n) = b'-' ∷ digits (suc (suc n)) (suc n) []

parse_digits-digits :
    (f n : ℕ) (rest : Text) → n < f → parse_digits 0 (digits f n rest) ≡ parse_digits n rest
unfolding parse_digits digits
parse_digits-digits zero n rest h = elim h [ ]
parse_digits-digits (suc f) n rest h = elim (Bool-cases (ltb n 10)) [
  | inl small ↦ rw small (ground arith)
  | inr big ↦
      rw big (parse_digits-digits f (n / 10) ((48 + n % 10) ∷ rest) (ground arith) ∙ ground arith)
]

record StartsWithDigit (s : Text) : Type 0 where
  first : ℕ
  others : Text
  shape : s ≡ first ∷ others
  digit : is_digit first ≡ true

digits-StartsWithDigit : (f n : ℕ) (rest : Text) → n < f → StartsWithDigit (digits f n rest)
unfolding digits
digits-StartsWithDigit zero n rest h = elim h [ ]
digits-StartsWithDigit (suc f) n rest h = elim (Bool-cases (ltb n 10)) [
  | inl small ↦ record { first = 48 + n; others = rest; shape = rw small; digit = ground arith }
  | inr big ↦ rw big (digits-StartsWithDigit f (n / 10) ((48 + n % 10) ∷ rest) (ground arith))
]

parse_uint-shape : (s : Text) → StartsWithDigit s → parse_uint s ≡ parse_digits 0 s
unfolding parse_uint
parse_uint-shape [] d = cc d.shape
parse_uint-shape (c ∷ s) d = refl

parse_uint-digits : (f n : ℕ) → n < f → parse_uint (digits f n []) ≡ some n
unfolding parse_digits
parse_uint-digits f n h =
    parse_uint-shape (digits f n []) (digits-StartsWithDigit f n [] h)
    ∙ parse_digits-digits f n [] h

parse_int-shape : (s : Text) → StartsWithDigit s → parse_int s ≡ signed false (parse_uint s)
unfolding parse_int
parse_int-shape [] d = cc d.shape
parse_int-shape (c ∷ s) d = ground (arith, d.shape, d.digit)

-- Reading back what FormatInt wrote gives the same int64.
pub parse_int-format_int : (a : ℤ) → IsInt64 a → parse_int (format_int a) ≡ some a
unfolding format_int
parse_int-format_int (pos n) h =
    let below : n < suc n = omega arith in
    parse_int-shape (digits (suc n) n []) (digits-StartsWithDigit (suc n) n [] below)
    ∙ rw (parse_uint-digits (suc n) n below) (ground arith)
parse_int-format_int (negsuc n) h =
    unfold parse_int in rw (parse_uint-digits (suc (suc n)) (suc n) (omega arith)) (ground arith)

-- The sign bit of `x ^ y` is the exclusive or of the sign bits, and that of `x & y` their conjunction.
unfoldable pub add_overflows : ℤ → ℤ → ℤ → Bool
add_overflows a b c = xor (is_neg a) (is_neg c) && xor (is_neg b) (is_neg c)

unfoldable pub sub_overflows : ℤ → ℤ → ℤ → Bool
sub_overflows a b c = xor (is_neg a) (is_neg b) && xor (is_neg a) (is_neg c)

pub add_overflows_iff :
    (a b : ℤ) → IsInt64 a → IsInt64 b → in_int64 (a +ℤ b) ≡ not (add_overflows a b (wrap (a +ℤ b)))
unfolding add_overflows wrap ◌+ℤ◌
add_overflows_iff (pos a) (pos b) ha hb = ground arith
add_overflows_iff (pos a) (negsuc b) ha hb = ground arith
add_overflows_iff (negsuc a) (pos b) ha hb = ground arith
add_overflows_iff (negsuc a) (negsuc b) ha hb = ground arith

pub sub_overflows_iff :
    (a b : ℤ) → IsInt64 a → IsInt64 b → in_int64 (a -ℤ b) ≡ not (sub_overflows a b (wrap (a -ℤ b)))
unfolding sub_overflows wrap ◌-ℤ◌
sub_overflows_iff (pos a) (pos b) ha hb = ground arith
sub_overflows_iff (pos a) (negsuc b) ha hb = ground arith
sub_overflows_iff (negsuc a) (pos b) ha hb = ground arith
sub_overflows_iff (negsuc a) (negsuc b) ha hb = ground arith

-- The tests on the wrapped sum and on the wrapped difference pass exactly when the exact sum, and the
-- exact difference, leave int64.
pub overflows_iff :
    (a b : ℤ)
    → IsInt64 a
    → IsInt64 b
    → (in_int64 (a +ℤ b) ≡ not (add_overflows a b (wrap (a +ℤ b))))
      × (in_int64 (a -ℤ b) ≡ not (sub_overflows a b (wrap (a -ℤ b))))
overflows_iff a b ha hb = (add_overflows_iff a b ha hb, sub_overflows_iff a b ha hb)

signed-IsInt64 : (minus : Bool) (o : Option ℕ) (a : ℤ) → signed minus o ≡ some a → IsInt64 a
signed-IsInt64 minus none a h = cc
signed-IsInt64 false (some n) a h = ground arith
signed-IsInt64 true (some zero) a h = ground arith
signed-IsInt64 true (some (suc n)) a h = ground arith

pub parse_int-IsInt64 : (s : Text) (a : ℤ) → parse_int s ≡ some a → IsInt64 a
unfolding parse_int
parse_int-IsInt64 [] a h = cc
parse_int-IsInt64 (c ∷ s) a h = ground (
  arith,
  signed-IsInt64 false (parse_uint s) a,
  signed-IsInt64 true (parse_uint s) a,
  signed-IsInt64 false (parse_uint (c ∷ s)) a,
)
