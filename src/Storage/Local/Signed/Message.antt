-- ===== src/Storage/Local/Signed/Message.antt =====
-- storage/local/local.go: the message that sign hashes determines the method, the path and the expiry.
use chandlery.Base.{
  ℕ, zero, suc, ◌≡◌, refl, Bool, true, false, not, ◌||◌, [], ◌∷◌, ◌++◌, all-append, ◌+◌, ◌/◌, ◌%◌,
  ◌==◌, ltb, arith,
}
use chandlery.Base.Int.{ℤ, pos, negsuc, IsInt64}
use chandlery.Base.Text.{Text}
use chandlery.Base.Text.Space.{lacks}
use chandlery.Cache.Numbers.{digits, format_int, parse_int-format_int}
use chandlery.Storage.Local.Signed.{colon, message}

-- Texts that go on after the first colon.
first_colon :
    (s t u v : Text)
    → lacks colon s ≡ true
    → lacks colon t ≡ true
    → s ++ colon ∷ u ≡ t ++ colon ∷ v
    → (s ≡ t) × (u ≡ v)
first_colon [] [] u v h k e = (refl, cc)
first_colon [] (d ∷ t) u v h k e = ground arith
first_colon (c ∷ s) [] u v h k e = ground arith
first_colon (c ∷ s) (d ∷ t) u v h k e =
    let rest = first_colon s t u v (ground arith) (ground arith) cc in
    (ground (arith, rest.0), rest.1)

lacks-after : (s u : Text) → lacks colon (s ++ colon ∷ u) ≡ false
lacks-after s u = ground (arith, all-append (λ d. not (d == colon)) s (colon ∷ u))

-- Texts that end after the last colon.
last_colon :
    (s t u v : Text)
    → lacks colon u ≡ true
    → lacks colon v ≡ true
    → s ++ colon ∷ u ≡ t ++ colon ∷ v
    → (s ≡ t) × (u ≡ v)
last_colon [] [] u v h k e = (refl, cc)
last_colon [] (d ∷ t) u v h k e = ground (arith, lacks-after t v)
last_colon (c ∷ s) [] u v h k e = ground (arith, lacks-after s u)
last_colon (c ∷ s) (d ∷ t) u v h k e =
    let rest = last_colon s t u v h k cc in (ground (arith, rest.0), rest.1)

-- The character is neither a digit nor a minus.
abbrev pub no_digit : ℕ → Bool
no_digit c = ltb 57 c || ltb c 45

lacks-digits :
    (c f n : ℕ) (rest : Text)
    → no_digit c ≡ true
    → lacks c rest ≡ true
    → lacks c (digits f n rest) ≡ true
unfolding digits
lacks-digits c zero n rest k h = h
lacks-digits c (suc f) n rest k h = ground (arith, lacks-digits c f (n / 10) ((48 + n % 10) ∷ rest))

pub lacks-format_int : (c : ℕ) (a : ℤ) → no_digit c ≡ true → lacks c (format_int a) ≡ true
unfolding format_int
lacks-format_int c (pos n) k = lacks-digits c (suc n) n [] k refl
lacks-format_int c (negsuc n) k = ground (arith, lacks-digits c (suc (suc n)) (suc n) [])

format_int-injective : (a b : ℤ) → IsInt64 a → IsInt64 b → format_int a ≡ format_int b → a ≡ b
format_int-injective a b h k e = ground (arith, parse_int-format_int a h, parse_int-format_int b k)

-- Two messages of methods without a colon are the same only for the same method, path and seconds.
pub message-injective :
    (p q m n : Text) (a b : ℤ)
    → lacks colon m ≡ true
    → lacks colon n ≡ true
    → IsInt64 a
    → IsInt64 b
    → message p m a ≡ message q n b
    → (m ≡ n) × (p ≡ q) × (a ≡ b)
unfolding message
message-injective p q m n a b h k i j e =
    let first = first_colon m n (p ++ colon ∷ format_int a) (q ++ colon ∷ format_int b) h k e in
    let last =
      last_colon p q (format_int a) (format_int b) (lacks-format_int colon a refl)
        (lacks-format_int colon b refl) first.1 in
    (first.0, last.0, format_int-injective a b i j last.1)
