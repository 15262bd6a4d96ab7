-- ===== src/Cache/Redis/Glob.antt =====
-- cache/redis/redis.go: Flush scans with an escaped pattern. The glob matching is the server's, and
-- is a parameter with what Redis documents of it.
use chandlery.Base.{
  any, arith, ℕ, ◌≡◌, Bool, true, false, ◌&&◌, [], ◌∷◌, ◌++◌, ◌==◌, Bool-cases, inl, inr,
}
use chandlery.Base.Text.{Text, has_prefix}
use chandlery.Cache.Redis.{is_special, glob_escape}

-- The characters that can mean something in a pattern of Redis: * ? [ ] and the backslash.
abbrev pub has_meaning : ℕ → Bool
has_meaning c = any (λ d. c == d) (b'*' ∷ b'?' ∷ b'[' ∷ b']' ∷ b'\\' ∷ [])

-- Redis's matching, pattern first: a backslash takes the next character as it is, a character without
-- a meaning stands for itself, and a last star matches anything.
pub record IsGlob (matches : Text → Text → Bool) : Type 0 where
  pub escaped :
      (c : ℕ) (p : Text) (d : ℕ) (s : Text)
      → matches (b'\\' ∷ c ∷ p) (d ∷ s) ≡ (d == c && matches p s)
  pub escaped_end : (c : ℕ) (p : Text) → matches (b'\\' ∷ c ∷ p) [] ≡ false
  pub plain :
      (c : ℕ) (p : Text) (d : ℕ) (s : Text)
      → has_meaning c ≡ false
      → matches (c ∷ p) (d ∷ s) ≡ (d == c && matches p s)
  pub plain_end : (c : ℕ) (p : Text) → has_meaning c ≡ false → matches (c ∷ p) [] ≡ false
  pub star : (s : Text) → matches (b'*' ∷ []) s ≡ true

has_meaning-is_special : (c : ℕ) → is_special c ≡ false → has_meaning c ≡ false
has_meaning-is_special c h = ground (arith, h)

-- The pattern that Flush scans with matches a key exactly when the key starts with the prefix,
-- whatever special characters the prefix has.
pub matches-glob_escape :
    (matches : Text → Text → Bool)
    → IsGlob matches
    → (prefix key : Text) → matches (glob_escape prefix ++ b'*' ∷ []) key ≡ has_prefix key prefix
unfolding glob_escape has_prefix
matches-glob_escape matches g [] [] = g.star []
matches-glob_escape matches g [] (d ∷ s) = g.star (d ∷ s)
matches-glob_escape matches g (c ∷ p) [] = elim (Bool-cases (is_special c)) [
  | inl e ↦ rw (e, glob_escape) (g.escaped_end c _)
  | inr e ↦ rw (e, glob_escape) (g.plain_end c _ (has_meaning-is_special c e))
]
matches-glob_escape matches g (c ∷ p) (d ∷ s) = elim (Bool-cases (is_special c)) [
  | inl e ↦ rw (e, g.escaped) (rw (matches-glob_escape matches g p s))
  | inr e ↦
      rw (e, g.plain c (glob_escape p ++ b'*' ∷ []) d s (has_meaning-is_special c e))
        (rw (matches-glob_escape matches g p s))
]
