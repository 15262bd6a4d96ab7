-- ===== src/Tests/Cache.antt =====
-- The theorems on the cache at concrete inputs.
use chandlery.Base.{
  ◌||◌, ℕ, ◌≡◌, refl, Bool, true, false, ◌&&◌, not, some, none, List, [], ◌∷◌, ◌++◌, arith, ◌==◌,
  if◌then◌else◌, All,
}
use chandlery.Base.Int.{ℤ, pos, negsuc, ◌+ℤ◌, ◌-ℤ◌, in_int64, wrap, is_nonpos}
use chandlery.Base.Text.{Text, codes, has_prefix}
use chandlery.Base.Assoc
use chandlery.Cache.Numbers
use chandlery.Cache.Numbers.{
  parse_int, format_int, add_overflows, sub_overflows, parse_int-format_int, overflows_iff,
}
use chandlery.Cache.Memory
use chandlery.Cache.Memory.{Store, Bytes, bytes}
use chandlery.Cache.Memory.Contract.{Call}
use chandlery.Cache.Memory.Runs.{Timed, InOrder, run, ideal_run, nothing, refines_contract}
use chandlery.Cache.Memory.Counter.{get-put, after_ttl, number_seen, counted, counted-get}
use chandlery.Cache.Redis.{Client, replied, glob_escape, flush}
use chandlery.Cache.Redis.Glob.{has_meaning, IsGlob, matches-glob_escape}
use chandlery.Cache.Redis.Flush.{flush-keeps}

abbrev timed : ℕ → Call → Timed
timed t c = record { now = t; later = t; what = c }

abbrev calls : List Timed
calls =
    timed 10 (Call.put "n" (bytes (codes "41")) (pos 5))
    ∷ timed 12 (Call.increment "n" (pos 1))
    ∷ timed 16 (Call.get "n")
    ∷ timed 17 Call.flush
    ∷ []

refines_contract_example : run calls (Memory.init "p:") ≡ ideal_run calls (nothing "p:")
refines_contract_example = refines_contract "p:" calls in_order
  where
    in_order : InOrder 0 calls
    in_order = (
      omega arith,
      omega arith,
      tt,
      (
        omega arith,
        omega arith,
        omega arith,
        (omega arith, omega arith, tt, (omega arith, omega arith, tt, tt)),
      ),
    )

abbrev counting : Store
counting = Memory.forever (Memory.init "p:") "n" (bytes (codes "41"))

decreased : (Memory.decrement 7 counting "n" (pos 50)).1 ≡ Memory.ok (negsuc 8)
unfolding Memory.decrement Memory.sub_from Memory.current_int Memory.find_entry Assoc.lookup
    Memory.forever Assoc.insert parse_int Memory.copy_bytes Numbers.parse_uint Numbers.parse_digits
    sub_overflows wrap ◌-ℤ◌
decreased = refl

counted-get_example : number_seen 7 "n" (counted false 7 counting "n" (pos 50)).0 ≡ some (negsuc 8)
counted-get_example = counted-get false 7 counting "n" (pos 50) (negsuc 8) decreased

parse_int-format_int_example :
    parse_int (format_int (negsuc 9223372036854775807)) ≡ some (negsuc 9223372036854775807)
parse_int-format_int_example = parse_int-format_int (negsuc 9223372036854775807) (ground arith)

abbrev most : ℤ
most = pos 9223372036854775807

overflows_iff_example :
    (in_int64 (most +ℤ pos 1) ≡ not (add_overflows most (pos 1) (wrap (most +ℤ pos 1))))
    × (in_int64 (most -ℤ pos 1) ≡ not (sub_overflows most (pos 1) (wrap (most -ℤ pos 1))))
overflows_iff_example = overflows_iff most (pos 1) (ground arith) (ground arith)

-- A matcher of patterns with the backslash, the question mark, and a star at the end.
unfoldable glob : Text → Text → Bool
glob [] [] = true
glob [] (d ∷ s) = false
glob (c ∷ []) [] = c == b'*'
glob (c ∷ []) (d ∷ s) =
    let rest = glob [] s in if c == b'*' then true else (c == b'?' || d == c) && rest
glob (c ∷ e ∷ p) [] = false
glob (c ∷ e ∷ p) (d ∷ s) =
    let taken = glob p s in
    let rest = glob (e ∷ p) s in
    if c == b'\\' then d == e && taken else (c == b'?' || d == c) && rest

glob-IsGlob : IsGlob glob
unfolding glob
glob-IsGlob = record {
  escaped = λ c p d s. refl;
  escaped_end = λ c p. refl;
  plain = plain;
  plain_end = plain_end;
  star = star;
}
  where
    plain :
        (c : ℕ) (p : Text) (d : ℕ) (s : Text)
        → has_meaning c ≡ false
        → glob (c ∷ p) (d ∷ s) ≡ (d == c && glob p s)
    plain c [] d s h = ground (arith, h)
    plain c (e ∷ p) d s h = ground (arith, h)

    plain_end : (c : ℕ) (p : Text) → has_meaning c ≡ false → glob (c ∷ p) [] ≡ false
    plain_end c [] h = ground (arith, h)
    plain_end c (e ∷ p) h = refl

    star : (s : Text) → glob (b'*' ∷ []) s ≡ true
    star [] = refl
    star (d ∷ s) = refl

matches-glob_escape_example :
    glob (glob_escape (codes "a?") ++ b'*' ∷ []) (codes "axb")
    ≡ has_prefix (codes "axb") (codes "a?")
matches-glob_escape_example = matches-glob_escape glob glob-IsGlob (codes "a?") (codes "axb")

-- A server whose state is the list of the keys that it has been told to delete.
abbrev told : Client
told = record {
  State = List Text;
  get = λ k st. (st, replied none);
  set = λ k v e st. (st, replied tt);
  set_nx = λ k v e st. (st, replied true);
  get_del = λ k st. (st, replied none);
  del = λ ks st. (st ++ ks, replied tt);
  exists = λ k st. (st, replied 0);
  incr_by = λ k by st. (st, replied by);
  decr_by = λ k by st. (st, replied by);
}

abbrev removed : List Text → List Text → List Text
removed ks st = st ++ ks

abbrev keys : List Text
keys = codes "p:a" ∷ codes "p:b" ∷ []

-- Whether every key that was deleted has the prefix.
abbrev AllPrefixed : List Text → Type 0
AllPrefixed ks = All (λ k. has_prefix k (codes "p:") ≡ true) ks

flush-keeps_example : AllPrefixed (flush told (codes "p:") keys (some 3) []).0
unfolding has_prefix
flush-keeps_example =
    flush-keeps told (codes "p:") AllPrefixed (λ k. has_prefix k (codes "p:") ≡ true)
      (λ ks st q more few p. All-append st ks p q) keys (some 3) [] (refl, (refl, tt)) tt
  where
    All-append : (xs ys : List Text) → AllPrefixed xs → AllPrefixed ys → AllPrefixed (xs ++ ys)
    All-append [] ys p q = q
    All-append (x ∷ xs) ys p q = (p.0, All-append xs ys p.1 q)

get-put_example :
    (Memory.get 9 (Memory.put 4 (Memory.init "p:") "k" (bytes (codes "v")) (pos 5)) "k").1 ≡ (
      if is_nonpos (pos 5)
      then (bytes (codes "v"), true)
      else if after_ttl 4 (pos 5) 9
      then (Memory.null, false)
      else (bytes (codes "v"), true))
get-put_example = get-put (Memory.init "p:") "k" (bytes (codes "v")) (pos 5) 4 9
