-- ===== src/Cache/Memory/Counter.antt =====
-- cache/memory/memory.go: what Get reads after Put, Increment and Decrement.
use chandlery.Base.{
  ℕ, zero, suc, ◌+◌, String, ◌≡◌, refl, ◌∙◌, sym, ap, Bool, true, false, Option, none, some, arith,
  leb, str_eq_refl, if◌then◌else◌, Option-cases, inl, inr,
}
use chandlery.Base.Assoc.{lookup}
use chandlery.Base.Int.{ℤ, pos, negsuc, ◌+ℤ◌, ◌-ℤ◌, IsInt64, wrap-IsInt64, is_nonpos}
use chandlery.Cache.Numbers.{parse_int, format_int, parse_int-format_int}
use chandlery.Cache.Memory.{
  Bytes, null, bytes, text_of, Entry, Store, Result, ok, err, copy_bytes, expiry_for, expired,
  find_entry, write, got, get, put, number_of, current_int, store_int, summed, subtracted, add_to,
  sub_from, increment, decrement,
}
use chandlery.Cache.Memory.Contract.{answer}
use chandlery.Cache.Memory.Visible.{live, visible, live-live, find_entry-visible, visible-write}

got-answer : (s : Store) (o : Option Entry) → (got (s, o)).1 ≡ answer o
unfolding copy_bytes
got-answer s none = refl
got-answer s (some e) = refl

-- Get returns what is visible.
pub get-answer : (u : ℕ) (s : Store) (k : String) → (get u s k).1 ≡ answer (visible s u k)
unfolding get
get-answer u s k = got-answer (find_entry u s k).0 _ ∙ ap answer (find_entry-visible u s k)

visible-write_self :
    (s : Store) (k : String) (e : Entry) (u : ℕ) → visible (write k e s) u k ≡ live u (some e)
visible-write_self s k e u = visible-write s k e u k ∙ rw (str_eq_refl k)

abbrev pub after_ttl : ℕ → ℤ → ℕ → Bool
after_ttl now (pos n) u = leb (now + n) u
after_ttl now (negsuc n) u = false

-- Get at the instant u, after Put at the instant now: the bytes, non-nil, for a ttl of at most 0 and
-- before now + ttl; absent from then on.
pub get-put :
    (s : Store) (k : String) (v : Bytes) (ttl : ℤ) (now u : ℕ)
    → (get u (put now s k v ttl) k).1 ≡ (
        if is_nonpos ttl
        then (bytes (text_of v), true)
        else if after_ttl now ttl u
        then (null, false)
        else (bytes (text_of v), true))
unfolding put copy_bytes expired expiry_for
get-put s k v ttl now u =
    get-answer u (put now s k v ttl) k ∙ ap answer (visible-write_self s k _ u) ∙ expiry ttl
  where
    expiry :
        (d : ℤ)
        → answer (live u (some (record { val = copy_bytes v; expires_at = expiry_for now d }))) ≡ (
            if is_nonpos d
            then (bytes (text_of v), true)
            else if after_ttl now d u
            then (null, false)
            else (bytes (text_of v), true))
    expiry (pos zero) = ground arith
    expiry (pos (suc n)) = ground arith
    expiry (negsuc n) = ground arith

abbrev pub number_seen : ℕ → String → Store → Option ℤ
number_seen now k s = parse_int (text_of (get now s k).1.0)

-- A counter's number, read back.
module _ (now : ℕ) (k : String) (s : Store) where
  stored-reads_back :
      (by next : ℤ) (expires : ℕ) (o : Bool) {n : ℤ}
      → IsInt64 next
      → ((v : Bytes) → expired now (record { val = v; expires_at = expires }) ≡ false)
      → (store_int k by expires next o s).1 ≡ ok n
      → number_seen now k (store_int k by expires next o s).0 ≡ some n
  stored-reads_back by next expires true w l h = cc
  stored-reads_back by next expires false w l h =
      ap (λ a. parse_int (text_of a.0))
        (get-answer now _ k ∙ ap answer (visible-write_self s k _ now))
      ∙ rw (l (bytes (format_int next)), parse_int-format_int next w) (ground (arith, h))

  never_expired : (v : Bytes) → expired now (record { val = v; expires_at = 0 }) ≡ false
  unfolding expired
  never_expired v = ground arith

  still_live :
      (e : Entry)
      → live now (some e) ≡ some e
      → (v : Bytes) → expired now (record { val = v; expires_at = e.expires_at }) ≡ false
  unfolding expired
  still_live e l v = ground (arith, l)

  -- The expiry that comes with the number has not passed.
  abbrev IsLive : Result (ℤ × ℕ) → Type 0
  IsLive (err e) = Unit
  IsLive (ok p) = (v : Bytes) → expired now (record { val = v; expires_at = p.1 }) ≡ false

  number_of-IsLive : (o : Option Entry) → live now o ≡ o → IsLive (number_of k o)
  number_of-IsLive none l = never_expired
  number_of-IsLive (some e) l = elim (Option-cases (parse_int (text_of e.val))) [
    | inl p ↦ rw (p, IsLive) tt
    | inr (cur, p) ↦ rw (p, IsLive) (still_live e l)
  ]

  summed-reads_back :
      (c : Result (ℤ × ℕ)) (by : ℤ) {n : ℤ}
      → IsLive c
      → (summed k by (s, c)).1 ≡ ok n
      → number_seen now k (summed k by (s, c)).0 ≡ some n
  summed-reads_back (err e) by l h = cc
  summed-reads_back (ok (cur, expires)) by l h =
      stored-reads_back by _ expires _ (wrap-IsInt64 (cur +ℤ by)) l h

  subtracted-reads_back :
      (c : Result (ℤ × ℕ)) (by : ℤ) {n : ℤ}
      → IsLive c
      → (subtracted k by (s, c)).1 ≡ ok n
      → number_seen now k (subtracted k by (s, c)).0 ≡ some n
  subtracted-reads_back (err e) by l h = cc
  subtracted-reads_back (ok (cur, expires)) by l h =
      stored-reads_back by _ expires _ (wrap-IsInt64 (cur -ℤ by)) l h

live-find_entry :
    (now : ℕ) (s : Store) (k : String) → let o = (find_entry now s k).1 in live now o ≡ o
live-find_entry now s k =
    ap (live now) (find_entry-visible now s k)
    ∙ unfold visible in
      live-live now now (lookup k s.entries) (omega arith) ∙ sym (find_entry-visible now s k)

current_int-reads_back :
    (now : ℕ) (s : Store) (k : String) → IsLive now k s (number_of k (find_entry now s k).1)
current_int-reads_back now s k =
    number_of-IsLive now k s (find_entry now s k).1 (live-find_entry now s k)

increment-get :
    (now : ℕ) (s : Store) (k : String) (by n : ℤ)
    → (increment now s k by).1 ≡ ok n
    → number_seen now k (increment now s k by).0 ≡ some n
unfolding increment add_to current_int
increment-get now s k by n h =
    summed-reads_back now k (find_entry now s k).0 _ by (current_int-reads_back now s k) h

decrement-get :
    (now : ℕ) (s : Store) (k : String) (by n : ℤ)
    → (decrement now s k by).1 ≡ ok n
    → number_seen now k (decrement now s k by).0 ≡ some n
unfolding decrement sub_from current_int
decrement-get now s k by n h =
    subtracted-reads_back now k (find_entry now s k).0 _ by (current_int-reads_back now s k) h

-- Increment, or Decrement.
abbrev pub counted : Bool → ℕ → Store → String → ℤ → Store × Result ℤ
counted true now s k by = increment now s k by
counted false now s k by = decrement now s k by

-- When Increment, or Decrement, succeeds with a number, Get at the same instant reads the digits of
-- that number.
pub counted-get :
    (up : Bool) (now : ℕ) (s : Store) (k : String) (by n : ℤ)
    → (counted up now s k by).1 ≡ ok n
    → number_seen now k (counted up now s k by).0 ≡ some n
counted-get true now s k by n h = increment-get now s k by n h
counted-get false now s k by n h = decrement-get now s k by n h
