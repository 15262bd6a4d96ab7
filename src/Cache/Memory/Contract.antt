-- ===== src/Cache/Memory/Contract.antt =====
-- The store against the contract of cache/cache.go: an ideal map that forgets nothing and is asked,
-- at each instant, for what has not expired.
use chandlery.Base.{
  ℕ, ◌≤◌, String, ◌≡◌, Bool, true, false, Option, none, some, str_eq, if◌then◌else◌,
}
use chandlery.Base.Int.{ℤ, ◌+ℤ◌, ◌-ℤ◌, in_int64}
use chandlery.Cache.Numbers.{format_int}
use chandlery.Cache.Memory.{
  Bytes, null, bytes, text_of, Entry, Store, Error, no_prefix, not_integer, overflow, Result, ok,
  err, expiry_for, number_of,
}
use chandlery.Cache.Memory
use chandlery.Cache.Memory.Visible.{live, visible}

pub data Call : Type 0 where
  get : String → Call
  put : String → Bytes → ℤ → Call
  add : String → Bytes → ℤ → Call
  forever : String → Bytes → Call
  pull : String → Call
  forget : String → Call
  has : String → Call
  increment : String → ℤ → Call
  decrement : String → ℤ → Call
  flush : Call

pub data Reply : Type 0 where
  done : Reply
  value : Bytes × Bool → Reply
  flag : Bool → Reply
  number : Result ℤ → Reply
  flushed : Result (Unit {0}) → Reply

-- One call of the code, with its two readings of the clock.
unfoldable pub call : ℕ → ℕ → Call → Store → Store × Reply
call now later (get k) s = let (s', r) = Memory.get now s k in (s', value r)
call now later (put k v ttl) s = (Memory.put now s k v ttl, done)
call now later (add k v ttl) s = let (s', r) = Memory.add now later s k v ttl in (s', flag r)
call now later (forever k v) s = (Memory.forever s k v, done)
call now later (pull k) s = let (s', r) = Memory.pull now s k in (s', value r)
call now later (forget k) s = (Memory.forget s k, done)
call now later (has k) s = let (s', r) = Memory.has now s k in (s', flag r)
call now later (increment k by) s = let (s', r) = Memory.increment now s k by in (s', number r)
call now later (decrement k by) s = let (s', r) = Memory.decrement now s k by in (s', number r)
call now later flush s = let (s', r) = Memory.flush s in (s', flushed r)

-- The ideal store.
pub record Ideal : Type 0 where
  pub prefix : String
  pub table : String → Option Entry

abbrev pub assign : String → Option Entry → (String → Option Entry) → String → Option Entry
assign k e table j = if str_eq k j then e else table j

abbrev pub assigned : String → Option Entry → Ideal → Ideal
assigned k e i = record i { table = assign k e i.table }

-- A counter takes the exact result if that is an int64, and is left alone otherwise.
abbrev pub count_ideal : String → ℤ → (ℤ → ℤ) → Result (ℤ × ℕ) → Ideal → Ideal × Reply
count_ideal k by next (err e) i = (i, number (err e))
count_ideal k by next (ok p) i =
    if in_int64 (next p.0)
    then (
      assigned k (some (record { val = bytes (format_int (next p.0)); expires_at = p.1 })) i,
      number (ok (next p.0)),
    )
    else (i, number (err (overflow k by)))

abbrev pub answer : Option Entry → Bytes × Bool
answer none = (null, false)
answer (some e) = (bytes (text_of e.val), true)

abbrev pub present : Option Entry → Bool
present none = false
present (some e) = true

abbrev pub entry : Bytes → ℕ → Option Entry
entry v t = some (record { val = bytes (text_of v); expires_at = t })

unfoldable pub ideal : ℕ → ℕ → Call → Ideal → Ideal × Reply
ideal now later (get k) i = (i, value (answer (live now (i.table k))))
ideal now later (put k v ttl) i = (assigned k (entry v (expiry_for now ttl)) i, done)
ideal now later (add k v ttl) i =
    let seen = present (live now (i.table k)) in
    if seen then (i, flag false) else (assigned k (entry v (expiry_for later ttl)) i, flag true)
ideal now later (forever k v) i = (assigned k (entry v 0) i, done)
ideal now later (pull k) i = (assigned k none i, value (answer (live now (i.table k))))
ideal now later (forget k) i = (assigned k none i, done)
ideal now later (has k) i = (i, flag (present (live now (i.table k))))
ideal now later (increment k by) i =
    count_ideal k by (λ n. n +ℤ by) (number_of k (live now (i.table k))) i
ideal now later (decrement k by) i =
    count_ideal k by (λ n. n -ℤ by) (number_of k (live now (i.table k))) i
ideal now later flush i =
    if str_eq i.prefix ""
    then (i, flushed (err no_prefix))
    else (record i { table = λ j. none }, flushed (ok tt))

-- From the instant `t` on, the store and the ideal one show the same entries.
pub record Agrees (t : ℕ) (s : Store) (i : Ideal) : Type 0 where
  pub prefix : s.prefix ≡ i.prefix
  pub shows : (u : ℕ) (j : String) → t ≤ u → visible s u j ≡ live u (i.table j)
