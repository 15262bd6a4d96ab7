-- ===== src/Cache/Memory/Refinement.antt =====
-- cache/memory/memory.go keeps the contract: every sequence of calls is answered as the ideal store
-- answers it, whatever was evicted on the way.
use chandlery.Base.{
  ℕ, ◌≤◌, String, ◌≡◌, refl, sym, ap, ◌∙◌, Bool, true, false, Option, none, some, arith, str_eq,
  str_eq_iff, Option-cases, Bool-cases, inl, inr, not,
}
use chandlery.Base.Assoc.{lookup-remove, lookup-empty, remove}
use chandlery.Base.Int.{ℤ, ◌+ℤ◌, ◌-ℤ◌, IsInt64, in_int64, wrap, wrap_of_int64}
use chandlery.Cache.Numbers.{parse_int, parse_int-IsInt64, add_overflows_iff, sub_overflows_iff}
use chandlery.Cache.Memory
use chandlery.Cache.Memory.{
  Bytes, Entry, Store, text_of, copy_bytes, find_entry, write, number_of, Result, ok, err,
}
use chandlery.Cache.Memory.Visible.{
  live, visible, live-live, find_entry-visible, visible-find_entry, visible-write,
}
use chandlery.Cache.Memory.Contract.{
  Call, Reply, Ideal, Agrees, call, ideal, assigned, count_ideal, value, flag, number, get, put,
  add, forever, pull, forget, has, increment, decrement, flush,
}

prefix-find_entry : (t : ℕ) (s : Store) (k : String) → (find_entry t s k).0.prefix ≡ s.prefix
unfolding find_entry
prefix-find_entry t s k = ground arith

module _ {t : ℕ} {s : Store} {i : Ideal} (a : Agrees t s i) (now : ℕ) (h : t ≤ now)
    (k : String) where
  seen : (find_entry now s k).1 ≡ live now (i.table k)
  seen = find_entry-visible now s k ∙ a.shows now k h

  after : Agrees now (find_entry now s k).0 i
  after = record {
    prefix = prefix-find_entry now s k ∙ a.prefix;
    shows = λ u j g. visible-find_entry now s k u j g ∙ a.shows u j (omega arith);
  }

  later_on : Agrees now s i
  later_on = record { prefix = a.prefix; shows = λ u j g. a.shows u j (omega arith) }

  written : (e : Entry) → Agrees now (write k e s) (assigned k (some e) i)
  written e = record {
    prefix = a.prefix;
    shows = λ u j g. ground (arith, visible-write s k e u j, a.shows u j (omega arith));
  }

  removed : Agrees now (record s { entries = remove k s.entries }) (assigned k none i)
  unfolding visible
  removed = record {
    prefix = a.prefix;
    shows = λ u j g. ground (arith, lookup-remove k j s.entries, a.shows u j (omega arith));
  }

-- What a call with no entry to see leaves behind agrees with an ideal store that drops the key.
dropped :
    {t : ℕ} {s : Store} {i : Ideal} (k : String)
    → Agrees t s i
    → live t (i.table k) ≡ none
    → Agrees t s (assigned k none i)
dropped {t} {s} {i} k a gone = record {
  prefix = a.prefix;
  shows = λ u j g. ground (arith, a.shows u j g, str_eq_iff k j, live-live t u (i.table k) g);
}

pub record Refines (t : ℕ) (r : Store × Reply) (r' : Ideal × Reply) : Type 0 where
  pub reply : r.1 ≡ r'.1
  pub agrees : Agrees t r.0 r'.0

-- The counters are asked for an int64.
abbrev pub IsCall : Call → Type 0
IsCall (increment k by) = IsInt64 by
IsCall (decrement k by) = IsInt64 by
IsCall _ = Unit

in_int64→IsInt64 : (a : ℤ) → in_int64 a ≡ true → IsInt64 a
in_int64→IsInt64 a h = ground arith

-- The number that was read is an int64.
abbrev IsNumber : Result (ℤ × ℕ) → Type 0
IsNumber (err e) = Unit
IsNumber (ok p) = IsInt64 p.0

number_of-IsNumber : (k : String) (o : Option Entry) → IsNumber (number_of k o)
number_of-IsNumber k none = omega arith
number_of-IsNumber k (some e) = elim (Option-cases (parse_int (text_of e.val))) [
  | inl p ↦ rw (p, IsNumber) tt
  | inr (n, p) ↦ rw (p, IsNumber) (parse_int-IsInt64 (text_of e.val) n p)
]

-- A call's rest, from the store and the entry that the lookup gives.
module _ {now : ℕ} {s : Store} {i : Ideal} (a : Agrees now s i) (later : ℕ) (g : now ≤ later)
    (k : String) where
  got-Refines :
      (found : Option Entry)
      → found ≡ live now (i.table k)
      → Refines later
          ((Memory.got (s, found)).0, value (Memory.got (s, found)).1)
          (ideal now later (get k) i)
  unfolding ideal copy_bytes
  got-Refines none e = record { reply = ground (arith, e); agrees = later_on a later g k }
  got-Refines (some x) e = record { reply = ground (arith, e); agrees = later_on a later g k }

  had-Refines :
      (found : Option Entry)
      → found ≡ live now (i.table k)
      → Refines later
          ((Memory.had (s, found)).0, flag (Memory.had (s, found)).1)
          (ideal now later (has k) i)
  unfolding ideal
  had-Refines none e = record { reply = ground (arith, e); agrees = later_on a later g k }
  had-Refines (some x) e = record { reply = ground (arith, e); agrees = later_on a later g k }

  pulled-Refines :
      (found : Option Entry)
      → found ≡ live now (i.table k)
      → Refines later
          ((Memory.pulled k (s, found)).0, value (Memory.pulled k (s, found)).1)
          (ideal now later (pull k) i)
  unfolding ideal copy_bytes
  pulled-Refines none e = record {
    reply = ground (arith, e);
    agrees = later_on (dropped k a (sym e)) later g k;
  }
  pulled-Refines (some x) e = record { reply = ground (arith, e); agrees = removed a later g k }

  added-Refines :
      (v : Bytes) (ttl : ℤ) (found : Option Entry)
      → found ≡ live now (i.table k)
      → Refines later
          (
            (Memory.added later k v ttl (s, found)).0,
            flag (Memory.added later k v ttl (s, found)).1,
          )
          (ideal now later (add k v ttl) i)
  unfolding ideal copy_bytes
  added-Refines v ttl none e = rw (← e) (record { reply = refl; agrees = written a later g k _ })
  added-Refines v ttl (some x) e = rw (← e) (record { reply = refl; agrees = later_on a later g k })

  counted_up :
      (by cur : ℤ) (expires : ℕ) (o : Bool)
      → in_int64 (cur +ℤ by) ≡ not o
      → let r = Memory.store_int k by expires (wrap (cur +ℤ by)) o s in
        Refines later (r.0, number r.1) (count_ideal k by (λ n. n +ℤ by) (ok (cur, expires)) i)
  counted_up by cur expires true e = rw e (record { reply = refl; agrees = later_on a later g k })
  counted_up by cur expires false e =
      let exact = wrap_of_int64 (cur +ℤ by) (in_int64→IsInt64 (cur +ℤ by) e) in
      rw (e, exact) (record { reply = refl; agrees = written a later g k _ })

  counted_down :
      (by cur : ℤ) (expires : ℕ) (o : Bool)
      → in_int64 (cur -ℤ by) ≡ not o
      → let r = Memory.store_int k by expires (wrap (cur -ℤ by)) o s in
        Refines later (r.0, number r.1) (count_ideal k by (λ n. n -ℤ by) (ok (cur, expires)) i)
  counted_down by cur expires true e = rw e (record { reply = refl; agrees = later_on a later g k })
  counted_down by cur expires false e =
      let exact = wrap_of_int64 (cur -ℤ by) (in_int64→IsInt64 (cur -ℤ by) e) in
      rw (e, exact) (record { reply = refl; agrees = written a later g k _ })

  module _ (by : ℤ) (b : IsInt64 by) where
    summed-Refines :
        (c : Result (ℤ × ℕ))
        → IsNumber c
        → let r = Memory.summed k by (s, c) in
          Refines later (r.0, number r.1) (count_ideal k by (λ n. n +ℤ by) c i)
    summed-Refines (err e) h = record { reply = refl; agrees = later_on a later g k }
    summed-Refines (ok (cur, expires)) h =
        counted_up by cur expires _ (add_overflows_iff cur by h b)

    subtracted-Refines :
        (c : Result (ℤ × ℕ))
        → IsNumber c
        → let r = Memory.subtracted k by (s, c) in
          Refines later (r.0, number r.1) (count_ideal k by (λ n. n -ℤ by) c i)
    subtracted-Refines (err e) h = record { reply = refl; agrees = later_on a later g k }
    subtracted-Refines (ok (cur, expires)) h =
        counted_down by cur expires _ (sub_overflows_iff cur by h b)

-- Each call, from a store that agrees with the ideal one, answers alike and leaves them in agreement.
pub call-Refines :
    (now later : ℕ) (c : Call) {t : ℕ} {s : Store} {i : Ideal}
    → Agrees t s i
    → t ≤ now
    → now ≤ later
    → IsCall c
    → Refines later (call now later c s) (ideal now later c i)
unfolding call ideal Memory.get Memory.put
call-Refines now later (get k) a h g b = got-Refines (after a now h k) later g k _ (seen a now h k)
call-Refines now later (put k v ttl) a h g b =
    unfold copy_bytes in record { reply = refl; agrees = written (later_on a now h k) later g k _ }
call-Refines now later (add k v ttl) a h g b =
    unfold Memory.add in added-Refines (after a now h k) later g k v ttl _ (seen a now h k)
call-Refines now later (forever k v) a h g b =
    unfold copy_bytes Memory.forever in
    record { reply = refl; agrees = written (later_on a now h k) later g k _ }
call-Refines now later (pull k) a h g b =
    unfold Memory.pull in pulled-Refines (after a now h k) later g k _ (seen a now h k)
call-Refines now later (forget k) a h g b =
    unfold Memory.forget in record { reply = refl; agrees = removed (later_on a now h k) later g k }
call-Refines now later (has k) a h g b =
    unfold Memory.has in had-Refines (after a now h k) later g k _ (seen a now h k)
call-Refines now later (increment k by) {i = i} a h g b =
    unfold Memory.increment Memory.add_to Memory.current_int in
    rw (← seen a now h k)
      (summed-Refines (after a now h k) later g k by b _ (number_of-IsNumber k _))
call-Refines now later (decrement k by) {i = i} a h g b =
    unfold Memory.decrement Memory.sub_from Memory.current_int in
    rw (← seen a now h k)
      (subtracted-Refines (after a now h k) later g k by b _ (number_of-IsNumber k _))
call-Refines now later flush {s = s} a h g b = elim (Bool-cases (str_eq s.prefix "")) [
  | inl e ↦
      unfold Memory.flush in
      rw (e, ap (λ p. str_eq p "") (sym a.prefix) ∙ e)
        (record { reply = refl; agrees = later_on (later_on a now h "") later g "" })
  | inr e ↦
      unfold Memory.flush in
      rw (e, ap (λ p. str_eq p "") (sym a.prefix) ∙ e)
        (record {
          reply = refl;
          agrees = record {
            prefix = a.prefix;
            shows = λ u j l. unfold visible in rw lookup-empty refl;
          };
        })
]
