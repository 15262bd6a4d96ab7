-- ===== src/Cache/Memory/Visible.antt =====
-- What a client can see of the store: the entries that have not expired.
use chandlery.Base.{
  ℕ, ◌≤◌, String, ◌≡◌, Option, none, some, arith, str_eq, str_eq_iff, if◌then◌else◌,
}
use chandlery.Base.Assoc.{lookup, lookup-insert, lookup-remove}
use chandlery.Cache.Memory.{Store, Entry, expired, find_entry, write}

abbrev pub live : ℕ → Option Entry → Option Entry
live now none = none
live now (some e) = if expired now e then none else some e

-- The entry that a lookup at the instant would find.
unfoldable pub visible : Store → ℕ → String → Option Entry
visible s now key = live now (lookup key s.entries)

-- What has expired stays expired.
pub live-live : (t u : ℕ) (o : Option Entry) → t ≤ u → live u (live t o) ≡ live u o
unfolding expired
live-live t u o h = ground arith

module _ (t : ℕ) (s : Store) (k : String) where
  -- The lookup finds what is visible,
  pub find_entry-visible : (find_entry t s k).1 ≡ visible s t k
  unfolding find_entry visible
  find_entry-visible = ground arith

  -- and the eviction is not seen from that instant on.
  pub visible-find_entry :
      (u : ℕ) (j : String) → t ≤ u → visible (find_entry t s k).0 u j ≡ visible s u j
  unfolding find_entry visible
  visible-find_entry u j h = ground (arith, lookup-remove k j s.entries, str_eq_iff k j)

pub visible-write :
    (s : Store) (k : String) (e : Entry) (u : ℕ) (j : String)
    → visible (write k e s) u j ≡ (if str_eq k j then live u (some e) else visible s u j)
unfolding visible
visible-write s k e u j = ground (arith, lookup-insert k j e s.entries)
