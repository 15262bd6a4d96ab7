-- ===== src/Cache/Redis/Flush.antt =====
-- cache/redis/redis.go: Flush deletes what the scan found, in batches.
use chandlery.Base.{
  ℕ, ◌≤◌, ◌<◌, ◌≡◌, true, false, Option, none, some, List, [], ◌∷◌, ◌++◌, arith, leb, length,
  length-append, All, Bool-cases, inl, inr,
}
use chandlery.Base.Text.{Text, eq}
use chandlery.Cache.Redis.{
  Client, Answer, failed, replied, flush_batch_size, flush_loop, flush_rest, deleted, finish, flush,
}

-- What the server's DEL does when it succeeds: the keys go one after another, so that two calls do
-- what one call with all of their keys does, and a call with no key would change nothing.
pub record Deletes (c : Client) (removed : List Text → c.State → c.State) : Type 0 where
  pub del : (ks : List Text) (st : c.State) → c.del ks st ≡ (removed ks st, replied tt)
  pub append :
      (xs ys : List Text) (st : c.State) → removed ys (removed xs st) ≡ removed (xs ++ ys) st
  pub none : (st : c.State) → removed [] st ≡ st

module _ (c : Client) (prefix : Text) (batch : List Text) (k : Text) (found : List Text)
    (st : c.State) where
  flush_loop_full :
      leb flush_batch_size (length (batch ++ k ∷ [])) ≡ true
      → flush_loop c prefix batch (k ∷ found) st
        ≡ deleted c prefix (c.del (batch ++ k ∷ []) st) (flush_loop c prefix [] found)
  unfolding flush_loop
  flush_loop_full full = rw (full, flush_loop)

  flush_loop_room :
      leb flush_batch_size (length (batch ++ k ∷ [])) ≡ false
      → flush_loop c prefix batch (k ∷ found) st ≡ flush_loop c prefix (batch ++ k ∷ []) found st
  unfolding flush_loop
  flush_loop_room room = rw (room, flush_loop)

-- Whatever the server answers.
module _ (c : Client) (prefix : Text) (P : c.State → Type 0) (Q : Text → Type 0)
    (keeps : (ks : List Text) (st : c.State)
      → All Q ks
      → 0 < length ks
      → length ks ≤ 1000
      → P st
      → P (c.del ks st).0) where
  flush_rest-keeps :
      (batch : List Text) (st : c.State)
      → All Q batch
      → length batch ≤ flush_batch_size
      → P st
      → P (flush_rest c prefix batch st).0
  unfolding flush_rest
  flush_rest-keeps [] st q l p = p
  flush_rest-keeps (k ∷ batch) st q l p = keeps (k ∷ batch) st q (omega arith) l p

  All-snoc : (batch : List Text) (k : Text) → All Q batch → Q k → All Q (batch ++ k ∷ [])
  All-snoc [] k q r = (r, tt)
  All-snoc (j ∷ batch) k q r = (q.0, All-snoc batch k q.1 r)

  removed-keeps :
      (found : List Text) (iter : Option ℕ) (r : c.State × Answer (Unit {0}))
      → ((st : c.State) → P st → P (finish c prefix iter (flush_loop c prefix [] found st)).0)
      → P r.0
      → P (finish c prefix iter (deleted c prefix r (flush_loop c prefix [] found))).0
  removed-keeps found iter (st, failed e) ih p = p
  removed-keeps found iter (st, replied u) ih p = ih st p

  loop-keeps :
      (batch found : List Text) (iter : Option ℕ) (st : c.State)
      → All Q batch
      → All Q found
      → length batch < flush_batch_size
      → P st
      → P (finish c prefix iter (flush_loop c prefix batch found st)).0
  unfolding flush_loop
  loop-keeps batch [] none st qb qf l p = flush_rest-keeps batch st qb (omega arith) p
  loop-keeps batch [] (some e) st qb qf l p = p
  loop-keeps batch (k ∷ found) iter st qb qf l p =
      let n = length-append batch (k ∷ []) in
      elim (Bool-cases (leb flush_batch_size (length (batch ++ k ∷ [])))) [
        | inl full ↦ rw (flush_loop_full c prefix batch k found st full) (
            removed-keeps found iter (c.del (batch ++ k ∷ []) st)
              (λ st' p'. loop-keeps [] found iter st' tt qf.1 (omega arith) p')
              (keeps (batch ++ k ∷ []) st (All-snoc batch k qb qf.0) (omega (arith, n))
                (omega (arith, n)) p))
        | inr room ↦ rw (flush_loop_room c prefix batch k found st room) (
            loop-keeps (batch ++ k ∷ []) found iter st (All-snoc batch k qb qf.0) qf.1
              (ground (arith, room)) p)
      ]

  -- All that Flush does to the server is to delete batches of 1 to 1000 keys that the scan yielded:
  -- what such deletions keep, it keeps, whether they, or the scan, fail or not.
  pub flush-keeps :
      (found : List Text) (iter : Option ℕ) (st : c.State)
      → All Q found
      → P st
      → P (flush c prefix found iter st).0
  unfolding flush
  flush-keeps found iter st q p = elim (Bool-cases (eq prefix [])) [
    | inl e ↦ rw e p
    | inr e ↦ rw e (loop-keeps [] found iter st tt q (omega arith) p)
  ]
