-- ===== src/Cache/Redis.antt =====
-- cache/redis/redis.go: the store over a Redis server. go-redis is a parameter: what a call of the
-- client does to the server's state, and what it answers. Keys and patterns are lists of code points.
pub mod Glob
pub mod Flush
use chandlery.Base.{
  ℕ, zero, suc, ◌<◌, Bool, true, false, ◌||◌, Option, none, some, List, [], ◌∷◌, ◌++◌, ltb, leb,
  ◌==◌, if◌then◌else◌, length,
}
use chandlery.Base.Int.{ℤ, pos, negsuc}
use chandlery.Base.Text.{Text, eq}

-- A call of the client fails, or answers.
pub data Answer {ℓ} (A : Type ℓ) : Type ℓ where
  failed : ℕ → Answer A
  replied : A → Answer A

-- The calls of *goredis.Client that the store makes. `none` is goredis.Nil; an expiry of 0 is none.
pub record Client : Type 1 where
  pub State : Type 0
  pub get : Text → State → State × Answer (Option Text)
  pub set : Text → Text → ℕ → State → State × Answer (Unit {0})
  pub set_nx : Text → Text → ℕ → State → State × Answer Bool
  pub get_del : Text → State → State × Answer (Option Text)
  pub del : List Text → State → State × Answer (Unit {0})
  pub exists : Text → State → State × Answer ℕ
  pub incr_by : Text → ℤ → State → State × Answer ℤ
  pub decr_by : Text → ℤ → State → State × Answer ℤ

pub data Error : Type 0 where
  no_prefix : Error
  client : ℕ → Error

-- A []byte that is present, or nil and false.
pub data Outcome {ℓ} (A : Type ℓ) : Type ℓ where
  ok : A → Outcome A
  err : Error → Outcome A

abbrev pub outcome {ℓ} : {A : Type ℓ} → Answer A → Outcome A
outcome (failed e) = err (client e)
outcome (replied a) = ok a

-- A positive time to live, or 0.
unfoldable pub expiry_for : ℤ → ℕ
expiry_for (pos n) = n
expiry_for (negsuc n) = 0

-- The characters that are special in a glob pattern.
abbrev pub is_special : ℕ → Bool
is_special r = r == b'*' || (r == b'?' || (r == b'[' || (r == b']' || r == b'\\')))

unfoldable pub glob_escape : Text → Text
glob_escape [] = []
glob_escape (r ∷ s) = let rest = r ∷ glob_escape s in if is_special r then b'\\' ∷ rest else rest

abbrev pub flush_batch_size : ℕ
flush_batch_size = 1000

module _ (c : Client) (prefix : Text) where
  open c use {State}

  unfoldable pub key : Text → Text
  key k = prefix ++ k

  unfoldable pub get : Text → State → State × Outcome (Option Text)
  get k st = let (st', a) = c.get (key k) st in (st', outcome a)

  unfoldable pub put : Text → Text → ℤ → State → State × Outcome (Unit {0})
  put k val ttl st = let (st', a) = c.set (key k) val (expiry_for ttl) st in (st', outcome a)

  unfoldable pub add : Text → Text → ℤ → State → State × Outcome Bool
  add k val ttl st = let (st', a) = c.set_nx (key k) val (expiry_for ttl) st in (st', outcome a)

  unfoldable pub forever : Text → Text → State → State × Outcome (Unit {0})
  forever k val st = let (st', a) = c.set (key k) val 0 st in (st', outcome a)

  unfoldable pub pull : Text → State → State × Outcome (Option Text)
  pull k st = let (st', a) = c.get_del (key k) st in (st', outcome a)

  unfoldable pub forget : Text → State → State × Outcome (Unit {0})
  forget k st = let (st', a) = c.del (key k ∷ []) st in (st', outcome a)

  -- n > 0, which is false beside an error.
  abbrev present : Answer ℕ → Outcome Bool
  present (failed e) = err (client e)
  present (replied n) = ok (ltb 0 n)

  unfoldable pub has : Text → State → State × Outcome Bool
  has k st = let (st', a) = c.exists (key k) st in (st', present a)

  unfoldable pub increment : Text → ℤ → State → State × Outcome ℤ
  increment k by st = let (st', a) = c.incr_by (key k) by st in (st', outcome a)

  unfoldable pub decrement : Text → ℤ → State → State × Outcome ℤ
  decrement k by st = let (st', a) = c.decr_by (key k) by st in (st', outcome a)

  -- What follows the deletion of a batch: its error, or the rest of the loop.
  abbrev pub deleted :
      State × Answer (Unit {0})
      → (State → State × Outcome (List Text))
      → State × Outcome (List Text)
  deleted (st, failed e) rest = (st, err (client e))
  deleted (st, replied u) rest = rest st

  -- The loop over the iterator, which yields the keys `found` in order: a full batch is deleted and
  -- starts anew. It ends with the batch that is left, or with the error of a deletion.
  unfoldable pub flush_loop : List Text → List Text → State → State × Outcome (List Text)
  flush_loop batch [] st = (st, ok batch)
  flush_loop batch (k ∷ found) st =
      let next = batch ++ k ∷ [] in
      elim (leb flush_batch_size (length next)) [
        | true ↦ deleted (c.del next st) (λ st'. flush_loop [] found st')
        | false ↦ flush_loop next found st
      ]

  -- The deletion of the last batch, if there is one.
  unfoldable pub flush_rest : List Text → State → State × Outcome (Unit {0})
  flush_rest [] st = (st, ok tt)
  flush_rest (k ∷ batch) st = let (st', a) = c.del (k ∷ batch) st in (st', outcome a)

  -- What follows the loop: the iterator's error, or the last deletion.
  abbrev pub finish : Option ℕ → State × Outcome (List Text) → State × Outcome (Unit {0})
  finish iter (st, err e) = (st, err e)
  finish (some e) (st, ok batch) = (st, err (client e))
  finish none (st, ok batch) = flush_rest batch st

  -- Flush, when the iterator yields `found` and ends with the error `iter`, if any.
  unfoldable pub flush : List Text → Option ℕ → State → State × Outcome (Unit {0})
  flush found iter st =
      if eq prefix [] then (st, err no_prefix) else finish iter (flush_loop [] found st)
