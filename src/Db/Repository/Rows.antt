-- ===== src/Db/Repository/Rows.antt =====
-- db/repository.go: what Create leaves of the rows that its caller can see.
use chandlery.Base.{ℕ, ◌≡◌, refl, Option, none, some, ◌==◌, if◌then◌else◌, arith}
use chandlery.Db.Repository.{Bun, Heap, by_value, by_address, kept, create}

module _ {Row : Type 0} (b : Bun Row) where
  abbrev left_or : Option Row → Row → Row
  left_or none old = old
  left_or (some r) old = r

  kept-rows :
      (left : Option Row) (h : Heap Row) (a x : ℕ)
      → (kept b (by_address (some a)) left h).rows x
        ≡ (if x == a then left_or left (h.rows a) else h.rows x)
  kept-rows none h a x = ground arith
  kept-rows (some r) h a x = refl

  -- Of a struct, Create changes the method's own copy alone. Of a pointer, the row pointed to is what
  -- bun, and with it the model's hooks, left of it, and every other row is what it was.
  create-rows :
      (r : Row) (a x : ℕ) (h : Heap Row) (w : b.World)
      → ((create b (by_value r) h w).0.0 ≡ h)
        × ((create b (by_address (some a)) h w).0.0.rows x
            ≡ (if x == a then left_or (b.insert (some (h.rows a)) w).1.0 (h.rows a) else h.rows x))
  unfolding create
  create-rows r a x h w = (refl, kept-rows (b.insert (some (h.rows a)) w).1.0 h a x)
