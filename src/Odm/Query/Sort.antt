-- ===== src/Odm/Query/Sort.antt =====
-- odm/query.go: OrderBy, Latest, Oldest, Limit and Skip.
use chandlery.Base.{zero, suc, String, Bool, true, false, List, [], ◌∷◌, ◌++◌, if◌then◌else◌}
use chandlery.Base.Int.{ℤ, pos, negsuc, is_neg}
use chandlery.Odm.Value.{int}
use chandlery.Odm.Errors.{bad_direction, negative}
use chandlery.Odm.Query.{Query, invalid}

-- Asc and Desc.
abbrev pub asc : ℤ
asc = pos 1

abbrev pub desc : ℤ
desc = negsuc 0

abbrev pub is_direction : ℤ → Bool
is_direction (pos n) = elim n [ zero ↦ false | suc m ↦ elim m [ zero ↦ true | suc k ↦ false ] ]
is_direction (negsuc n) = elim n [ zero ↦ true | suc m ↦ false ]

unfoldable pub order_by : Query → String → ℤ → Query
order_by q f direction =
    if is_direction direction
    then record q { sorts = q.sorts ++ (f, int direction) ∷ [] }
    else invalid q (bad_direction f)

unfoldable pub order_by_loop : ℤ → Query → List String → Query
order_by_loop direction q [] = q
order_by_loop direction q (f ∷ fs) = order_by_loop direction (order_by q f direction) fs

unfoldable pub order_by_each : ℤ → Query → List String → Query
order_by_each direction q [] = order_by q "created_at" direction
order_by_each direction q (f ∷ fs) = order_by_loop direction q (f ∷ fs)

unfoldable pub latest : Query → List String → Query
latest q fs = order_by_each desc q fs

unfoldable pub oldest : Query → List String → Query
oldest q fs = order_by_each asc q fs

unfoldable pub limit : Query → ℤ → Query
limit q n = if is_neg n then invalid q (negative n) else record q { limit = n; has_limit = true }

unfoldable pub skip : Query → ℤ → Query
skip q n = if is_neg n then invalid q (negative n) else record q { skip = n; has_skip = true }
