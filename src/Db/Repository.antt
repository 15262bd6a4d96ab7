-- ===== src/Db/Repository.antt =====
-- db/repository.go: the repository of a type T, which is a struct or a pointer to one. What bun does
-- with a query, and with the row that it is given the address of, is a parameter.
pub mod Rows
use chandlery.Base.{
  ℕ, Bool, true, false, Option, none, some, List, [], ◌∷◌, ◌==◌, suc, if◌then◌else◌,
}
use chandlery.Db.Model.{Error, not_a_struct, bun_error}

pub record Bun (Row : Type 0) : Type 1 where
  pub World : Type 0
  pub Select : Type 0
  pub UpdateQuery : Type 0
  pub Values : Type 0
  -- NewSelect, with a model of T's rows
  pub new_select : Select
  -- NewUpdate, with the values and the name of T's table
  pub update_of : Values → UpdateQuery
  pub scan : Select → Row → World → World × (Row × Option ℕ)
  pub scan_all : Select → World → World × (List Row × Option ℕ)
  pub count : Select → World → World × (ℕ × Option ℕ)
  pub exists : Select → World → World × (Bool × Option ℕ)
  pub exec : UpdateQuery → World → World × Option ℕ
  -- `none` is a nil pointer; what the hooks leave of the row is in the answer
  pub insert : Option Row → World → World × (Option Row × Option ℕ)
  -- with WherePK
  pub update_by_key : Option Row → World → World × (Option Row × Option ℕ)
  pub delete_by_key : Option Row → World → World × (Option Row × Option ℕ)
  pub zero_row : Row

-- What pointers point to, and the first address that is not in use.
pub record Heap (Row : Type 0) : Type 0 where
  pub rows : ℕ → Row
  pub unused : ℕ

abbrev pub assigned : {Row : Type 0} → ℕ → Row → Heap Row → Heap Row
assigned a r h = record h { rows = λ x. if x == a then r else h.rows x }

abbrev pub allocated : {Row : Type 0} → Row → Heap Row → Heap Row
allocated r h = record { rows = λ x. if x == h.unused then r else h.rows x; unused = suc h.unused }

-- A value of T: a row, or the address of one, `none` for nil.
pub data Item (Row : Type 0) : Type 0 where
  by_value : Row → Item Row
  by_address : Option ℕ → Item Row

abbrev pub error_of : Option ℕ → Option Error
error_of none = none
error_of (some e) = some (bun_error e)

module _ {Row : Type 0} (b : Bun Row) where
  -- The item that a row was read into: for a pointer, one to a new row.
  abbrev pub placed : Bool → Row → Heap Row → Heap Row × Item Row
  placed true r h = (allocated r h, by_address (some h.unused))
  placed false r h = (h, by_value r)

  abbrev pub placed_all : Bool → List Row → Heap Row → Heap Row × List (Item Row)
  placed_all is_pointer [] h = (h, [])
  placed_all is_pointer (r ∷ rs) h =
      let first = placed is_pointer r h in
      let rest = placed_all is_pointer rs first.0 in (rest.0, first.1 ∷ rest.1)

  unfoldable pub get_one :
      Bool
      → (b.Select → b.Select)
      → Heap Row
      → b.World
      → b.World × ((Heap Row × Item Row) × Option ℕ)
  get_one is_pointer query h w =
      let done = b.scan (query b.new_select) b.zero_row w in
      (done.0, (placed is_pointer done.1.0 h, done.1.1))

  unfoldable pub get_many :
      Bool
      → (b.Select → b.Select)
      → Heap Row
      → b.World
      → b.World × ((Heap Row × List (Item Row)) × Option ℕ)
  get_many is_pointer query h w =
      let done = b.scan_all (query b.new_select) w in
      (done.0, (placed_all is_pointer done.1.0 h, done.1.1))

  unfoldable pub count : (b.Select → b.Select) → b.World → b.World × (ℕ × Option ℕ)
  count query w = b.count (query b.new_select) w

  unfoldable pub exists : (b.Select → b.Select) → b.World → b.World × (Bool × Option ℕ)
  exists query w = b.exists (query b.new_select) w

  -- What a call of bun with the item's row, a struct's copy or the row pointed to, leaves of the
  -- heap: the copy is the method's own.
  abbrev pub kept : Item Row → Option Row → Heap Row → Heap Row
  kept (by_value r) left h = h
  kept (by_address none) left h = h
  kept (by_address (some a)) none h = h
  kept (by_address (some a)) (some r) h = assigned a r h

  abbrev pub model_arg : Item Row → Heap Row → Option Row
  model_arg (by_value r) h = some r
  model_arg (by_address none) h = none
  model_arg (by_address (some a)) h = some (h.rows a)

  abbrev pub written :
      (Option Row → b.World → b.World × (Option Row × Option ℕ))
      → Item Row
      → Heap Row
      → b.World
      → (Heap Row × b.World) × Option ℕ
  written run item h w =
      let done = run (model_arg item h) w in ((kept item done.1.0 h, done.0), done.1.1)

  unfoldable pub create : Item Row → Heap Row → b.World → (Heap Row × b.World) × Option ℕ
  create item h w = written b.insert item h w

  unfoldable pub update : Item Row → Heap Row → b.World → (Heap Row × b.World) × Option ℕ
  update item h w = written b.update_by_key item h w

  unfoldable pub delete : Item Row → Heap Row → b.World → (Heap Row × b.World) × Option ℕ
  delete item h w = written b.delete_by_key item h w

  -- Whether T, or what it points to, is a struct.
  unfoldable pub update_by_map :
      Bool → b.Values → (b.UpdateQuery → b.UpdateQuery) → b.World → b.World × Option Error
  update_by_map is_struct values query w =
      if is_struct
      then (let done = b.exec (query (b.update_of values)) w in (done.0, error_of done.1))
      else (w, some not_a_struct)
