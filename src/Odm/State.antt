-- ===== src/Odm/State.antt =====
-- odm/state.go: what changed between the document that was read or written last and the model now.
pub mod Changes
pub mod Saving
pub mod Events
use chandlery.Base.{
  ℕ, String, Bool, true, false, not, ◌&&◌, ◌||◌, Option, none, some, List, [], ◌∷◌, ◌++◌, ◌==◌,
  str_eq, if◌then◌else◌,
}
use chandlery.Base.Assoc.{Assoc, lookup, insert}
use chandlery.Base.Text.{Text, eq}
use chandlery.Odm.Value.{Value}
use chandlery.Odm.Errors.{Error, driver, Result, ok, err, ◌>>=◌}

-- bson.RawValue: its type and its bytes.
pub record RawValue : Type 0 where
  pub kind : ℕ
  pub content : Text

-- The elements of a bson.Raw, in order.
abbrev pub Raw : Type 0
Raw = List (String × RawValue)

pub record Changeset : Type 0 where
  pub set : Assoc Value
  pub unset : List String

-- modelState; `original` counts only where `exists`.
pub record ModelState : Type 0 where
  pub exists : Bool
  pub original : Raw
  pub written : Changeset

abbrev pub no_changes : Changeset
no_changes = record { set = []; unset = [] }

unfoldable pub same_raw_value : RawValue → RawValue → Bool
same_raw_value a b = a.kind == b.kind && eq a.content b.content

-- The field is in the snapshot, with the same type and bytes.
abbrev pub unchanged : Option RawValue → RawValue → Bool
unchanged none v = false
unchanged (some was) v = same_raw_value was v

abbrev pub is_absent : Option RawValue → Bool
is_absent none = true
is_absent (some v) = false

-- The loop over the fields of the model; `decode` is RawValue.Unmarshal.
unfoldable pub set_loop : (RawValue → Result Value) → Raw → Assoc Value → Raw → Result (Assoc Value)
set_loop decode original set [] = ok set
set_loop decode original set ((k, v) ∷ es) =
    let skipped = set_loop decode original set es in
    let changed = (do d ← decode v; set_loop decode original (insert k d set) es) in
    if str_eq k "_id" || unchanged (lookup k original) v then skipped else changed

-- The loop over the fields of the snapshot.
unfoldable pub unset_loop : Raw → Raw → List String
unset_loop current [] = []
unset_loop current ((k, v) ∷ es) =
    let rest = unset_loop current es in
    if not (str_eq k "_id") && is_absent (lookup k current) then k ∷ rest else rest

-- The error of bytes that are no document.
abbrev pub elements_of : Option Raw → Result Raw
elements_of none = err (driver 1)
elements_of (some raw) = ok raw

unfoldable pub diff : (RawValue → Result Value) → Option Raw → Option Raw → Result Changeset
diff decode original current = do
  now ← elements_of current
  was ← elements_of original
  set ← set_loop decode was [] now
  ok (record { set = set; unset = unset_loop now was })

-- A field is in the set or among the removed.
unfoldable pub member : String → List String → Bool
member f [] = false
member f (g ∷ gs) = let rest = member f gs in if str_eq g f then true else rest

abbrev pub is_set : Option Value → Bool
is_set none = false
is_set (some v) = true

unfoldable pub touches_loop : Changeset → List String → Bool
touches_loop c [] = false
touches_loop c (f ∷ fs) =
    let rest = touches_loop c fs in
    if is_set (lookup f c.set) || member f c.unset then true else rest

abbrev pub is_empty {ℓ} : {A : Type ℓ} → List A → Bool
is_empty [] = true
is_empty (x ∷ xs) = false

-- touches; with no field named, whether there is any change.
unfoldable pub touches : Changeset → List String → Bool
touches c [] = not (is_empty c.set) || not (is_empty c.unset)
touches c (f ∷ fs) = touches_loop c (f ∷ fs)

-- WasChanged, IsPersisted and Original, of a model that is stateful.
unfoldable pub was_changed : ModelState → List String → Bool
was_changed state fs = touches state.written fs

unfoldable pub original_of : ModelState → String → Option RawValue
original_of state f = let found = lookup f state.original in if state.exists then found else none

-- changesOf; `marshalled` is what bson.Marshal makes of the model.
unfoldable pub changes_of :
    (RawValue → Result Value) → ModelState → Result Raw → Result (Raw × Changeset)
changes_of decode state marshalled =
    let compared = (do
      now ← marshalled
      c ← diff decode (some state.original) (some now)
      ok (now, c)) in
    if state.exists then compared else ok ([], no_changes)

unfoldable pub is_dirty :
    (RawValue → Result Value) → ModelState → Result Raw → List String → Result Bool
is_dirty decode state marshalled fs = do c ← changes_of decode state marshalled; ok (touches c.1 fs)
