-- ===== src/Tests/State.antt =====
-- The theorems on odm's change tracking at concrete inputs.
use chandlery.Base.{ℕ, ◌≡◌, refl, ap, subst, true, false, Option, none, some, List, [], ◌∷◌}
use chandlery.Base.Int.{pos}
use chandlery.Base.Text
use chandlery.Base.Assoc.{Assoc, lookup, insert, remove}
use chandlery.Odm.Value.{Value, int}
use chandlery.Odm.Errors.{Error, Result, ok, err}
use chandlery.Odm.State
use chandlery.Odm.State.{RawValue, Raw, Changeset, ModelState, no_changes, diff}
use chandlery.Odm.State.Changes.{IsKeyed, applied, decoded, diff-applied}
use chandlery.Odm.State.Saving
use chandlery.Odm.Observer.{Observer, event_creating, observe, observers_for, notify_loop, notify}
use chandlery.Odm.Observer.Chained.{notify-observe}
use chandlery.Odm.State.Saving.{Backend, Model, insert_model, update}
use chandlery.Odm.State.Saving.Created.{IsCreated, insert_model-IsCreated}
use chandlery.Odm.State.Saving.Clean.{dirty, dirty-update}

abbrev raw : ℕ → RawValue
raw n = record { kind = 16; content = n ∷ [] }

abbrev decode : RawValue → Result Value
decode v = elim v.content [ [] ↦ err (Error.driver 0) | n ∷ ns ↦ ok (int (pos n)) ]

abbrev before : Raw
before = ("_id", raw 1) ∷ ("name", raw 2) ∷ ("note", raw 3) ∷ []

abbrev after : Raw
after = ("_id", raw 1) ∷ ("name", raw 4) ∷ ("age", raw 5) ∷ []

abbrev changes : Changeset
changes = record { set = ("age", int (pos 5)) ∷ ("name", int (pos 4)) ∷ []; unset = "note" ∷ [] }

found : diff decode (some before) (some after) ≡ ok changes
unfolding diff State.set_loop State.unset_loop State.same_raw_value lookup insert remove Text.eq
found = refl

diff-applied_example : applied decode changes before "note" ≡ decoded decode (lookup "note" after)
unfolding lookup
diff-applied_example =
    diff-applied decode before after changes "note" (refl, (refl, (refl, tt))) refl found

-- A model of one number, and a server that counts its writes.
abbrev backend : Backend
backend = record {
  World = ℕ;
  Fields = ℕ;
  marshal = λ n. ok (("_id", raw 1) ∷ ("name", raw n) ∷ []);
  decode = decode;
  before_create = λ n w. ((w, n), none);
  creating = λ n w. ((w, n), none);
  after_create = λ n w. ((w, n), none);
  created = λ n w. ((w, n), none);
  before_update = λ n w. ((w, n), none);
  updating = λ n w. ((w, n), none);
  after_update = λ m w. ((w, record m { own = 9 }), none);
  updated = λ n w. ((w, n), none);
  prepare = λ now n. n;
  is_timestamped = false;
  touch = λ now n. n;
  insert_one = λ n w. (ℕ.suc w, none);
  update_one = λ id u w. (ℕ.suc w, none);
}

abbrev model : Model ℕ
model = record {
  own = 7;
  state = record {
    exists = true;
    original = ("_id", raw 1) ∷ ("name", raw 2) ∷ [];
    written = no_changes;
  };
}

abbrev raw_or : Result Raw → Raw → Raw
raw_or (ok r) other = r
raw_or (err e) other = other

keyed : (n : ℕ) (r : Raw) → backend.marshal n ≡ ok r → IsKeyed r
unfolding lookup
keyed n r h = subst IsKeyed (ap (λ x. raw_or x r) h) (refl, (refl, tt))

succeeds : (update backend 0 0 model).1 ≡ none
unfolding update State.is_dirty State.changes_of State.touches diff State.set_loop State.unset_loop
    State.same_raw_value lookup insert remove Saving.written_changes Text.eq
succeeds = refl

dirty-update_example : dirty backend keyed (update backend 0 0 model).0.1 ≡ ok false
dirty-update_example = dirty-update backend keyed 0 0 model succeeds

inserts : (insert_model backend 0 0 model).1 ≡ none
unfolding insert_model Saving.inserted
inserts = refl

insert_model-IsCreated_example : IsCreated backend (insert_model backend 0 0 model).0.1.state
insert_model-IsCreated_example =
    insert_model-IsCreated backend (λ m w. refl) (λ m w. refl) 0 0 model inserts

-- InsertMany of one document as InsertOne; the tests insert no more.
abbrev insert_many : List ℕ → ℕ → ℕ × Option Error
insert_many (f ∷ []) w = backend.insert_one f w
insert_many fs w = (w, none)

-- An observer of Creating alone, which sets the model's number and counts.
abbrev setting : ℕ → Observer ℕ ℕ
setting n = record {
  creating = some (λ m w. ((ℕ.suc w, n), none));
  created = none;
  updating = none;
  updated = none;
}

abbrev registry : List (Observer ℕ ℕ) → Assoc (List (Observer ℕ ℕ))
registry os = ("user", os) ∷ []

observed :
    observe "user" (setting 5 ∷ []) (registry (setting 4 ∷ []))
    ≡ some (registry (setting 4 ∷ setting 5 ∷ []))
unfolding observe insert lookup remove
observed = refl

notify-observe_example :
    notify "user" event_creating (registry (setting 4 ∷ setting 5 ∷ [])) 1 0 ≡ ((2, 5), none)
unfolding notify notify_loop observers_for lookup
notify-observe_example =
    notify-observe "user" (setting 5 ∷ []) (registry (setting 4 ∷ [])) _ observed "user"
      event_creating 1 0
