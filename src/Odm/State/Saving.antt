-- ===== src/Odm/State/Saving.antt =====
-- odm/collection.go and state.go: Create and Save. The model's hooks, the observers, the codec and the
-- driver are parameters.
pub mod Clean
pub mod Created
use chandlery.Base.{
  ℕ, String, Bool, true, false, not, ◌&&◌, ◌||◌, Option, none, some, List, [], ◌∷◌, ◌++◌, str_eq,
  if◌then◌else◌,
}
use chandlery.Base.Assoc.{Assoc, lookup, insert}
use chandlery.Odm.Value.{Value, text, time}
use chandlery.Odm.Errors.{Error, driver, nil_model, Result, ok, err, ◌>>=◌}
use chandlery.Odm.State.{
  RawValue, Raw, Changeset, ModelState, no_changes, changes_of, is_dirty, is_empty,
}

-- A model: the caller's fields, and the unexported state that the package keeps in it.
pub record Model (Fields : Type 0) : Type 0 where
  pub own : Fields
  pub state : ModelState

-- The server and the observers' own state are one `World`. An event runs the model's hook and then
-- the observers, in order, and stops at the first error; it is given the model itself, whose
-- state it can reach too, as by saving it.
pub record Backend : Type 1 where
  pub World : Type 0
  pub Fields : Type 0
  pub marshal : Fields → Result Raw
  pub decode : RawValue → Result Value
  pub before_create : Model Fields → World → (World × Model Fields) × Option Error
  pub creating : Model Fields → World → (World × Model Fields) × Option Error
  pub after_create : Model Fields → World → (World × Model Fields) × Option Error
  pub created : Model Fields → World → (World × Model Fields) × Option Error
  pub before_update : Model Fields → World → (World × Model Fields) × Option Error
  pub updating : Model Fields → World → (World × Model Fields) × Option Error
  pub after_update : Model Fields → World → (World × Model Fields) × Option Error
  pub updated : Model Fields → World → (World × Model Fields) × Option Error
  -- prepareForInsert and touchUpdatedAt, with the clock's reading; `is_timestamped` of Model alone
  pub prepare : ℕ → Fields → Fields
  pub is_timestamped : Bool
  pub touch : ℕ → Fields → Fields
  -- the driver's calls, with the error that classify makes of theirs
  pub insert_one : Fields → World → World × Option Error
  pub update_one : RawValue → List (String × Assoc Value) → World → World × Option Error

module _ (b : Backend) where
  open b use {World, Fields}

  -- What a call leaves: the world, the model, and its error.
  abbrev pub Outcome : Type 0
  Outcome = (World × Model Fields) × Option Error

  abbrev pub written_fields : Fields → Model Fields → Model Fields
  written_fields fs m = record m { own = fs }

  -- An event, and what comes after it if it succeeds.
  abbrev pub after_event : Outcome → (World → Model Fields → Outcome) → Outcome
  after_event ((w, m), some e) rest = ((w, m), some e)
  after_event ((w, m), none) rest = rest w m

  abbrev pub after_write : Model Fields → World × Option Error → (World → Outcome) → Outcome
  after_write m (w, some e) rest = ((w, m), some e)
  after_write m (w, none) rest = rest w

  -- The snapshot; `rest` is what follows.
  abbrev pub snapshot :
      World → Model Fields → Result Raw → (World → Model Fields → Outcome) → Outcome
  snapshot w m (err e) rest = ((w, m), some e)
  snapshot w m (ok raw) rest =
      rest w (record m { state = record m.state { exists = true; original = raw } })

  abbrev pub record_write : Changeset → Model Fields → Model Fields
  record_write c m = record m { state = record m.state { written = c } }

  abbrev pub finished : World → Model Fields → Outcome
  finished w m = ((w, m), none)

  abbrev pub notify_created : World → Model Fields → Outcome
  notify_created w m = after_event (b.created m w) finished

  abbrev pub run_after_create : World → Model Fields → Outcome
  run_after_create w m = after_event (b.after_create m w) notify_created

  -- Once the document is in.
  unfoldable pub inserted : World → Model Fields → Outcome
  inserted w m =
      let m' = record_write no_changes m in snapshot w m' (b.marshal m'.own) run_after_create

  abbrev pub insert_prepared : ℕ → World → Model Fields → Outcome
  insert_prepared now w m =
      let m' = written_fields (b.prepare now m.own) m in
      after_write m' (b.insert_one m'.own w) (λ w. inserted w m')

  abbrev pub notify_creating : ℕ → World → Model Fields → Outcome
  notify_creating now w m = after_event (b.creating m w) (insert_prepared now)

  unfoldable pub insert_model : ℕ → World → Model Fields → Outcome
  insert_model now w m = after_event (b.before_create m w) (notify_creating now)

  -- `none` is a nil pointer.
  unfoldable pub create :
      ℕ → World → Option (Model Fields) → World × Option (Model Fields) × Option Error
  create now w none = (w, none, some nil_model)
  create now w (some m) = let ((w', m'), e) = insert_model now w m in (w', some m', e)

  abbrev pub unsets : List String → Assoc Value
  unsets [] = []
  unsets (f ∷ fs) = (f, text "") ∷ unsets fs

  abbrev pub entry : String → Assoc Value → List (String × Assoc Value)
  entry operator [] = []
  entry operator (e ∷ es) = (operator, e ∷ es) ∷ []

  abbrev pub update_of : Changeset → List (String × Assoc Value)
  update_of c = entry "$set" c.set ++ entry "$unset" (unsets c.unset)

  -- updated_at goes to the model and to the changes.
  abbrev pub stamped : ℕ → Model Fields × Changeset → Model Fields × Changeset
  stamped now (m, c) =
      if b.is_timestamped
      then (
        written_fields (b.touch now m.own) m,
        record c { set = insert "updated_at" (time now) c.set },
      )
      else (m, c)

  -- The last steps of update, each with what follows it.
  abbrev pub resnapshot : World → Model Fields → Outcome
  resnapshot w m = snapshot w m (b.marshal m.own) finished

  abbrev pub notify_updated : World → Model Fields → Outcome
  notify_updated w m = after_event (b.updated m w) resnapshot

  unfoldable pub written_changes : World → Model Fields → Changeset → Outcome
  written_changes w m c =
      let m' = record_write c m in after_event (b.after_update m' w) notify_updated

  -- The write, for the _id of the model as it was marshalled.
  abbrev pub send : World → Model Fields × Changeset → Option RawValue → Outcome
  send w (m, c) none = ((w, m), some (driver 2))
  send w (m, c) (some id) =
      after_write m (b.update_one id (update_of c) w) (λ w. written_changes w m c)

  -- The changes as they are once the hook and the observers have run.
  abbrev pub flushed : ℕ → World → Model Fields → Result (Raw × Changeset) → Outcome
  flushed now w m (err e) = ((w, m), some e)
  flushed now w m (ok (current, c)) =
      if is_empty c.set && is_empty c.unset
      then finished w m
      else send w (stamped now (m, c)) (lookup "_id" current)

  abbrev pub flush_changes : ℕ → World → Model Fields → Outcome
  flush_changes now w m = flushed now w m (changes_of b.decode m.state (b.marshal m.own))

  abbrev pub notify_updating : ℕ → World → Model Fields → Outcome
  notify_updating now w m = after_event (b.updating m w) (flush_changes now)

  abbrev pub update_dirty : ℕ → World → Model Fields → Result Bool → Outcome
  update_dirty now w m (err e) = ((w, m), some e)
  update_dirty now w m (ok false) = finished w m
  update_dirty now w m (ok true) = after_event (b.before_update m w) (notify_updating now)

  unfoldable pub update : ℕ → World → Model Fields → Outcome
  update now w m = update_dirty now w m (is_dirty b.decode m.state (b.marshal m.own) [])

  unfoldable pub save_model : ℕ → World → Model Fields → Outcome
  save_model now w m = if m.state.exists then update now w m else insert_model now w m

  unfoldable pub save :
      ℕ → World → Option (Model Fields) → World × Option (Model Fields) × Option Error
  save now w none = (w, none, some nil_model)
  save now w (some m) = let ((w', m'), e) = save_model now w m in (w', some m', e)
