-- ===== src/Odm/Bulk.antt =====
-- odm/bulk.go: CreateMany and BulkWrite. The models are distinct pointers, `none` a nil one; the
-- clock's readings are a function of how many models came before.
pub mod Single
use chandlery.Base.{ℕ, zero, suc, Option, none, some, List, [], ◌∷◌}
use chandlery.Odm.Errors.{Error, nil_model}
use chandlery.Odm.State.Saving.{
  Backend, Model, Outcome, after_event, snapshot, finished, written_fields, run_after_create,
}

module _ (b : Backend) where
  open b use {World, Fields}

  -- What is left of the models, beside the world and the error.
  abbrev pub Batch : Type 0
  Batch = (World × List (Option (Model Fields))) × Option Error

  -- The other models after one: not reached when it fails.
  abbrev pub followed : Outcome b → List (Option (Model Fields)) → (World → Batch) → Batch
  followed ((w, m), some e) ms rest = ((w, some m ∷ ms), some e)
  followed ((w, m), none) ms rest =
      let others = rest w in ((others.0.0, some m ∷ others.0.1), others.1)

  abbrev pub prepared : ℕ → World → Model Fields → Outcome b
  prepared now w m = finished b w (written_fields b (b.prepare now m.own) m)

  abbrev pub creating_then_prepared : ℕ → World → Model Fields → Outcome b
  creating_then_prepared now w m = after_event b (b.creating m w) (prepared now)

  -- The first loop's body.
  abbrev pub prepare_one : ℕ → World → Model Fields → Outcome b
  prepare_one now w m = after_event b (b.before_create m w) (creating_then_prepared now)

  unfoldable pub prepare_all : (ℕ → ℕ) → ℕ → List (Option (Model Fields)) → World → Batch
  prepare_all clock i [] w = ((w, []), none)
  prepare_all clock i (none ∷ ms) w = ((w, none ∷ ms), some nil_model)
  prepare_all clock i (some m ∷ ms) w =
      followed (prepare_one (clock i) w m) ms (prepare_all clock (suc i) ms)

  abbrev pub documents : List (Option (Model Fields)) → List Fields
  documents [] = []
  documents (none ∷ ms) = documents ms
  documents (some m ∷ ms) = m.own ∷ documents ms

  -- The second loop's body.
  abbrev pub finish_one : World → Model Fields → Outcome b
  finish_one w m = snapshot b w m (b.marshal m.own) (run_after_create b)

  unfoldable pub finish_all : List (Option (Model Fields)) → World → Batch
  finish_all [] w = ((w, []), none)
  finish_all (none ∷ ms) w = ((w, none ∷ ms), some nil_model)
  finish_all (some m ∷ ms) w = followed (finish_one w m) ms (finish_all ms)

  -- InsertMany, with the error that classify makes of the driver's.
  module _ (insert_many : List Fields → World → World × Option Error) where
    abbrev pub sent : List (Option (Model Fields)) → World × Option Error → Batch
    sent ms (w, some e) = ((w, ms), some e)
    sent ms (w, none) = finish_all ms w

    abbrev pub insert_all : Batch → Batch
    insert_all ((w, ms), some e) = ((w, ms), some e)
    insert_all ((w, ms), none) = sent ms (insert_many (documents ms) w)

    unfoldable pub create_many : (ℕ → ℕ) → List (Option (Model Fields)) → World → Batch
    create_many clock [] w = ((w, []), none)
    create_many clock (m ∷ ms) w = insert_all (prepare_all clock 0 (m ∷ ms) w)
