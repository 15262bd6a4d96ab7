-- ===== src/Odm/Bulk/Single.antt =====
-- odm/bulk.go: CreateMany of one model against Create.
use chandlery.Base.{◌≡◌, Option, none, some, List, [], ◌∷◌}
use chandlery.Odm.State.{no_changes}
use chandlery.Odm.State.Saving.{Backend, Model, Outcome}
use chandlery.Odm.Bulk.{Batch, followed}

module _ (b : Backend) where
  open b use {World, Fields}

  -- All of a model but what WasChanged reads.
  abbrev pub forget : Model Fields → Model Fields
  forget m = record m { state = record m.state { written = no_changes } }

  abbrev pub forget_outcome : Outcome b → Outcome b
  forget_outcome ((w, m), e) = ((w, forget m), e)

  -- A batch of the model of one outcome.
  abbrev pub as_batch : Outcome b → Batch b
  as_batch ((w, m), e) = ((w, some m ∷ []), e)

  abbrev pub forget_one : Option (Model Fields) → Option (Model Fields)
  forget_one none = none
  forget_one (some m) = some (forget m)

  abbrev pub forget_all : List (Option (Model Fields)) → List (Option (Model Fields))
  forget_all [] = []
  forget_all (m ∷ ms) = forget_one m ∷ forget_all ms

  abbrev pub forget_batch : Batch b → Batch b
  forget_batch ((w, ms), e) = ((w, forget_all ms), e)

  -- An event or a step that is blind to what WasChanged reads: it does the same without.
  abbrev pub IsBlind : (World → Model Fields → Outcome b) → Type 0
  IsBlind f =
      (w : World) (m : Model Fields) → forget_outcome (f w (forget m)) ≡ forget_outcome (f w m)

  abbrev alone : Outcome b → Batch b
  alone o = followed b o [] (λ w. ((w, []), none))

  -- A batch of one, and the outcome of Create, that differ in nothing but what WasChanged reads.
  abbrev Same : Batch b → Outcome b → Type 0
  Same r o = forget_batch r ≡ as_batch (forget_outcome o)
