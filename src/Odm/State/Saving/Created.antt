-- ===== src/Odm/State/Saving/Created.antt =====
-- odm/collection.go: what Create leaves of a model.
use chandlery.Base.{sym, ap, subst, ◌∙◌, ℕ, ◌≡◌, refl, true, false, Option, none, some, []}
use chandlery.Odm.Errors.{Error, Result, ok, err}
use chandlery.Odm.State.{Raw, ModelState, no_changes, was_changed, touches}
use chandlery.Odm.State.Saving.{
  Backend, Model, Outcome, after_event, after_write, snapshot, finished, record_write, inserted,
  written_fields, run_after_create, notify_created, notify_creating, insert_prepared, insert_model,
}

module _ (b : Backend) where
  -- The database has the model, and nothing of it was changed by the write.
  abbrev pub IsCreated : ModelState → Type 0
  IsCreated s = (s.exists ≡ true) × (was_changed s [] ≡ false)

  -- What succeeds leaves such a model.
  abbrev LeavesCreated : Outcome b → Type 0
  LeavesCreated o = o.1 ≡ none → IsCreated o.0.1.state

  kept_by_event :
      (r : Outcome b) (rest : b.World → Model b.Fields → Outcome b)
      → ((w : b.World) (m : Model b.Fields) → r ≡ ((w, m), none) → LeavesCreated (rest w m))
      → LeavesCreated (after_event b r rest)
  kept_by_event ((w, m), some e) rest h = λ p. cc
  kept_by_event ((w, m), none) rest h = h w m refl

  kept_by_write :
      (m : Model b.Fields) (r : b.World × Option Error) (rest : b.World → Outcome b)
      → ((w : b.World) → LeavesCreated (rest w))
      → LeavesCreated (after_write b m r rest)
  kept_by_write m (w, some e) rest h = λ p. cc
  kept_by_write m (w, none) rest h = h w

  -- The event leaves the model's state as it is.
  abbrev pub KeepsState : (Model b.Fields → b.World → Outcome b) → Type 0
  KeepsState f = (m : Model b.Fields) (w : b.World) → (f m w).0.1.state ≡ m.state

  module _ (after_create : KeepsState b.after_create) (created : KeepsState b.created) where
    kept_state :
        (f : Model b.Fields → b.World → Outcome b)
        → KeepsState f
        → (m m' : Model b.Fields) (w w' : b.World) → f m w ≡ ((w', m'), none)
        → IsCreated m.state
        → IsCreated m'.state
    kept_state f k m m' w w' e c = subst IsCreated (sym (k m w) ∙ ap (λ o. o.0.1.state) e) c

    hooks-LeavesCreated :
        (w : b.World) (m : Model b.Fields)
        → IsCreated m.state
        → LeavesCreated (run_after_create b w m)
    hooks-LeavesCreated w m c = kept_by_event (b.after_create m w) (notify_created b) (λ w' m' e.
        kept_by_event (b.created m' w') (finished b) (λ v n i p.
          kept_state b.created created m' n w' v i
            (kept_state b.after_create after_create m m' w w' e c)))

    snapshot-LeavesCreated :
        (w : b.World) (m : Model b.Fields) (r : Result Raw)
        → was_changed m.state [] ≡ false
        → LeavesCreated (snapshot b w m r (run_after_create b))
    unfolding was_changed
    snapshot-LeavesCreated w m (err e) c = λ p. cc
    snapshot-LeavesCreated w m (ok raw) c = hooks-LeavesCreated w _ (refl, c)

    -- When the insert of Create, or of Save, succeeds, the model is one that the database has, so that
    -- a later Save updates it, and WasChanged says no, whatever BeforeCreate and the Creating
    -- observers did, as long as AfterCreate and the Created observers leave the state that the package
    -- keeps as it is.
    pub insert_model-IsCreated :
        (now : ℕ) (w : b.World) (m : Model b.Fields)
        → (insert_model b now w m).1 ≡ none
        → IsCreated (insert_model b now w m).0.1.state
    unfolding insert_model inserted was_changed touches
    insert_model-IsCreated now w m =
        kept_by_event (b.before_create m w) (notify_creating b now) (λ w m e.
          kept_by_event (b.creating m w) (insert_prepared b now) (λ w m e.
            let m' = written_fields b (b.prepare now m.own) m in
            kept_by_write m' (b.insert_one m'.own w) (λ w. inserted b w m')
              (λ w.
                snapshot-LeavesCreated w (record_write b no_changes m') (b.marshal m'.own) refl)))
