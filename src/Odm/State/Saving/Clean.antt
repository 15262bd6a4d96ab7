-- ===== src/Odm/State/Saving/Clean.antt =====
-- odm/state.go: what Save leaves is not dirty.
use chandlery.Base.{
  ℕ, String, ◌≡◌, refl, Bool, true, false, ◌&&◌, Option, none, some, [], ◌∷◌, arith, str_eq_iff,
  Bool-cases, inl, inr, All,
}
use chandlery.Base.Assoc.{Assoc, lookup}
use chandlery.Base.Text.{eq_refl}
use chandlery.Odm.Value.{Value}
use chandlery.Odm.Errors.{Error, Result, ok, err}
use chandlery.Odm.State.{
  RawValue, Raw, Changeset, no_changes, same_raw_value, set_loop, unset_loop, diff, touches,
  is_empty, changes_of, is_dirty,
}
use chandlery.Odm.State.Changes.{IsKeyed}
use chandlery.Odm.State.Saving.{
  Backend, Model, Outcome, after_event, after_write, snapshot, finished, record_write,
  written_changes, notify_updated, resnapshot, notify_updating, flush_changes, update_of, send,
  stamped, flushed, update_dirty, update,
}

-- Every element of es is what a lookup in the document finds.
abbrev Within : Raw → Raw → Type 0
Within o es = All (λ e. lookup e.0 o ≡ some e.1) es

Within-cons :
    (k : String) (v : RawValue) (o es : Raw)
    → lookup k o ≡ none
    → Within o es
    → Within ((k, v) ∷ o) es
unfolding lookup
Within-cons k v o [] h w = tt
Within-cons k v o ((j, u) ∷ es) h w =
    (ground (arith, h, w.0, str_eq_iff k j), Within-cons k v o es h w.1)

IsKeyed-Within : (es : Raw) → IsKeyed es → Within es es
unfolding lookup
IsKeyed-Within [] k = tt
IsKeyed-Within ((j, u) ∷ es) k =
    (ground (arith, str_eq_iff j j), Within-cons j u es es k.0 (IsKeyed-Within es k.1))

same_raw_value_refl : (v : RawValue) → same_raw_value v v ≡ true
unfolding same_raw_value
same_raw_value_refl v = ground (arith, eq_refl v.content)

set_loop-Within :
    (decode : RawValue → Result Value) (o es : Raw) (set : Assoc Value)
    → Within o es
    → set_loop decode o set es ≡ ok set
unfolding set_loop
set_loop-Within decode o [] set w = refl
set_loop-Within decode o ((k, v) ∷ es) set w =
    ground (arith, w.0, same_raw_value_refl v, set_loop-Within decode o es set w.1)

unset_loop-Within : (c es : Raw) → Within c es → unset_loop c es ≡ []
unfolding unset_loop
unset_loop-Within c [] w = refl
unset_loop-Within c ((k, v) ∷ es) w = ground (arith, w.0, unset_loop-Within c es w.1)

diff_same :
    (decode : RawValue → Result Value) (raw : Raw)
    → IsKeyed raw
    → diff decode (some raw) (some raw) ≡ ok no_changes
unfolding diff
diff_same decode raw k =
    let w = IsKeyed-Within raw k in
    rw (set_loop-Within decode raw raw [] w, unset_loop-Within raw raw w)

module _ (b : Backend)
    (keyed : (fs : b.Fields) (raw : Raw) → b.marshal fs ≡ ok raw → IsKeyed raw) where
  abbrev pub dirty : Model b.Fields → Result Bool
  dirty m = is_dirty b.decode m.state (b.marshal m.own) []

  -- What succeeds leaves a model that is not dirty.
  abbrev LeavesClean : Outcome b → Type 0
  LeavesClean o = o.1 ≡ none → dirty o.0.1 ≡ ok false

  after_event-LeavesClean :
      (r : Outcome b) (rest : b.World → Model b.Fields → Outcome b)
      → ((w : b.World) (m : Model b.Fields) → LeavesClean (rest w m))
      → LeavesClean (after_event b r rest)
  after_event-LeavesClean ((w, m), some e) rest h p = cc
  after_event-LeavesClean ((w, m), none) rest h p = h w m p

  after_write-LeavesClean :
      (m : Model b.Fields) (r : b.World × Option Error) (rest : b.World → Outcome b)
      → ((w : b.World) → LeavesClean (rest w))
      → LeavesClean (after_write b m r rest)
  after_write-LeavesClean m (w, some e) rest h p = cc
  after_write-LeavesClean m (w, none) rest h p = h w p

  snapshot-LeavesClean :
      (w : b.World) (m : Model b.Fields) (r : Result Raw)
      → b.marshal m.own ≡ r
      → LeavesClean (snapshot b w m r (finished b))
  unfolding is_dirty changes_of touches
  snapshot-LeavesClean w m (err e) q p = cc
  snapshot-LeavesClean w m (ok raw) q p = rw (q, diff_same b.decode raw (keyed m.own raw q)) refl

  written_changes-LeavesClean :
      (w : b.World) (m : Model b.Fields) (c : Changeset) → LeavesClean (written_changes b w m c)
  unfolding written_changes
  written_changes-LeavesClean w m c =
      let m' = record_write b c m in
      after_event-LeavesClean (b.after_update m' w) (notify_updated b) (λ w m.
        after_event-LeavesClean (b.updated m w) (resnapshot b)
          (λ w m. snapshot-LeavesClean w m (b.marshal m.own) refl))

  send-LeavesClean :
      (w : b.World) (p : Model b.Fields × Changeset) (id : Option RawValue)
      → LeavesClean (send b w p id)
  send-LeavesClean w (m, c) none = λ h. cc
  send-LeavesClean w (m, c) (some id) =
      after_write-LeavesClean m (b.update_one id (update_of b c) w) (λ w. written_changes b w m c)
        (λ w. written_changes-LeavesClean w m c)

  flushed-LeavesClean :
      (now : ℕ) (w : b.World) (m : Model b.Fields) (r : Result (Raw × Changeset))
      → changes_of b.decode m.state (b.marshal m.own) ≡ r
      → LeavesClean (flushed b now w m r)
  unfolding is_dirty touches
  flushed-LeavesClean now w m (err e) q = λ p. cc
  flushed-LeavesClean now w m (ok (current, c)) q =
      elim (Bool-cases (is_empty c.set && is_empty c.unset)) [
        | inl e ↦ rw (e, LeavesClean) (λ p. rw q (ground (arith, e)))
        | inr e ↦
            rw (e, LeavesClean) (send-LeavesClean w (stamped b now (m, c)) (lookup "_id" current))
      ]

  update_dirty-LeavesClean :
      (now : ℕ) (w : b.World) (m : Model b.Fields) (r : Result Bool)
      → dirty m ≡ r
      → LeavesClean (update_dirty b now w m r)
  update_dirty-LeavesClean now w m (err e) q = λ p. cc
  update_dirty-LeavesClean now w m (ok false) q = λ p. q
  update_dirty-LeavesClean now w m (ok true) q =
      after_event-LeavesClean (b.before_update m w) (notify_updating b now) (λ w m.
        after_event-LeavesClean (b.updating m w) (flush_changes b now)
          (λ w m. flushed-LeavesClean now w m (changes_of b.decode m.state (b.marshal m.own)) refl))

  -- When the update of Save succeeds, IsDirty says no of the model that it leaves, whatever the hooks
  -- and the observers wrote to it; the fields that the model marshals to are distinct.
  pub dirty-update :
      (now : ℕ) (w : b.World) (m : Model b.Fields)
      → (update b now w m).1 ≡ none
      → dirty (update b now w m).0.1 ≡ ok false
  unfolding update
  dirty-update now w m h = update_dirty-LeavesClean now w m _ refl h
