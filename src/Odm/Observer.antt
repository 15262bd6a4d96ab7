-- ===== src/Odm/Observer.antt =====
-- odm/observer.go: the observers of a model. The registry is keyed by the model's type; what an
-- observer implements is known of its value, each method or nothing.
pub mod Chained
use chandlery.Base.{
  ℕ, String, Bool, true, false, ◌||◌, Option, none, some, List, [], ◌∷◌, ◌++◌, all, if◌then◌else◌,
}
use chandlery.Base.Assoc.{Assoc, lookup, insert}
use chandlery.Odm.Errors.{Error}

-- A method of an observer of one model type: it may change the model and the world.
abbrev pub Method : Type 0 → Type 0 → Type 0
Method World Fields = Fields → World → (World × Fields) × Option Error

pub record Observer (World Fields : Type 0) : Type 0 where
  pub creating : Option (Method World Fields)
  pub created : Option (Method World Fields)
  pub updating : Option (Method World Fields)
  pub updated : Option (Method World Fields)

pub data Event : Type 0 where
  event_creating event_created event_updating event_updated : Event

module _ {World Fields : Type 0} where
  abbrev implemented : Option (Method World Fields) → Bool
  implemented none = false
  implemented (some f) = true

  unfoldable pub observes_anything : Observer World Fields → Bool
  observes_anything o =
      implemented o.creating
      || implemented o.created
      || implemented o.updating
      || implemented o.updated

  abbrev pub registered : Option (List (Observer World Fields)) → List (Observer World Fields)
  registered none = []
  registered (some os) = os

  -- `none` is the panic. The key is the name of the model's type.
  unfoldable pub observe :
      String
      → List (Observer World Fields)
      → Assoc (List (Observer World Fields))
      → Option (Assoc (List (Observer World Fields)))
  unfolding observes_anything
  observe key os registry =
      if all observes_anything os
      then some (insert key (registered (lookup key registry) ++ os) registry)
      else none

  unfoldable pub observers_for :
      String → Assoc (List (Observer World Fields)) → List (Observer World Fields)
  observers_for key registry = registered (lookup key registry)

  abbrev pub method_of : Event → Observer World Fields → Option (Method World Fields)
  method_of event_creating o = o.creating
  method_of event_created o = o.created
  method_of event_updating o = o.updating
  method_of event_updated o = o.updated

  abbrev pub heard : Option (Method World Fields) → Fields → World → (World × Fields) × Option Error
  heard none fs w = ((w, fs), none)
  heard (some f) fs w = f fs w

  -- Going on with the next observer, unless this one has failed.
  abbrev pub unless_failed :
      (World × Fields) × Option Error → Method World Fields → (World × Fields) × Option Error
  unless_failed ((w, fs), some e) next = ((w, fs), some e)
  unless_failed ((w, fs), none) next = next fs w

  unfoldable pub notify_loop : Event → List (Observer World Fields) → Method World Fields
  notify_loop event [] fs w = ((w, fs), none)
  notify_loop event (o ∷ os) fs w =
      unless_failed (heard (method_of event o) fs w) (notify_loop event os)

  unfoldable pub notify :
      String → Event → Assoc (List (Observer World Fields)) → Method World Fields
  notify key event registry fs w = notify_loop event (observers_for key registry) fs w
