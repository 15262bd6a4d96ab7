-- ===== src/Odm/Observer/Chained.antt =====
-- odm/observer.go: registering observers adds them behind those that are there.
use chandlery.Base.{
  ◌≡◌, refl, sym, ◌∙◌, String, Bool, true, false, Option, none, some, List, [], ◌∷◌, ◌++◌,
  if◌then◌else◌, arith, all, str_eq,
}
use chandlery.Base.Assoc.{Assoc, insert, lookup-insert}
use chandlery.Odm.Errors.{Error}
use chandlery.Odm.Observer.{
  Method, Observer, Event, observes_anything, observe, observers_for, method_of, heard,
  unless_failed, notify_loop, notify,
}

module _ {World Fields : Type 0} where
  unless_failed_assoc :
      (r : (World × Fields) × Option Error) (f g : Method World Fields)
      → unless_failed (unless_failed r f) g ≡ unless_failed r (λ fs w. unless_failed (f fs w) g)
  unless_failed_assoc ((w, fs), some e) f g = refl
  unless_failed_assoc ((w, fs), none) f g = refl

  unless_failed_congr :
      (r : (World × Fields) × Option Error) (f g : Method World Fields)
      → ((fs : Fields) (w : World) → f fs w ≡ g fs w)
      → unless_failed r f ≡ unless_failed r g
  unless_failed_congr ((w, fs), some e) f g h = refl
  unless_failed_congr ((w, fs), none) f g h = h fs w

  notify_loop-append :
      (event : Event) (os ps : List (Observer World Fields)) (fs : Fields) (w : World)
      → notify_loop event (os ++ ps) fs w
        ≡ unless_failed (notify_loop event os fs w) (notify_loop event ps)
  unfolding notify_loop
  notify_loop-append event [] ps fs w = refl
  notify_loop-append event (o ∷ os) ps fs w =
      let r = heard (method_of event o) fs w in
      unless_failed_congr r (notify_loop event (os ++ ps)) _
        (λ fs w. notify_loop-append event os ps fs w)
      ∙ sym (unless_failed_assoc r (notify_loop event os) (notify_loop event ps))

  registered-insert :
      (key other : String) (os : List (Observer World Fields))
      (registry : Assoc (List (Observer World Fields)))
      → observers_for other (insert key os registry)
        ≡ (if str_eq key other then os else observers_for other registry)
  unfolding observers_for
  registered-insert key other os registry = ground (arith, lookup-insert key other os registry)

  -- After an Observe that does not panic, an event of that model runs the observers that were there
  -- and then, unless one of them has failed, the new ones, in order, up to the first error; events of
  -- other models run what they ran.
  pub notify-observe :
      (key : String) (os : List (Observer World Fields))
      (registry after : Assoc (List (Observer World Fields)))
      → observe key os registry ≡ some after
      → (other : String) (event : Event) (fs : Fields) (w : World)
      → notify other event after fs w ≡ (
          if str_eq key other
          then unless_failed (notify key event registry fs w) (notify_loop event os)
          else notify other event registry fs w)
  unfolding notify observe observers_for
  notify-observe key os registry after h other event fs w = from (all observes_anything os) h
    where
      from :
          (b : Bool)
          → (if b then some (insert key (observers_for key registry ++ os) registry) else none)
            ≡ some after
          → notify_loop event (observers_for other after) fs w ≡ (
              if str_eq key other
              then unless_failed
                  (notify_loop event (observers_for key registry) fs w)
                  (notify_loop event os)
              else notify_loop event (observers_for other registry) fs w)
      from false e = cc
      from true e = ground (
        arith,
        registered-insert key other (observers_for key registry ++ os) registry,
        notify_loop-append event (observers_for key registry) os fs w,
      )
