-- ===== src/Odm/State/Events.antt =====
-- odm/model.go, hooks.go and observer.go: the fields that the package's own model types add, and the
-- events of Create and Save as the model's hooks and the observers registered for it.
use chandlery.Base.{ℕ, String, Bool, Option, List, ◌==◌, all, if◌then◌else◌}
use chandlery.Base.Assoc.{Assoc}
use chandlery.Odm.State.Saving.{Backend, Model}
use chandlery.Odm.Observer.{
  Method, Observer, event_creating, event_created, event_updating, event_updated, notify, heard,
}

-- The twelve bytes of an ObjectID.
abbrev pub ObjectId : Type 0
ObjectId = List ℕ

abbrev pub is_zero_id : ObjectId → Bool
is_zero_id id = all (λ byte. byte == 0) id

pub record IdentityFields : Type 0 where
  pub id : ObjectId

-- An instant of 0 is the zero time.
pub record ModelFields : Type 0 where
  pub identity : IdentityFields
  pub created_at : ℕ
  pub updated_at : ℕ

-- The first argument is what bson.NewObjectID gives.
unfoldable pub prepare_identity : ObjectId → IdentityFields → IdentityFields
prepare_identity fresh m = if is_zero_id m.id then record { id = fresh } else m

unfoldable pub prepare_model : ObjectId → ℕ → ModelFields → ModelFields
prepare_model fresh now m = record {
  identity = prepare_identity fresh m.identity;
  created_at = if m.created_at == 0 then now else m.created_at;
  updated_at = now;
}

unfoldable pub touch_updated_at : ℕ → ModelFields → ModelFields
touch_updated_at now m = record m { updated_at = now }

-- The hooks that a model's type has.
pub record Hooks (World Fields : Type 0) : Type 0 where
  pub before_create : Option (Method World Fields)
  pub after_create : Option (Method World Fields)
  pub before_update : Option (Method World Fields)
  pub after_update : Option (Method World Fields)

module _ {World Fields : Type 0} (h : Hooks World Fields) where
  unfoldable pub run_before_create : Method World Fields
  run_before_create fs w = heard h.before_create fs w

  unfoldable pub run_after_create : Method World Fields
  run_after_create fs w = heard h.after_create fs w

  unfoldable pub run_before_update : Method World Fields
  run_before_update fs w = heard h.before_update fs w

  unfoldable pub run_after_update : Method World Fields
  run_after_update fs w = heard h.after_update fs w

-- The parameters of Create and Save whose events are these hooks and these observers.
unfoldable pub with_events :
    (b : Backend)
    → Hooks b.World (Model b.Fields)
    → String
    → Assoc (List (Observer b.World (Model b.Fields)))
    → Backend
with_events b h key observers = record b {
  before_create = run_before_create h;
  creating = notify key event_creating observers;
  after_create = run_after_create h;
  created = notify key event_created observers;
  before_update = run_before_update h;
  updating = notify key event_updating observers;
  after_update = run_after_update h;
  updated = notify key event_updated observers;
}
