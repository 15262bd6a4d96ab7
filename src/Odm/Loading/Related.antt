-- ===== src/Odm/Loading/Related.antt =====
-- odm/relation.go, has_many.go, has_one.go, belongs_to.go, belongs_to_many.go: the loading of each kind
-- of relation with its query for the related documents, and the relations nested in it.
use chandlery.Base.{String, true, Option, List, [], ◌∷◌}
use chandlery.Odm.Value.{Value, array, values}
use chandlery.Odm.Errors.{Result, ok, err}
use chandlery.Odm.Query.{ModelMeta, new_query}
use chandlery.Odm.Query.Where.{where_in}
use chandlery.Odm.Terminal.{Driver, fetch}
use chandlery.Odm.Loading.{Reader, Source, local_key_or, load_many, load_one}

-- The load method of a relation from this model: the models as they are once it has attached to them.
abbrev pub Load : Type 0 → Type 0 → Type 0 → Type 0
Load World Model Doc = List Model → List Doc → World → World × Result (List Model)

abbrev pub loaded_next :
    {World Model Doc : Type 0}
    → Load World Model Doc
    → List Doc
    → World × Result (List Model)
    → World × Result (List Model)
loaded_next next docs (w, err e) = (w, err e)
loaded_next next docs (w, ok models) = next models docs w

-- loadNested, and the loop of Query.loadRelations
unfoldable pub load_all :
    {World Model Doc : Type 0} → List (Load World Model Doc) → Load World Model Doc
load_all [] models docs w = (w, ok models)
load_all (load ∷ loads) models docs w = loaded_next (load_all loads) docs (load models docs w)

-- Query.loadRelations: nothing to load for no model.
unfoldable pub load_relations :
    {World Model Doc : Type 0} → List (Load World Model Doc) → Load World Model Doc
load_relations loads [] docs w = (w, ok [])
load_relations loads (m ∷ models) docs w = load_all loads (m ∷ models) docs w

-- The related model's collection is that of its metadata; the driver is that of its documents.
module _ (c : Driver) (meta : ModelMeta) where
  unfoldable pub related_documents :
      String → List Value → c.World → c.World × Result (List c.Model × List c.Doc)
  related_documents field vs w =
      fetch c (where_in (new_query meta) field (array (values vs))) true w

  abbrev pub source : List (Load c.World c.Model c.Doc) → Source c.Model c.Doc c.World
  source nested = record { fetch = related_documents; settle = load_all nested }

  module _ {Parent : Type 0} (r : Reader c.Doc) (nested : List (Load c.World c.Model c.Doc)) where
    -- ForeignKey, LocalKey
    unfoldable pub has_many :
        String → String → (Parent → List c.Model → Parent) → Load c.World Parent c.Doc
    has_many foreign_key local_key attach parents docs w =
        load_many r (source nested) attach (local_key_or local_key) foreign_key parents docs w

    unfoldable pub has_one :
        String → String → (Parent → Option c.Model → Parent) → Load c.World Parent c.Doc
    has_one foreign_key local_key attach parents docs w =
        load_one r (source nested) attach (local_key_or local_key) foreign_key parents docs w

    -- ForeignKey, OwnerKey
    unfoldable pub belongs_to :
        String → String → (Parent → Option c.Model → Parent) → Load c.World Parent c.Doc
    belongs_to foreign_key owner_key attach parents docs w =
        load_one r (source nested) attach foreign_key (local_key_or owner_key) parents docs w

    -- LocalKey, OwnerKey
    unfoldable pub belongs_to_many :
        String → String → (Parent → List c.Model → Parent) → Load c.World Parent c.Doc
    belongs_to_many local_key owner_key attach parents docs w =
        load_many r (source nested) attach local_key (local_key_or owner_key) parents docs w
