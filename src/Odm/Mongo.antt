-- ===== src/Odm/Mongo.antt =====
-- What odm relies on of MongoDB: how a filter document is matched, as the manual states it.
use chandlery.Base.{String, ◌≡◌, Bool, true, not, ◌&&◌, List, all, any}
use chandlery.Odm.Value.{Value, array, dict, field, end, values, single}

-- `matches f d`: the filter f matches the document d.
pub record IsMongo {Doc : Type 0} (matches : Value → Doc → Bool) : Type 0 where
  -- The empty filter matches every document.
  pub empty : (d : Doc) → matches (dict end) d ≡ true
  pub conjunction :
      (fs : List Value) (d : Doc)
      → matches (single "$and" (array (values fs))) d ≡ all (λ f. matches f d) fs
  pub disjunction :
      (fs : List Value) (d : Doc)
      → matches (single "$or" (array (values fs))) d ≡ any (λ f. matches f d) fs
  -- $ne selects what equality does not, a document without the field included.
  pub not_equal :
      (f : String) (v : Value) (d : Doc)
      → matches (single f (single "$ne" v)) d ≡ not (matches (single f v) d)
  -- Two conditions on one field both hold.
  pub between :
      (f : String) (low high : Value) (d : Doc)
      → matches (single f (dict (field "$gte" low (field "$lte" high end)))) d
        ≡ (matches (single f (single "$gte" low)) d && matches (single f (single "$lte" high)) d)
