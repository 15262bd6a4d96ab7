-- ===== src/Tests/Terminal.antt =====
-- The theorems on odm's terminal methods at concrete inputs.
use chandlery.Base.{
  ℕ, ◌≡◌, refl, true, false, Option, none, some, List, [], ◌∷◌, map, length, All, if◌then◌else◌,
  str_eq, arith, not, ◌&&◌,
}
use chandlery.Base.Int.{pos}
use chandlery.Base.Assoc.{lookup}
use chandlery.Odm.Value.{Value, time, single}
use chandlery.Odm.Errors.{ok}
use chandlery.Odm.Query.{ModelMeta, new_query, trashed_excluded}
use chandlery.Odm.Query.Update.{Update}
use chandlery.Odm.Query.Grouping.{under}
use chandlery.Odm.Query.Scope.{filter}
use chandlery.Odm.Terminal.{
  Driver, replied, UpdateDocument, compiled, raw, UpdateResult, delete, restore, force_delete,
}
use chandlery.Odm.Terminal.Reach.{IsStore, force_delete-removes, restore-restores}
use chandlery.Odm.Query.Update.{compile_update}
use chandlery.Odm.Query.Scope.{restore_ops, require_soft_deletes}
use chandlery.Odm.Query.Visible.{is_deleted, force_admits}
use chandlery.Odm.Filter.{build_filter}
use chandlery.Base.{filter as select_list}
use chandlery.Odm.Terminal.Softly.{IsCollection, delete-hides}
use chandlery.Tests.Mongo.{Doc, matches, matches-IsMongo}

-- The update of one field, deleted_at: what is set on it, or whether it is unset.
abbrev stamp : Option Value → Option Value → Doc → Doc
stamp (some (time t)) o d = λ f. if str_eq f "deleted_at" then ℕ.suc t else d f
stamp none (some v) d = λ f. if str_eq f "deleted_at" then 0 else d f
stamp _ _ d = d

abbrev apply : Update → Doc → Doc
apply u d = stamp (lookup "deleted_at" (under "$set" u)) (lookup "deleted_at" (under "$unset" u)) d

abbrev update_all : Value → UpdateDocument → List Doc → List Doc
update_all f (compiled u) ds = map (λ d. if matches f d then apply u d else d) ds
update_all f (raw v) ds = ds

abbrev none_changed : UpdateResult
none_changed = record { matched_count = pos 0; modified_count = pos 0 }

-- A server of one collection, of which the tests ask for UpdateMany.
abbrev server : Driver
server = record {
  World = List Doc;
  Doc = Doc;
  Model = Doc;
  find = λ f o w. (w, replied (w, none));
  find_one = λ f o w. (w, replied none);
  count_documents = λ f n w. (w, replied (pos 0));
  update_many = λ f u w. (update_all f u w, replied none_changed);
  update_one = λ f u s w. (w, replied none_changed);
  delete_many = λ f w. (select_list (λ d. not (matches f d)) w, replied (pos 0));
  delete_one = λ f w. (w, replied (pos 0));
  find_one_and_delete = λ f s w. (w, replied false);
  decode = λ d. ok d;
  snapshot = λ m. ok m;
  load_relations = λ rs ms ds w. (w, ok ms);
}

abbrev tasks : ModelMeta
tasks = record { collection = "tasks"; timestamps = true; soft_deletes = true; trackable = true }

stamped :
    (u : Update) (now : ℕ) (d : Doc)
    → lookup "deleted_at" (under "$set" u) ≡ some (time now)
    → matches (single "deleted_at" Value.null) (apply u d) ≡ false
unfolding matches
stamped u now d h = rw h (ground arith)

unstamped :
    (u : Update) (v : Value) (d : Doc)
    → lookup "deleted_at" (under "$set" u) ≡ none
    → lookup "deleted_at" (under "$unset" u) ≡ some v
    → matches (single "deleted_at" Value.null) (apply u d) ≡ true
unfolding matches
unstamped u v d h k = rw (h, k) refl

server-IsCollection : IsCollection server matches apply (λ w. w)
server-IsCollection = record { update_many = λ f u w r h. refl; stamped = stamped }

abbrev docs : List Doc
docs = (λ f. 0) ∷ (λ f. 1) ∷ []

answers : (delete server 5 (new_query tasks) docs).1 ≡ ok (pos 0)
unfolding delete
answers = refl

delete-hides_example :
    (length (delete server 5 (new_query tasks) docs).0 ≡ 2)
    × All
        (λ d. matches (filter (new_query tasks)) d ≡ false)
        (delete server 5 (new_query tasks) docs).0
delete-hides_example =
    delete-hides server matches matches-IsMongo apply (λ w. w) server-IsCollection 5
      (new_query tasks) docs (pos 0) refl refl answers

server-IsStore : IsStore server matches apply (λ w. w)
server-IsStore = record {
  update_many = λ f u w r h. refl;
  delete_many = λ f w n h. refl;
  unstamped = unstamped;
}

force_answers : (force_delete server (new_query tasks) docs).1 ≡ ok (pos 0)
unfolding force_delete require_soft_deletes
force_answers = refl

force_delete-removes_example :
    (true ≡ true)
    × ((force_delete server (new_query tasks) docs).0
        ≡ select_list
            (λ d. not (
              matches (build_filter []) d
              && force_admits matches matches-IsMongo trashed_excluded d))
            docs)
force_delete-removes_example =
    force_delete-removes server matches matches-IsMongo apply (λ w. w) server-IsStore
      (new_query tasks) docs (pos 0) force_answers

restore_answers : (restore server 5 (new_query tasks) docs).1 ≡ ok none_changed
unfolding restore require_soft_deletes
restore_answers = refl

restore-restores_example :
    (true ≡ true)
    × ((restore server 5 (new_query tasks) docs).0
        ≡ map
            (λ d.
              if matches (build_filter []) d && is_deleted matches matches-IsMongo d
              then apply (compile_update (restore_ops 5 (new_query tasks))) d
              else d)
            docs)
    × (is_deleted matches matches-IsMongo
          (apply (compile_update (restore_ops 5 (new_query tasks))) (λ f. 1))
        ≡ false)
restore-restores_example =
    restore-restores server matches matches-IsMongo apply (λ w. w) server-IsStore 5
      (new_query tasks) docs none_changed (λ f. 1) restore_answers
