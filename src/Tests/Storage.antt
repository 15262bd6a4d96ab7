-- ===== src/Tests/Storage.antt =====
-- The theorems on the disks at concrete inputs.
use chandlery.Base.{
  ◌≡◌, refl, ◌⊎◌, Bool, true, false, not, ◌&&◌, Option, none, some, List, [], ◌∷◌, ◌++◌, map, all,
  if◌then◌else◌, arith,
}
use chandlery.Base.Int.{pos}
use chandlery.Base.Text.{Text, codes, eq, eq_refl, eq→≡, has_prefix, trim_prefix, is_empty}
use chandlery.Base.Text.Parts.{
  slash, has_suffix, trim_suffix, trim, trim_left, trim_right, proper_parts, joined_from, split,
  join,
}
use chandlery.Base.Text.Order.{sort, before}
use chandlery.Storage.S3.{Disk, Answer, replied, ObjectInfo, Client, with_prefix, key, unkey, ok}
use chandlery.Storage.S3.Objects.{move}
use chandlery.Storage.S3.Directories.{
  slashed, list_prefix, list, directories_of, added_for, add, all_directories,
}
use chandlery.Storage.S3.Directories.Ancestors.{
  gives, is_ascending, holds_object, all_directories-exact,
}
use chandlery.Storage.S3.Calls.{Call, delete_directory, make_directory, after_all, IsIsolated}
use chandlery.Storage.S3.Calls
use chandlery.Storage.S3.Scope.{calls-keep_outside}
use chandlery.Storage.S3.Moves.{CopiesContent, move-loses_nothing}
use chandlery.Storage.S3.Contract.{
  path, apart, missing_fault, read_answer, stat_answer, copy_answer, over, IsHealthy, replies,
  ideal_replies,
}
use chandlery.Storage.S3.Contract
use chandlery.Storage.S3.Contract.Refinement.{replies-ideal}

-- A server: its objects by their buckets and keys.
abbrev Objects : Type 0
Objects = List (Text × Text × Text)

abbrev content : Text → Text → Objects → Option Text
content b k [] = none
content b k ((b', k', v) ∷ w) =
    let rest = content b k w in if eq b b' && eq k k' then some v else rest

abbrev without : (Text → Text → Bool) → Objects → Objects
without p [] = []
without p ((b, k, v) ∷ w) = let rest = without p w in if p b k then rest else (b, k, v) ∷ rest

abbrev written : Text → Text → Option Text → Objects → Objects
written b k none w = w
written b k (some v) w = (b, k, v) ∷ w

abbrev info : Text → Text → Objects → ObjectInfo
info b k w = record { key = k; size = pos 0; last_modified = 0; content_type = [] }

abbrev listed : Text → Text → Objects → List (Answer ObjectInfo)
listed b p [] = []
listed b p ((b', k, v) ∷ w) =
    let rest = listed b p w in
    if eq b' b && has_prefix k p then replied (info b k []) ∷ rest else rest

abbrev server : Client
server = record {
  World = Objects;
  Object = Text × Text;
  Objects = Text × Text;
  bucket_exists = λ n w. (w, replied true);
  make_bucket = λ n r w. (w, replied tt);
  put_object = λ b k v t w. ((b, k, v) ∷ w, replied tt);
  get_object = λ b k w. (w, replied (b, k));
  read_all = λ o w. (w, read_answer (content o.0 o.1 w));
  stat_object = λ b k w. (w, stat_answer (info b k w) (content b k w));
  remove_object = λ b k w. (without (λ b' k'. eq b b' && eq k k') w, replied tt);
  copy_object = λ b s k w. (written b k (content b s w) w, copy_answer (content b s w));
  list_objects_iter = λ b p recursive. (b, p);
  range = λ o w. (w, listed o.0 o.1 w);
  remove_objects_with_iter =
      λ b o w. (without (λ b' k'. eq o.0 b' && has_prefix k' o.1) w, replied []);
  endpoint_url = codes "http://127.0.0.1:9000";
  presigned_get_object = λ b k e w. (w, replied k);
  presigned_put_object = λ b k e w. (w, replied k);
  type_of_path = λ p. [];
}

content-without :
    (p : Text → Text → Bool) (b k : Text) (w : Objects)
    → p b k ≡ false
    → content b k (without p w) ≡ content b k w
content-without p b k [] h = refl
content-without p b k ((b', k', v) ∷ w) h =
    ground (arith, content-without p b k w, eq→≡ b b', eq→≡ k k')

content-without_it :
    (b k : Text) (w : Objects) → content b k (without (λ b' k'. eq b b' && eq k k') w) ≡ none
content-without_it b k [] = refl
content-without_it b k ((b', k', v) ∷ w) = ground (arith, content-without_it b k w)

content-written :
    (b k b' k' : Text) (v : Option Text) (w : Objects)
    → (eq b b' && eq k k') ≡ false
    → content b k (written b' k' v w) ≡ content b k w
content-written b k b' k' none w h = refl
content-written b k b' k' (some v) w h = ground arith

eq_flip : (s t : Text) → eq s t ≡ eq t s
unfolding eq
eq_flip [] [] = refl
eq_flip [] (d ∷ t) = refl
eq_flip (c ∷ s) [] = refl
eq_flip (c ∷ s) (d ∷ t) = ground (arith, eq_flip s t)

server-IsIsolated : IsIsolated server content
server-IsIsolated = record {
  bucket_exists = λ n b k w. refl;
  make_bucket = λ n r b k w. refl;
  put_object = λ n o v t b k w h. content-written b k n o (some v) w h;
  get_object = λ n o b k w. refl;
  read_all = λ o b k w. refl;
  stat_object = λ n o b k w. refl;
  remove_object = λ n o b k w h.
      content-without (λ b' k'. eq n b' && eq o k') b k w
        (ground (arith, eq_flip n b, eq_flip o k));
  copy_object = λ n s o b k w h. content-written b k n o (content n s w) w h;
  range = λ os b k w. refl;
  remove_objects_with_iter = λ n p b k w h.
      content-without (λ b' k'. eq n b' && has_prefix k' p) b k w (ground (arith, eq_flip n b));
  presigned_get_object = λ n o b k e w. refl;
  presigned_put_object = λ n o b k e w. refl;
}

written-over :
    (b k : Text) (v : Option Text) (w : Objects)
    → content b k (written b k v w) ≡ over v (content b k w)
written-over b k none w = refl
written-over b k (some v) w = ground (arith, eq_refl b, eq_refl k)

server-IsHealthy : IsHealthy server content (λ b k. (b, k)) info
server-IsHealthy = record {
  isolated = server-IsIsolated;
  put_object = λ b k v t w. refl;
  put_content = λ b k v t w. ground (arith, eq_refl b, eq_refl k);
  get_object = λ b k w. refl;
  read_all = λ b k w. refl;
  stat_object = λ b k w. refl;
  remove_object = λ b k w. refl;
  remove_content = λ b k w. content-without_it b k w;
  copy_object = λ b s k w h. refl;
  copy_content = λ b s k w h. written-over b k (content b s w) w;
}

abbrev bare_disk : Disk
bare_disk = record { bucket = codes "b"; prefix = []; public_base_url = [] }

abbrev app_disk : Disk
app_disk = with_prefix (codes "app") bare_disk

-- Objects of the disk, and one of a disk beside it.
abbrev stored : Objects
stored =
    (codes "b", codes "app/x/y/1", codes "one")
    ∷ (codes "b", codes "app/x/", [])
    ∷ (codes "b", codes "apple", codes "two")
    ∷ []

outside : (eq (codes "b") app_disk.bucket && has_prefix (codes "apple") app_disk.prefix) ≡ false
unfolding with_prefix eq has_prefix has_suffix
outside = refl

calls-keep_outside_example :
    content (codes "b") (codes "apple") (
      after_all server app_disk
        (delete_directory (codes "x")
          ∷ Calls.put (codes "/x/2") (codes "new")
          ∷ make_directory (codes "z")
          ∷ delete_directory []
          ∷ [])
        stored)
    ≡ content (codes "b") (codes "apple") stored
calls-keep_outside_example =
    calls-keep_outside server content server-IsIsolated (codes "app") bare_disk (codes "b")
      (codes "apple") outside
      (delete_directory (codes "x")
        ∷ Calls.put (codes "/x/2") (codes "new")
        ∷ make_directory (codes "z")
        ∷ delete_directory []
        ∷ [])
      stored

separate :
    all apart (
      Contract.put (codes "/a") (codes "v")
      ∷ Contract.move (codes "a") (codes "c")
      ∷ Contract.get (codes "c")
      ∷ Contract.exists (codes "a")
      ∷ [])
    ≡ true
unfolding eq trim_prefix has_prefix
separate = refl

replies-ideal_example :
    replies server app_disk
      (Contract.put (codes "/a") (codes "v")
        ∷ Contract.move (codes "a") (codes "c")
        ∷ Contract.get (codes "c")
        ∷ Contract.exists (codes "a")
        ∷ [])
      stored
    ≡ ideal_replies
        (Contract.put (codes "/a") (codes "v")
          ∷ Contract.move (codes "a") (codes "c")
          ∷ Contract.get (codes "c")
          ∷ Contract.exists (codes "a")
          ∷ [])
        (λ p. content app_disk.bucket (app_disk.prefix ++ p) stored)
replies-ideal_example =
    replies-ideal server content (λ b k. (b, k)) info server-IsHealthy app_disk
      (Contract.put (codes "/a") (codes "v")
        ∷ Contract.move (codes "a") (codes "c")
        ∷ Contract.get (codes "c")
        ∷ Contract.exists (codes "a")
        ∷ [])
      stored separate

server-copies : CopiesContent server content
server-copies b s k w h = copied (content b s w) refl h
  where
    copied :
        (v : Option Text)
        → content b s w ≡ v
        → copy_answer v ≡ replied tt
        → content b k (written b k v w) ≡ content b s w
    copied none e h = cc
    copied (some v) e h = ground (arith, eq_refl b, eq_refl k)

different : eq (path (codes "x/y/1")) (path (codes "z")) ≡ false
unfolding eq trim_prefix has_prefix
different = refl

move-loses_nothing_example :
    (content app_disk.bucket
        (key app_disk (codes "z"))
        (move server app_disk (codes "x/y/1") (codes "z") stored).0
      ≡ content app_disk.bucket (key app_disk (codes "x/y/1")) stored)
    ⊎ (content app_disk.bucket
          (key app_disk (codes "x/y/1"))
          (move server app_disk (codes "x/y/1") (codes "z") stored).0
        ≡ content app_disk.bucket (key app_disk (codes "x/y/1")) stored)
move-loses_nothing_example =
    move-loses_nothing server content server-IsIsolated server-copies app_disk (codes "x/y/1")
      (codes "z") different stored

abbrev found_items : List ObjectInfo
found_items = info (codes "b") (codes "app/x/y/1") [] ∷ info (codes "b") (codes "app/x/") [] ∷ []

listing_of_stored :
    (server.range
      (server.list_objects_iter app_disk.bucket (list_prefix app_disk []) true)
      stored).1
    ≡ map replied found_items
unfolding list_prefix key with_prefix eq has_prefix has_suffix trim_suffix trim_prefix
listing_of_stored = refl

-- The model run: the marker and the ancestor of an object, in order.
directories_run : (all_directories server app_disk [] stored).1 ≡ ok (codes "x" ∷ codes "x/y" ∷ [])
unfolding all_directories list directories_of added_for add proper_parts joined_from split join sort
    before trim_left trim_right unkey list_prefix key with_prefix eq has_prefix has_suffix
    trim_suffix trim_prefix
directories_run = refl

all_directories-exact_example :
    (gives (codes "x/y") (all_directories server app_disk [] stored).1 ≡ (
      not (is_empty (codes "x/y"))
      && has_prefix (codes "x/y") (slashed (trim [] slash))
      && holds_object app_disk found_items (codes "x/y")))
    × (is_ascending (all_directories server app_disk [] stored).1 ≡ true)
all_directories-exact_example =
    all_directories-exact server app_disk [] stored found_items listing_of_stored (codes "x/y")
