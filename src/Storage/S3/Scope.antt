-- ===== src/Storage/S3/Scope.antt =====
-- storage/s3/s3.go: a disk with a prefix changes nothing outside it.
use chandlery.Base.{
  ◌≡◌, refl, ◌∙◌, Bool, true, false, ◌&&◌, ◌||◌, Option, List, [], ◌∷◌, ◌++◌, if◌then◌else◌, arith,
}
use chandlery.Base.Text.{Text, is_empty, eq, eq→≡, has_prefix, has_prefix-append, trim_prefix}
use chandlery.Base.Text.Parts.{slash, has_suffix, trim_suffix}
use chandlery.Base.Text.Suffix.{has_suffix-snoc, slash_after_prefix, has_prefix_trans}
use chandlery.Storage.S3.{
  Disk, Fault, Answer, replied, failed, ObjectInfo, Client, Error, Result, ok, err, with_slash,
  with_prefix, key,
}
use chandlery.Storage.S3.Objects
use chandlery.Storage.S3.Objects.{
  made_bucket, read, found, collected, remove_loop, join_errors, moved,
}
use chandlery.Storage.S3.Directories
use chandlery.Storage.S3.Directories.{dir_key}
use chandlery.Storage.S3.Calls.{
  Call, ensure_bucket, put, put_string, get, exists, missing, delete, copy, move, size,
  last_modified, content_type, temporary_url, presigned_put_url, make_directory, delete_directory,
  files, all_files, directories, all_directories, after, after_all, IsIsolated,
}

-- A prefix that WithPrefix sets is empty or ends with a slash.
pub with_prefix-slash :
    (p : Text) (d : Disk)
    → (is_empty (with_prefix p d).prefix || has_suffix (with_prefix p d).prefix slash) ≡ true
unfolding with_prefix
with_prefix-slash [] d = refl
with_prefix-slash (c ∷ p) d = from (has_suffix (c ∷ p) slash) refl
  where
    from :
        (b : Bool)
        → has_suffix (c ∷ p) slash ≡ b
        → (is_empty (with_slash false b (c ∷ p)) || has_suffix (with_slash false b (c ∷ p)) slash)
          ≡ true
    from true h = h
    from false h = has_suffix-snoc (c ∷ p) slash

slash_after :
    (s t : Text)
    → (is_empty s || has_suffix s slash) ≡ true
    → has_prefix (trim_suffix (s ++ t) slash ++ slash ∷ []) s ≡ true
unfolding has_prefix
slash_after [] t h = refl
slash_after (y ∷ s) t h = slash_after_prefix (y ∷ s) t h

module _ (c : Client) (content : Text → Text → c.World → Option Text) (law : IsIsolated c content)
    (d : Disk) (b k : Text) (out : (eq b d.bucket && has_prefix k d.prefix) ≡ false) where
  outside-key : (p : Text) → (eq b d.bucket && eq k (key d p)) ≡ false
  unfolding key
  outside-key p =
      ground (arith, eq→≡ k (key d p), has_prefix-append d.prefix (trim_prefix p (slash ∷ [])))

  outside-prefix :
      (q : Text) → has_prefix q d.prefix ≡ true → (eq b d.bucket && has_prefix k q) ≡ false
  outside-prefix q h = ground (arith, has_prefix_trans k q d.prefix)

  has_prefix-dir_key :
      (p : Text)
      → (is_empty d.prefix || has_suffix d.prefix slash) ≡ true
      → has_prefix (dir_key d p) d.prefix ≡ true
  unfolding key
  has_prefix-dir_key p h = slash_after d.prefix (trim_prefix p (slash ∷ [])) h

  ensure_bucket-keeps :
      (region : Text) (w : c.World)
      → content b k (Objects.ensure_bucket c region d w).0 ≡ content b k w
  unfolding Objects.ensure_bucket
  ensure_bucket-keeps region w =
      from (c.bucket_exists d.bucket w) ∙ law.bucket_exists d.bucket b k w
    where
      from :
          (r : c.World × Answer Bool) → content b k (made_bucket c region d r).0 ≡ content b k r.0
      from (w, failed e) = refl
      from (w, replied true) = refl
      from (w, replied false) = law.make_bucket d.bucket region b k w

  put-keeps :
      (p contents : Text) (w : c.World)
      → content b k (Objects.put c d p contents w).0 ≡ content b k w
  unfolding Objects.put
  put-keeps p contents w = law.put_object _ _ _ _ b k w (outside-key p)

  get-keeps : (p : Text) (w : c.World) → content b k (Objects.get c d p w).0 ≡ content b k w
  unfolding Objects.get
  get-keeps p w = from (c.get_object d.bucket (key d p) w) ∙ law.get_object _ _ b k w
    where
      from : (r : c.World × Answer c.Object) → content b k (read c p r).0 ≡ content b k r.0
      from (w, failed e) = refl
      from (w, replied o) = law.read_all o b k w

  exists-keeps : (p : Text) (w : c.World) → content b k (Objects.exists c d p w).0 ≡ content b k w
  unfolding Objects.exists
  exists-keeps p w = from (c.stat_object d.bucket (key d p) w) ∙ law.stat_object _ _ b k w
    where
      from : (r : c.World × Answer ObjectInfo) → content b k (found c p r).0 ≡ content b k r.0
      from (w, failed e) = refl
      from (w, replied i) = refl

  remove_loop-keeps :
      (ps : List Text) (errs : List (Text × Fault)) (w : c.World)
      → content b k (remove_loop c d ps errs w).0 ≡ content b k w
  unfolding Objects.remove_loop
  remove_loop-keeps [] errs w = refl
  remove_loop-keeps (p ∷ ps) errs w =
      remove_loop-keeps ps _ (c.remove_object d.bucket (key d p) w).0
      ∙ law.remove_object _ _ b k w (outside-key p)

  delete-keeps :
      (ps : List Text) (w : c.World) → content b k (Objects.delete c d ps w).0 ≡ content b k w
  unfolding Objects.delete
  delete-keeps ps w = from (remove_loop c d ps [] w) ∙ remove_loop-keeps ps [] w
    where
      from : (r : c.World × List (Text × Fault)) → content b k (join_errors c r).0 ≡ content b k r.0
      from (w, []) = refl
      from (w, e ∷ es) = refl

  copy-keeps :
      (source target : Text) (w : c.World)
      → content b k (Objects.copy c d source target w).0 ≡ content b k w
  unfolding Objects.copy
  copy-keeps source target w = law.copy_object _ _ _ b k w (outside-key target)

  move-keeps :
      (source target : Text) (w : c.World)
      → content b k (Objects.move c d source target w).0 ≡ content b k w
  unfolding Objects.move
  move-keeps source target w = from (Objects.copy c d source target w) ∙ copy-keeps source target w
    where
      from :
          (r : c.World × Result (Unit {0})) → content b k (moved c d source r).0 ≡ content b k r.0
      from (w, err e) = refl
      from (w, ok u) = delete-keeps (source ∷ []) w

  told-keeps :
      {A : Type 0} (f : ObjectInfo → A) (p : Text) (w : c.World)
      → content b k (Objects.told c f p (c.stat_object d.bucket (key d p) w)).0 ≡ content b k w
  told-keeps f p w = from (c.stat_object d.bucket (key d p) w) ∙ law.stat_object _ _ b k w
    where
      from :
          (r : c.World × Answer ObjectInfo) → content b k (Objects.told c f p r).0 ≡ content b k r.0
      from (w, failed e) = refl
      from (w, replied i) = refl

  delete_directory-keeps :
      (p : Text) (w : c.World)
      → (is_empty d.prefix || has_suffix d.prefix slash) ≡ true
      → content b k (Directories.delete_directory c d p w).0 ≡ content b k w
  unfolding Directories.delete_directory
  delete_directory-keeps p w h = from (is_empty d.prefix) refl
    where
      removed : c.World × Answer (List (Text × Option Fault))
      removed =
          c.remove_objects_with_iter d.bucket (c.list_objects_iter d.bucket (dir_key d p) true) w

      shown :
          (r : c.World × Answer (List (Text × Option Fault)))
          → content b k (Directories.deleted c p r).0 ≡ content b k r.0
      shown (w, failed e) = refl
      shown (w, replied results) = refl

      from :
          (e : Bool)
          → is_empty d.prefix ≡ e
          → content b k (if e then (w, err Error.no_prefix) else Directories.deleted c p removed).0
            ≡ content b k w
      from true e = refl
      from false e =
          shown removed
          ∙ law.remove_objects_with_iter _ _ b k w
              (outside-prefix (dir_key d p) (has_prefix-dir_key p h))

  list-keeps :
      (dir : Text) (recursive : Bool) (w : c.World)
      → content b k (Directories.list c d dir recursive w).0 ≡ content b k w
  unfolding Directories.list
  list-keeps dir recursive w = law.range _ b k w

  each-keeps :
      {A B : Type 0} (f : A → B) (r : c.World × Result A)
      → content b k (Directories.each f r).0 ≡ content b k r.0
  each-keeps f (w, ok x) = refl
  each-keeps f (w, err e) = refl

  after-keeps :
      (call : Call) (w : c.World)
      → (is_empty d.prefix || has_suffix d.prefix slash) ≡ true
      → content b k (after c d call w) ≡ content b k w
  unfolding after Objects.put_string Objects.missing Objects.size Objects.last_modified
      Objects.content_type Objects.temporary_url Objects.presigned_put_url
      Directories.make_directory Directories.files Directories.all_files Directories.directories
      Directories.all_directories
  after-keeps (ensure_bucket region) w h = ensure_bucket-keeps region w
  after-keeps (put p contents) w h = put-keeps p contents w
  after-keeps (put_string p contents) w h = put-keeps p contents w
  after-keeps (get p) w h = get-keeps p w
  after-keeps (exists p) w h = exists-keeps p w
  after-keeps (missing p) w h = exists-keeps p w
  after-keeps (delete ps) w h = delete-keeps ps w
  after-keeps (copy source target) w h = copy-keeps source target w
  after-keeps (move source target) w h = move-keeps source target w
  after-keeps (size p) w h = told-keeps _ p w
  after-keeps (last_modified p) w h = told-keeps _ p w
  after-keeps (content_type p) w h = told-keeps _ p w
  after-keeps (temporary_url p e) w h = law.presigned_get_object _ _ b k e w
  after-keeps (presigned_put_url p e) w h = law.presigned_put_object _ _ b k e w
  after-keeps (make_directory p) w h =
      law.put_object _ _ _ _ b k w (ground (arith, eq→≡ k (dir_key d p), has_prefix-dir_key p h))
  after-keeps (delete_directory p) w h = delete_directory-keeps p w h
  after-keeps (files dir) w h =
      each-keeps _ (Directories.list c d dir false w) ∙ list-keeps dir false w
  after-keeps (all_files dir) w h =
      each-keeps _ (Directories.list c d dir true w) ∙ list-keeps dir true w
  after-keeps (directories dir) w h =
      each-keeps _ (Directories.list c d dir false w) ∙ list-keeps dir false w
  after-keeps (all_directories dir) w h =
      each-keeps _ (Directories.list c d dir true w) ∙ list-keeps dir true w

  pub after_all-keeps :
      (calls : List Call) (w : c.World)
      → (is_empty d.prefix || has_suffix d.prefix slash) ≡ true
      → content b k (after_all c d calls w) ≡ content b k w
  after_all-keeps [] w h = refl
  after_all-keeps (call ∷ calls) w h =
      after_all-keeps calls (after c d call w) h ∙ after-keeps call w h

-- Whatever calls are made of a disk made by WithPrefix, whatever the server answers, and provided
-- that each request has its documented reach, the content of an object of another bucket, or of a
-- name that does not begin with the prefix, is what it was.
pub calls-keep_outside :
    (c : Client) (content : Text → Text → c.World → Option Text) (law : IsIsolated c content)
    (prefix : Text) (d : Disk) (b k : Text)
    → (eq b (with_prefix prefix d).bucket && has_prefix k (with_prefix prefix d).prefix) ≡ false
    → (calls : List Call) (w : c.World)
    → content b k (after_all c (with_prefix prefix d) calls w) ≡ content b k w
calls-keep_outside c content law prefix d b k out calls w =
    after_all-keeps c content law (with_prefix prefix d) b k out calls w
      (with_prefix-slash prefix d)
