-- ===== src/Storage/S3/Objects.antt =====
-- storage/s3/s3.go: the methods on one object, and Delete on several.
use chandlery.Base.{
  ℕ, Bool, true, false, not, Option, none, some, List, [], ◌∷◌, ◌++◌, if◌then◌else◌,
}
use chandlery.Base.Int.{ℤ}
use chandlery.Base.Text.{Text}
use chandlery.Base.Text.Parts.{slash, trim_suffix}
use chandlery.Storage.S3.{
  Disk, Fault, Answer, replied, failed, ObjectInfo, Client, Error, joined, wrapped, checking_bucket,
  creating_bucket, putting, checking, signing, Result, ok, err, or_octet_stream, key, is_not_found,
  translate_err, answered,
}

module _ (c : Client) where
  abbrev pub content_type_for : Text → Text
  content_type_for p = or_octet_stream (c.type_of_path p)

  abbrev pub made_bucket : Text → Disk → c.World × Answer Bool → c.World × Result (Unit {0})
  made_bucket region d (w, failed e) = (w, err (wrapped checking_bucket d.bucket e))
  made_bucket region d (w, replied true) = (w, ok tt)
  made_bucket region d (w, replied false) =
      answered (wrapped creating_bucket d.bucket) (c.make_bucket d.bucket region w)

  -- The first argument is what Region() gives.
  unfoldable pub ensure_bucket : Text → Disk → c.World → c.World × Result (Unit {0})
  ensure_bucket region d w = made_bucket region d (c.bucket_exists d.bucket w)

  -- The reader of the contents gives all of them.
  unfoldable pub put : Disk → Text → Text → c.World → c.World × Result (Unit {0})
  put d p contents w =
      answered (wrapped putting p) (c.put_object d.bucket (key d p) contents (content_type_for p) w)

  unfoldable pub put_string : Disk → Text → Text → c.World → c.World × Result (Unit {0})
  put_string d p contents w = put d p contents w

  abbrev pub read : Text → c.World × Answer c.Object → c.World × Result Text
  read p (w, failed e) = (w, err (translate_err p e))
  read p (w, replied o) = answered (translate_err p) (c.read_all o w)

  unfoldable pub get : Disk → Text → c.World → c.World × Result Text
  get d p w = read p (c.get_object d.bucket (key d p) w)

  abbrev pub found : Text → c.World × Answer ObjectInfo → c.World × (Bool × Option Error)
  found p (w, replied i) = (w, (true, none))
  found p (w, failed e) = (w, (false, if is_not_found e then none else some (wrapped checking p e)))

  unfoldable pub exists : Disk → Text → c.World → c.World × (Bool × Option Error)
  exists d p w = found p (c.stat_object d.bucket (key d p) w)

  abbrev pub negated : c.World × (Bool × Option Error) → c.World × (Bool × Option Error)
  negated (w, (b, e)) = (w, (not b, e))

  unfoldable pub missing : Disk → Text → c.World → c.World × (Bool × Option Error)
  missing d p w = negated (exists d p w)

  abbrev pub collected : Text → Answer (Unit {0}) → List (Text × Fault) → List (Text × Fault)
  collected p (replied u) errs = errs
  collected p (failed e) errs = errs ++ (p, e) ∷ []

  unfoldable pub remove_loop :
      Disk → List Text → List (Text × Fault) → c.World → c.World × List (Text × Fault)
  remove_loop d [] errs w = (w, errs)
  remove_loop d (p ∷ ps) errs w =
      let removed = c.remove_object d.bucket (key d p) w in
      remove_loop d ps (collected p removed.1 errs) removed.0

  abbrev pub join_errors : c.World × List (Text × Fault) → c.World × Result (Unit {0})
  join_errors (w, []) = (w, ok tt)
  join_errors (w, e ∷ es) = (w, err (joined (e ∷ es)))

  -- Every path is tried.
  unfoldable pub delete : Disk → List Text → c.World → c.World × Result (Unit {0})
  delete d ps w = join_errors (remove_loop d ps [] w)

  -- named for the source
  unfoldable pub copy : Disk → Text → Text → c.World → c.World × Result (Unit {0})
  copy d source target w =
      answered (translate_err source) (c.copy_object d.bucket (key d source) (key d target) w)

  abbrev pub moved : Disk → Text → c.World × Result (Unit {0}) → c.World × Result (Unit {0})
  moved d source (w, err e) = (w, err e)
  moved d source (w, ok u) = delete d (source ∷ []) w

  unfoldable pub move : Disk → Text → Text → c.World → c.World × Result (Unit {0})
  move d source target w = moved d source (copy d source target w)

  abbrev pub told {ℓ} :
      {A : Type ℓ} → (ObjectInfo → A) → Text → c.World × Answer ObjectInfo → c.World × Result A
  told f p (w, replied i) = (w, ok (f i))
  told f p (w, failed e) = (w, err (translate_err p e))

  unfoldable pub size : Disk → Text → c.World → c.World × Result ℤ
  size d p w = told (λ i. i.size) p (c.stat_object d.bucket (key d p) w)

  unfoldable pub last_modified : Disk → Text → c.World → c.World × Result ℕ
  last_modified d p w = told (λ i. i.last_modified) p (c.stat_object d.bucket (key d p) w)

  unfoldable pub content_type : Disk → Text → c.World → c.World × Result Text
  content_type d p w = told (λ i. i.content_type) p (c.stat_object d.bucket (key d p) w)

  abbrev pub base_url : Text → Text
  base_url [] = trim_suffix c.endpoint_url slash
  base_url (x ∷ base) = x ∷ base

  unfoldable pub url : Disk → Text → Text
  url d p = base_url d.public_base_url ++ slash ∷ d.bucket ++ slash ∷ key d p

  unfoldable pub temporary_url : Disk → Text → ℤ → c.World → c.World × Result Text
  temporary_url d p expiration w =
      answered (wrapped signing p) (c.presigned_get_object d.bucket (key d p) expiration w)

  unfoldable pub presigned_put_url : Disk → Text → ℤ → c.World → c.World × Result Text
  presigned_put_url d p expiration w =
      answered (wrapped signing p) (c.presigned_put_object d.bucket (key d p) expiration w)
