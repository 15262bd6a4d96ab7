-- ===== src/Storage/S3.antt =====
-- storage/s3/s3.go: the disk of an S3 bucket. The client of minio, with the state of its server, is
-- a parameter; a method takes the state and gives the new one beside its result.
pub mod Objects
pub mod Config
pub mod Directories
pub mod Calls
pub mod Scope
pub mod Moves
pub mod Contract
use chandlery.Base.{
  ℕ, String, Bool, true, false, not, ◌&&◌, ◌||◌, Option, none, some, List, [], ◌∷◌, ◌++◌,
  if◌then◌else◌,
}
use chandlery.Base.Int.{ℤ}
use chandlery.Base.Text.{Text, is_empty, codes, eq, trim_prefix}
use chandlery.Base.Text.Parts.{slash, has_suffix, trim_suffix}

pub record Disk : Type 0 where
  pub bucket : Text
  pub prefix : Text
  pub public_base_url : Text

-- An error of the client, with the code that ToErrorResponse reads off it.
pub record Fault : Type 0 where
  pub code : Text
  pub message : Text

pub data Answer {ℓ} (A : Type ℓ) : Type ℓ where
  replied : A → Answer A
  failed : Fault → Answer A

pub record ObjectInfo : Type 0 where
  pub key : Text
  pub size : ℤ
  pub last_modified : ℕ
  pub content_type : Text

pub record Client : Type 1 where
  pub World : Type 0
  -- an object that GetObject has opened, and the sequence of a listing: neither has asked the server
  pub Object : Type 0
  pub Objects : Type 0
  pub bucket_exists : Text → World → World × Answer Bool
  -- the bucket and its region
  pub make_bucket : Text → Text → World → World × Answer (Unit {0})
  -- bucket, key, contents and content type
  pub put_object : Text → Text → Text → Text → World → World × Answer (Unit {0})
  pub get_object : Text → Text → World → World × Answer Object
  pub read_all : Object → World → World × Answer Text
  pub stat_object : Text → Text → World → World × Answer ObjectInfo
  pub remove_object : Text → Text → World → World × Answer (Unit {0})
  -- bucket, source and destination
  pub copy_object : Text → Text → Text → World → World × Answer (Unit {0})
  -- bucket, prefix, and whether to go below the next slash
  pub list_objects_iter : Text → Text → Bool → Objects
  pub range : Objects → World → World × List (Answer ObjectInfo)
  -- the results of the single removals, each with the name of its object
  pub remove_objects_with_iter :
      Text → Objects → World → World × Answer (List (Text × Option Fault))
  pub endpoint_url : Text
  -- bucket, key and nanoseconds
  pub presigned_get_object : Text → Text → ℤ → World → World × Answer Text
  pub presigned_put_object : Text → Text → ℤ → World → World × Answer Text
  -- mime.TypeByExtension(path.Ext(p))
  pub type_of_path : Text → Text

-- What an error of the disk says that it was doing.
pub data Doing : Type 0 where
  checking_bucket : Doing
  creating_bucket : Doing
  putting : Doing
  checking : Doing
  signing : Doing
  making_directory : Doing
  deleting_directory : Doing
  listing : Doing
  reading : Doing

pub data Error : Type 0 where
  file_not_found : Error
  no_prefix : Error
  empty_endpoint : Error
  empty_credentials : Error
  -- minio.New refused the endpoint
  setup : Fault → Error
  wrapped : Doing → Text → Fault → Error
  -- errors.Join of the errors of several keys
  joined : List (Text × Fault) → Error
  joined_at : Text → List (Text × Fault) → Error

pub data Result {ℓ} (A : Type ℓ) : Type ℓ where
  ok : A → Result A
  err : Error → Result A

abbrev pub with_slash : Bool → Bool → Text → Text
with_slash false false prefix = prefix ++ slash ∷ []
with_slash _ _ prefix = prefix

unfoldable pub with_prefix : Text → Disk → Disk
with_prefix prefix d = record d {
  prefix = with_slash (is_empty prefix) (has_suffix prefix slash) prefix;
}

unfoldable pub with_public_base_url : Text → Disk → Disk
with_public_base_url base d = record d { public_base_url = trim_suffix base slash }

unfoldable pub key : Disk → Text → Text
key d p = d.prefix ++ trim_prefix p (slash ∷ [])

unfoldable pub unkey : Disk → Text → Text
unkey d k = trim_prefix k d.prefix

abbrev pub or_octet_stream : Text → Text
or_octet_stream [] = codes "application/octet-stream"
or_octet_stream (c ∷ s) = c ∷ s

unfoldable pub is_not_found : Fault → Bool
is_not_found e = eq e.code (codes "NoSuchKey") || eq e.code (codes "NotFound")

unfoldable pub translate_err : Text → Fault → Error
unfolding is_not_found
translate_err p e = if is_not_found e then file_not_found else wrapped reading p e

abbrev pub on_failure {ℓ} : {A : Type ℓ} → (Fault → Error) → Answer A → Result A
on_failure f (replied x) = ok x
on_failure f (failed e) = err (f e)

abbrev pub answered {ℓ} : {W A : Type ℓ} → (Fault → Error) → W × Answer A → W × Result A
answered f (w, a) = (w, on_failure f a)
