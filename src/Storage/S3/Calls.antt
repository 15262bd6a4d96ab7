-- ===== src/Storage/S3/Calls.antt =====
-- storage/s3/s3.go: the methods of a disk as a data type of calls, and what a server promises of the
-- contents of its objects, for the theorems on sequences of calls.
use chandlery.Base.{◌≡◌, true, false, ◌&&◌, Option, List, [], ◌∷◌}
use chandlery.Base.Int.{ℤ}
use chandlery.Base.Text.{Text, eq, has_prefix}
use chandlery.Storage.S3.{Disk, Client}
use chandlery.Storage.S3.Objects
use chandlery.Storage.S3.Directories

pub data Call : Type 0 where
  ensure_bucket : Text → Call
  put : Text → Text → Call
  put_string : Text → Text → Call
  get : Text → Call
  exists : Text → Call
  missing : Text → Call
  delete : List Text → Call
  copy : Text → Text → Call
  move : Text → Text → Call
  size : Text → Call
  last_modified : Text → Call
  content_type : Text → Call
  temporary_url : Text → ℤ → Call
  presigned_put_url : Text → ℤ → Call
  make_directory : Text → Call
  delete_directory : Text → Call
  files : Text → Call
  all_files : Text → Call
  directories : Text → Call
  all_directories : Text → Call

-- The state of the server after a call.
unfoldable pub after : (c : Client) → Disk → Call → c.World → c.World
after c d (ensure_bucket region) w = (Objects.ensure_bucket c region d w).0
after c d (put p contents) w = (Objects.put c d p contents w).0
after c d (put_string p contents) w = (Objects.put_string c d p contents w).0
after c d (get p) w = (Objects.get c d p w).0
after c d (exists p) w = (Objects.exists c d p w).0
after c d (missing p) w = (Objects.missing c d p w).0
after c d (delete ps) w = (Objects.delete c d ps w).0
after c d (copy source target) w = (Objects.copy c d source target w).0
after c d (move source target) w = (Objects.move c d source target w).0
after c d (size p) w = (Objects.size c d p w).0
after c d (last_modified p) w = (Objects.last_modified c d p w).0
after c d (content_type p) w = (Objects.content_type c d p w).0
after c d (temporary_url p e) w = (Objects.temporary_url c d p e w).0
after c d (presigned_put_url p e) w = (Objects.presigned_put_url c d p e w).0
after c d (make_directory p) w = (Directories.make_directory c d p w).0
after c d (delete_directory p) w = (Directories.delete_directory c d p w).0
after c d (files dir) w = (Directories.files c d dir w).0
after c d (all_files dir) w = (Directories.all_files c d dir w).0
after c d (directories dir) w = (Directories.directories c d dir w).0
after c d (all_directories dir) w = (Directories.all_directories c d dir w).0

abbrev pub after_all : (c : Client) → Disk → List Call → c.World → c.World
after_all c d [] w = w
after_all c d (call ∷ calls) w = after_all c d calls (after c d call w)

-- The documented effect of the requests, whatever they answer: one that names an object changes no
-- other object, a bulk removal of a listing removes nothing that is not below its prefix, and the
-- rest change no object.
pub record IsIsolated (c : Client) (content : Text → Text → c.World → Option Text) : Type 0 where
  pub bucket_exists :
      (n b k : Text) (w : c.World) → content b k (c.bucket_exists n w).0 ≡ content b k w
  pub make_bucket :
      (n r b k : Text) (w : c.World) → content b k (c.make_bucket n r w).0 ≡ content b k w
  pub put_object :
      (n o v t b k : Text) (w : c.World)
      → (eq b n && eq k o) ≡ false
      → content b k (c.put_object n o v t w).0 ≡ content b k w
  pub get_object :
      (n o b k : Text) (w : c.World) → content b k (c.get_object n o w).0 ≡ content b k w
  pub read_all :
      (o : c.Object) (b k : Text) (w : c.World) → content b k (c.read_all o w).0 ≡ content b k w
  pub stat_object :
      (n o b k : Text) (w : c.World) → content b k (c.stat_object n o w).0 ≡ content b k w
  pub remove_object :
      (n o b k : Text) (w : c.World)
      → (eq b n && eq k o) ≡ false
      → content b k (c.remove_object n o w).0 ≡ content b k w
  pub copy_object :
      (n s o b k : Text) (w : c.World)
      → (eq b n && eq k o) ≡ false
      → content b k (c.copy_object n s o w).0 ≡ content b k w
  pub range :
      (os : c.Objects) (b k : Text) (w : c.World) → content b k (c.range os w).0 ≡ content b k w
  pub remove_objects_with_iter :
      (n p b k : Text) (w : c.World)
      → (eq b n && has_prefix k p) ≡ false
      → content b k (c.remove_objects_with_iter n (c.list_objects_iter n p true) w).0
        ≡ content b k w
  pub presigned_get_object :
      (n o b k : Text) (e : ℤ) (w : c.World)
      → content b k (c.presigned_get_object n o e w).0 ≡ content b k w
  pub presigned_put_object :
      (n o b k : Text) (e : ℤ) (w : c.World)
      → content b k (c.presigned_put_object n o e w).0 ≡ content b k w
