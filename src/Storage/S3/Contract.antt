-- ===== src/Storage/S3/Contract.antt =====
-- storage/storage.go and s3/s3.go: the methods on files against the map of paths to contents that
-- the interface Disk promises, on a server that answers.
pub mod Refinement
use chandlery.Base.{
  ℕ, ◌≡◌, Bool, true, false, not, ◌&&◌, Option, none, some, List, [], ◌∷◌, ◌++◌, if◌then◌else◌,
}
use chandlery.Base.Text.{Text, codes, eq, trim_prefix}
use chandlery.Base.Text.Parts.{slash}
use chandlery.Storage.S3.{
  Disk, Fault, Answer, replied, failed, ObjectInfo, Client, Error, file_not_found, Result, ok, err,
}
use chandlery.Storage.S3.Objects
use chandlery.Storage.S3.Calls.{IsIsolated}

pub data Call : Type 0 where
  put : Text → Text → Call
  get : Text → Call
  exists : Text → Call
  missing : Text → Call
  delete : List Text → Call
  copy : Text → Text → Call
  move : Text → Text → Call

pub data Reply : Type 0 where
  done : Result (Unit {0}) → Reply
  contents : Result Text → Reply
  flag : Bool × Option Error → Reply

abbrev pub replying {ℓ} : {W A : Type ℓ} → (A → Reply) → W × A → W × Reply
replying f (w, x) = (w, f x)

unfoldable pub call : (c : Client) → Disk → Call → c.World → c.World × Reply
call c d (put p v) w = replying done (Objects.put c d p v w)
call c d (get p) w = replying contents (Objects.get c d p w)
call c d (exists p) w = replying flag (Objects.exists c d p w)
call c d (missing p) w = replying flag (Objects.missing c d p w)
call c d (delete ps) w = replying done (Objects.delete c d ps w)
call c d (copy source target) w = replying done (Objects.copy c d source target w)
call c d (move source target) w = replying done (Objects.move c d source target w)

abbrev pub replies : (c : Client) → Disk → List Call → c.World → List Reply
replies c d [] w = []
replies c d (x ∷ calls) w = (call c d x w).1 ∷ replies c d calls (call c d x w).0

-- The contents of the files by their paths. A leading slash of a path does not count.
abbrev pub Files : Type 0
Files = Text → Option Text

abbrev pub path : Text → Text
path p = trim_prefix p (slash ∷ [])

abbrev pub assign : Text → Option Text → Files → Files
assign p e m q = if eq q p then e else m q

abbrev pub removed : List Text → Files → Files
removed [] m = m
removed (p ∷ ps) m = removed ps (assign (path p) none m)

abbrev pub content_of : Option Text → Result Text
content_of none = err file_not_found
content_of (some v) = ok v

abbrev pub is_some {ℓ} : {A : Type ℓ} → Option A → Bool
is_some none = false
is_some (some x) = true

abbrev pub copied : Text → Option Text → Files → Files × Reply
copied target none m = (m, done (err file_not_found))
copied target (some v) m = (assign (path target) (some v) m, done (ok tt))

abbrev pub relocated : Text → Text → Option Text → Files → Files × Reply
relocated source target none m = (m, done (err file_not_found))
relocated source target (some v) m =
    (assign (path source) none (assign (path target) (some v) m), done (ok tt))

-- What the contract says of a call.
unfoldable pub ideal : Call → Files → Files × Reply
ideal (put p v) m = (assign (path p) (some v) m, done (ok tt))
ideal (get p) m = (m, contents (content_of (m (path p))))
ideal (exists p) m = (m, flag (is_some (m (path p)), none))
ideal (missing p) m = (m, flag (not (is_some (m (path p))), none))
ideal (delete ps) m = (removed ps m, done (ok tt))
ideal (copy source target) m = copied target (m (path source)) m
ideal (move source target) m = relocated source target (m (path source)) m

abbrev pub ideal_replies : List Call → Files → List Reply
ideal_replies [] m = []
ideal_replies (x ∷ calls) m = (ideal x m).1 ∷ ideal_replies calls (ideal x m).0

-- The call does not copy or move a file onto itself, which the server refuses.
abbrev pub apart : Call → Bool
apart (copy source target) = not (eq (path source) (path target))
apart (move source target) = not (eq (path source) (path target))
apart _ = true

abbrev pub missing_fault : Fault
missing_fault = record { code = codes "NoSuchKey"; message = [] }

abbrev pub read_answer : Option Text → Answer Text
read_answer none = failed missing_fault
read_answer (some v) = replied v

abbrev pub stat_answer : ObjectInfo → Option Text → Answer ObjectInfo
stat_answer i none = failed missing_fault
stat_answer i (some v) = replied i

abbrev pub copy_answer : Option Text → Answer (Unit {0})
copy_answer none = failed missing_fault
copy_answer (some v) = replied tt

abbrev pub over : Option Text → Option Text → Option Text
over none old = old
over (some v) old = some v

-- A server that answers each request, and only ever with the error of a missing key.
pub record IsHealthy (c : Client) (content : Text → Text → c.World → Option Text)
    (opened : Text → Text → c.Object) (info : Text → Text → c.World → ObjectInfo) : Type 0 where
  pub isolated : IsIsolated c content
  pub put_object : (b k v t : Text) (w : c.World) → (c.put_object b k v t w).1 ≡ replied tt
  pub put_content : (b k v t : Text) (w : c.World) → content b k (c.put_object b k v t w).0 ≡ some v
  pub get_object : (b k : Text) (w : c.World) → (c.get_object b k w).1 ≡ replied (opened b k)
  pub read_all :
      (b k : Text) (w : c.World) → (c.read_all (opened b k) w).1 ≡ read_answer (content b k w)
  pub stat_object :
      (b k : Text) (w : c.World)
      → (c.stat_object b k w).1 ≡ stat_answer (info b k w) (content b k w)
  pub remove_object : (b k : Text) (w : c.World) → (c.remove_object b k w).1 ≡ replied tt
  pub remove_content : (b k : Text) (w : c.World) → content b k (c.remove_object b k w).0 ≡ none
  pub copy_object :
      (b s k : Text) (w : c.World)
      → eq s k ≡ false
      → (c.copy_object b s k w).1 ≡ copy_answer (content b s w)
  pub copy_content :
      (b s k : Text) (w : c.World)
      → eq s k ≡ false
      → content b k (c.copy_object b s k w).0 ≡ over (content b s w) (content b k w)
