-- ===== src/Storage/Local.antt =====
-- storage/local/local.go: the disk of a directory. What os.Root does, with the state of the file
-- system, is a parameter; a method takes the state and gives the new one beside its result.
pub mod Path
pub mod Listing
pub mod Signed
pub mod Copied
use chandlery.Base.{
  ℕ, Bool, true, false, not, ◌&&◌, ◌||◌, Option, none, some, List, [], ◌∷◌, ◌++◌, if◌then◌else◌,
}
use chandlery.Base.Int.{ℤ}
use chandlery.Base.Text.{Text, codes, eq}
use chandlery.Base.Text.Parts.{slash, trim_suffix}
use chandlery.Storage.Local.Path.{normalize, dir_of}

-- An error of the file system, and whether it is an fs.ErrNotExist.
pub record Fault : Type 0 where
  pub not_exist : Bool
  pub message : Text

pub data Answer {ℓ} (A : Type ℓ) : Type ℓ where
  replied : A → Answer A
  failed : Fault → Answer A

pub record FileInfo : Type 0 where
  pub size : ℤ
  pub mod_time : ℕ

pub record Entry : Type 0 where
  pub name : Text
  pub is_dir : Bool

-- One call that fs.WalkDir makes of its function.
pub record Visit : Type 0 where
  pub path : Text
  pub is_dir : Bool
  pub error : Option Fault

pub record Root : Type 1 where
  pub World : Type 0
  pub File : Type 0
  pub create : Text → World → World × Answer File
  pub open_file : Text → World → World × Answer File
  pub close : File → World → World
  -- io.Copy of a reader that gives these bytes, and of a file to another: target, source
  pub write_all : File → Text → World → World × Answer (Unit {0})
  pub copy_all : File → File → World → World × Answer (Unit {0})
  -- io.ReadFull: the bytes read, where an EOF is no error
  pub read_full : File → ℕ → World → World × Answer Text
  pub read_file : Text → World → World × Answer Text
  pub stat : Text → World → World × Answer FileInfo
  pub remove : Text → World → World × Answer (Unit {0})
  -- from, to
  pub rename : Text → Text → World → World × Answer (Unit {0})
  pub mkdir_all : Text → World → World × Answer (Unit {0})
  pub remove_all : Text → World → World × Answer (Unit {0})
  pub read_dir : Text → World → World × Answer (List Entry)
  -- the calls that fs.WalkDir makes, as long as its function returns no error
  pub walk_dir : Text → World → World × List Visit
  -- http.DetectContentType
  pub detect_content_type : Text → Text

pub data Doing : Type 0 where
  creating : Doing
  writing : Doing
  checking : Doing
  copying : Doing
  reading : Doing
  sniffing : Doing
  making_directory : Doing
  deleting_directory : Doing
  listing : Doing

pub data Error : Type 0 where
  file_not_found : Error
  wrapped : Doing → Text → Fault → Error
  joined : List (Text × Fault) → Error

pub data Result {ℓ} (A : Type ℓ) : Type ℓ where
  ok : A → Result A
  err : Error → Result A

unfoldable pub translate_err : Text → Fault → Error
translate_err p e = if e.not_exist then file_not_found else wrapped reading p e

abbrev pub on_failure {ℓ} : {A : Type ℓ} → (Fault → Error) → Answer A → Result A
on_failure f (replied x) = ok x
on_failure f (failed e) = err (f e)

abbrev pub answered {ℓ} : {W A : Type ℓ} → (Fault → Error) → W × Answer A → W × Result A
answered f (w, a) = (w, on_failure f a)

-- Going on after a step, unless it has failed.
abbrev pub and_then {ℓ} : {W A B : Type ℓ} → (W → A → W × Result B) → W × Result A → W × Result B
and_then next (w, err e) = (w, err e)
and_then next (w, ok x) = next w x

module _ (r : Root) where
  -- What a deferred Close does.
  abbrev pub closing : {A : Type 0} → r.File → r.World × A → r.World × A
  closing f (w, x) = (r.close f w, x)

  unfoldable pub ensure_parent_dir : Text → r.World → r.World × Result (Unit {0})
  ensure_parent_dir p w =
      if eq (dir_of p) (codes ".")
      then (w, ok tt)
      else answered (wrapped creating (dir_of p)) (r.mkdir_all (dir_of p) w)

  unfoldable pub put_at : Text → Text → r.World → r.World × Result (Unit {0})
  put_at p contents w =
      and_then
        (λ w u.
          and_then (λ w f. closing f (answered (wrapped writing p) (r.write_all f contents w)))
            (answered (wrapped creating p) (r.create p w)))
        (ensure_parent_dir p w)

  unfoldable pub put : Text → Text → r.World → r.World × Result (Unit {0})
  put p contents w = put_at (normalize p) contents w

  unfoldable pub put_string : Text → Text → r.World → r.World × Result (Unit {0})
  put_string p contents w = put p contents w

  unfoldable pub get : Text → r.World → r.World × Result Text
  get p w = answered (translate_err p) (r.read_file (normalize p) w)

  abbrev pub found : Text → r.World × Answer FileInfo → r.World × (Bool × Option Error)
  found p (w, replied i) = (w, (true, none))
  found p (w, failed e) = (w, (false, if e.not_exist then none else some (wrapped checking p e)))

  unfoldable pub exists : Text → r.World → r.World × (Bool × Option Error)
  exists p w = found p (r.stat (normalize p) w)

  abbrev pub negated : r.World × (Bool × Option Error) → r.World × (Bool × Option Error)
  negated (w, (b, e)) = (w, (not b, e))

  unfoldable pub missing : Text → r.World → r.World × (Bool × Option Error)
  missing p w = negated (exists p w)

  abbrev pub collected : Text → Answer (Unit {0}) → List (Text × Fault) → List (Text × Fault)
  collected p (replied u) errs = errs
  collected p (failed e) errs = if e.not_exist then errs else errs ++ (p, e) ∷ []

  unfoldable pub remove_loop :
      List Text → List (Text × Fault) → r.World → r.World × List (Text × Fault)
  remove_loop [] errs w = (w, errs)
  remove_loop (p ∷ ps) errs w =
      let removed = r.remove (normalize p) w in
      remove_loop ps (collected p removed.1 errs) removed.0

  abbrev pub join_errors : r.World × List (Text × Fault) → r.World × Result (Unit {0})
  join_errors (w, []) = (w, ok tt)
  join_errors (w, e ∷ es) = (w, err (joined (e ∷ es)))

  -- Every path is tried, and one that is not there is no error.
  unfoldable pub delete : List Text → r.World → r.World × Result (Unit {0})
  delete ps w = join_errors (remove_loop ps [] w)

  -- The target is closed before the source.
  unfoldable pub copy_at : Text → Text → r.World → r.World × Result (Unit {0})
  copy_at source target w =
      and_then
        (λ w src. closing src (
          and_then
            (λ w u.
              and_then
                (λ w dst. closing dst (answered (wrapped copying source) (r.copy_all dst src w)))
                (answered (wrapped creating target) (r.create target w)))
            (ensure_parent_dir target w)))
        (answered (translate_err source) (r.open_file source w))

  unfoldable pub copy : Text → Text → r.World → r.World × Result (Unit {0})
  copy source target w = copy_at (normalize source) (normalize target) w

  unfoldable pub move : Text → Text → r.World → r.World × Result (Unit {0})
  move source target w =
      and_then
        (λ w u.
          answered (translate_err (normalize source))
            (r.rename (normalize source) (normalize target) w))
        (ensure_parent_dir (normalize target) w)

  unfoldable pub size : Text → r.World → r.World × Result ℤ
  size p w = and_then (λ w i. (w, ok i.size)) (answered (translate_err p) (r.stat (normalize p) w))

  unfoldable pub last_modified : Text → r.World → r.World × Result ℕ
  last_modified p w =
      and_then (λ w i. (w, ok i.mod_time)) (answered (translate_err p) (r.stat (normalize p) w))

  unfoldable pub content_type : Text → r.World → r.World × Result Text
  content_type p w =
      and_then
        (λ w f. closing f (
          and_then (λ w bytes. (w, ok (r.detect_content_type bytes)))
            (answered (wrapped sniffing p) (r.read_full f 512 w))))
        (answered (translate_err p) (r.open_file (normalize p) w))

  unfoldable pub make_directory : Text → r.World → r.World × Result (Unit {0})
  make_directory p w = answered (wrapped making_directory p) (r.mkdir_all (normalize p) w)

  unfoldable pub delete_directory : Text → r.World → r.World × Result (Unit {0})
  delete_directory p w = answered (wrapped deleting_directory p) (r.remove_all (normalize p) w)
