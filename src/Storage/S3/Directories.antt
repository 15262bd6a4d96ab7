-- ===== src/Storage/S3/Directories.antt =====
-- storage/s3/s3.go: directories and listings.
pub mod Ancestors
use chandlery.Base.{
  ℕ, Bool, true, false, not, ◌&&◌, Option, none, some, List, [], ◌∷◌, ◌++◌, map, if◌then◌else◌,
}
use chandlery.Base.Text.{Text, is_empty, has_prefix}
use chandlery.Base.Text.Parts.{slash, has_suffix, trim_suffix, trim, proper_parts, member}
use chandlery.Base.Text.Order.{sort}
use chandlery.Storage.S3.{
  Disk, Fault, Answer, replied, failed, ObjectInfo, Client, Error, no_prefix, joined_at, wrapped,
  making_directory, deleting_directory, listing, Result, ok, err, key, unkey, answered,
}

abbrev pub dir_key : Disk → Text → Text
dir_key d p = trim_suffix (key d p) slash ++ slash ∷ []

abbrev pub slashed : Text → Text
slashed [] = []
slashed (x ∷ s) = (x ∷ s) ++ slash ∷ []

-- The prefix that list asks for.
unfoldable pub list_prefix : Disk → Text → Text
list_prefix d dir = slashed (trim_suffix (key d dir) slash)

-- The loop of list over what the iterator gives.
abbrev pub gather : Text → List (Answer ObjectInfo) → List ObjectInfo → Result (List ObjectInfo)
gather dir [] items = ok items
gather dir (failed e ∷ rest) items = err (wrapped listing dir e)
gather dir (replied i ∷ rest) items = gather dir rest (items ++ i ∷ [])

abbrev pub file_paths : Disk → List ObjectInfo → List Text
file_paths d [] = []
file_paths d (i ∷ items) =
    let rest = file_paths d items in if has_suffix i.key slash then rest else unkey d i.key ∷ rest

abbrev pub directory_paths : Disk → List ObjectInfo → List Text
directory_paths d [] = []
directory_paths d (i ∷ items) =
    let rest = directory_paths d items in
    if has_suffix i.key slash then trim_suffix (unkey d i.key) slash ∷ rest else rest

-- add, in AllDirectories: dirs is also what has been seen.
unfoldable pub add : Text → List Text → Text → List Text
add dir_prefix dirs p =
    if not (is_empty p) && has_prefix p dir_prefix && not (member p dirs)
    then dirs ++ p ∷ []
    else dirs

abbrev pub add_all : Text → List Text → List Text → List Text
add_all dir_prefix dirs [] = dirs
add_all dir_prefix dirs (p ∷ ps) = add_all dir_prefix (add dir_prefix dirs p) ps

-- What the loop body adds for an object of this name below the disk's prefix.
unfoldable pub added_for : Text → List Text
added_for name =
    let rel = trim_suffix name slash in
    if is_empty rel
    then []
    else if has_suffix name slash
    then proper_parts rel slash ++ rel ∷ []
    else proper_parts rel slash

abbrev pub directories_loop : Text → Disk → List ObjectInfo → List Text → List Text
directories_loop dir_prefix d [] dirs = dirs
directories_loop dir_prefix d (i ∷ items) dirs =
    directories_loop dir_prefix d items (add_all dir_prefix dirs (added_for (unkey d i.key)))

-- All of AllDirectories but the listing.
unfoldable pub directories_of : Disk → Text → List ObjectInfo → List Text
directories_of d dir items = sort (directories_loop (slashed (trim dir slash)) d items [])

abbrev pub each {ℓ} : {W A B : Type ℓ} → (A → B) → W × Result A → W × Result B
each f (w, err e) = (w, err e)
each f (w, ok x) = (w, ok (f x))

abbrev pub errors_of : List (Text × Option Fault) → List (Text × Fault)
errors_of [] = []
errors_of ((name, none) ∷ rest) = errors_of rest
errors_of ((name, some e) ∷ rest) = (name, e) ∷ errors_of rest

abbrev pub join_results : Text → List (Text × Fault) → Result (Unit {0})
join_results p [] = ok tt
join_results p (e ∷ es) = err (joined_at p (e ∷ es))

module _ (c : Client) where
  unfoldable pub make_directory : Disk → Text → c.World → c.World × Result (Unit {0})
  make_directory d p w =
      answered (wrapped making_directory p) (c.put_object d.bucket (dir_key d p) [] [] w)

  abbrev pub deleted :
      Text → c.World × Answer (List (Text × Option Fault)) → c.World × Result (Unit {0})
  deleted p (w, failed e) = (w, err (wrapped deleting_directory p e))
  deleted p (w, replied results) = (w, join_results p (errors_of results))

  unfoldable pub delete_directory : Disk → Text → c.World → c.World × Result (Unit {0})
  delete_directory d p w =
      if is_empty d.prefix
      then (w, err no_prefix)
      else deleted p
          (c.remove_objects_with_iter d.bucket (c.list_objects_iter d.bucket (dir_key d p) true) w)

  abbrev pub gathered :
      Text → c.World × List (Answer ObjectInfo) → c.World × Result (List ObjectInfo)
  gathered dir (w, answers) = (w, gather dir answers [])

  unfoldable pub list : Disk → Text → Bool → c.World → c.World × Result (List ObjectInfo)
  list d dir recursive w =
      gathered dir (c.range (c.list_objects_iter d.bucket (list_prefix d dir) recursive) w)

  unfoldable pub files : Disk → Text → c.World → c.World × Result (List Text)
  files d dir w = each (file_paths d) (list d dir false w)

  unfoldable pub all_files : Disk → Text → c.World → c.World × Result (List Text)
  all_files d dir w = each (file_paths d) (list d dir true w)

  unfoldable pub directories : Disk → Text → c.World → c.World × Result (List Text)
  directories d dir w = each (directory_paths d) (list d dir false w)

  unfoldable pub all_directories : Disk → Text → c.World → c.World × Result (List Text)
  all_directories d dir w = each (directories_of d dir) (list d dir true w)
