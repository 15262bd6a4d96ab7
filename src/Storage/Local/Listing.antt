-- ===== src/Storage/Local/Listing.antt =====
-- storage/local/local.go: the listings of a directory.
use chandlery.Base.{Bool, true, false, not, ◌&&◌, none, some, List, [], ◌∷◌, ◌++◌, if◌then◌else◌}
use chandlery.Base.Text.{Text, eq}
use chandlery.Storage.Local.Path.{to_fs_path, join_path}
use chandlery.Storage.Local.{
  Fault, Answer, replied, failed, Entry, Visit, Root, wrapped, listing, Result, ok, err,
}

abbrev pub same : Bool → Bool → Bool
same true b = b
same false b = not b

abbrev pub children : Text → Bool → List Entry → List Text
children dir want_dirs [] = []
children dir want_dirs (e ∷ entries) =
    let rest = children dir want_dirs entries in
    if same e.is_dir want_dirs then join_path dir e.name ∷ rest else rest

-- A directory that is not there has nothing in it.
abbrev pub missing_or : Text → Fault → Result (List Text)
missing_or dir e = if e.not_exist then ok [] else err (wrapped listing dir e)

abbrev pub shallow : Text → Bool → Answer (List Entry) → Result (List Text)
shallow dir want_dirs (failed e) = missing_or dir e
shallow dir want_dirs (replied entries) = ok (children dir want_dirs entries)

-- The function that WalkDir calls, and WalkDir, which stops at its first error.
abbrev pub deep : Text → Text → Bool → List Visit → List Text → Result (List Text)
deep dir root want_dirs [] results = ok results
deep dir root want_dirs (v ∷ visits) results =
    let go_on = deep dir root want_dirs visits in
    elim v.error [
      | some e ↦ missing_or dir e
      | none ↦
          if same v.is_dir want_dirs && not (eq v.path root)
          then go_on (results ++ v.path ∷ [])
          else go_on results
    ]

module _ (r : Root) where
  unfoldable pub list_shallow : Text → Bool → r.World → r.World × Result (List Text)
  list_shallow dir want_dirs w =
      let read = r.read_dir (to_fs_path dir) w in (read.0, shallow dir want_dirs read.1)

  unfoldable pub list_deep : Text → Bool → r.World → r.World × Result (List Text)
  list_deep dir want_dirs w =
      let walked = r.walk_dir (to_fs_path dir) w in
      (walked.0, deep dir (to_fs_path dir) want_dirs walked.1 [])

  unfoldable pub files : Text → r.World → r.World × Result (List Text)
  files dir w = list_shallow dir false w

  unfoldable pub all_files : Text → r.World → r.World × Result (List Text)
  all_files dir w = list_deep dir false w

  unfoldable pub directories : Text → r.World → r.World × Result (List Text)
  directories dir w = list_shallow dir true w

  unfoldable pub all_directories : Text → r.World → r.World × Result (List Text)
  all_directories dir w = list_deep dir true w
