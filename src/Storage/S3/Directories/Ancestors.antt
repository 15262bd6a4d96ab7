-- ===== src/Storage/S3/Directories/Ancestors.antt =====
-- storage/s3/s3.go: which directories AllDirectories gives.
use chandlery.Base.{
  ◌≡◌, refl, sym, ap, ◌∙◌, Bool, true, false, not, ◌&&◌, ◌||◌, List, [], ◌∷◌, ◌++◌, if◌then◌else◌,
  arith, any, map, append_assoc, append-nil,
}
use chandlery.Base.Text.{Text, is_empty, eq, eq_refl, eq→≡, has_prefix}
use chandlery.Base.Text.Parts.{
  slash, has_suffix, trim_suffix, trim, member, proper_parts, member-proper_parts,
}
use chandlery.Base.Text.Order.{member-sort, ascending, distinct, ascending-sort}
use chandlery.Base.Text.Suffix.{
  trim_suffix_append, trim_suffix_none, has_prefix-snoc, member-append,
}
use chandlery.Storage.S3.{Disk, ObjectInfo, unkey, Client, Result, ok, err, replied}
use chandlery.Storage.S3.Directories.{
  slashed, add, add_all, added_for, directories_loop, directories_of, gather, each, list_prefix,
  list, all_directories,
}

-- A directory that the disk has for this listing: named, below the prefix asked for, and with an
-- object whose path goes on after it and a slash.
abbrev is_wanted : Text → Text → Bool
is_wanted dir_prefix x = not (is_empty x) && has_prefix x dir_prefix

abbrev pub holds_object : Disk → List ObjectInfo → Text → Bool
holds_object d items x = any (λ i. has_prefix (unkey d i.key) (x ++ slash ∷ [])) items

member-add :
    (x dir_prefix : Text) (dirs : List Text) (p : Text)
    → member x (add dir_prefix dirs p) ≡ (member x dirs || eq x p && is_wanted dir_prefix x)
unfolding add
member-add x dir_prefix dirs p = ground (arith, eq→≡ x p, member-append x dirs (p ∷ []))

member-add_all :
    (x dir_prefix : Text) (dirs ps : List Text)
    → member x (add_all dir_prefix dirs ps)
      ≡ (member x dirs || member x ps && is_wanted dir_prefix x)
member-add_all x dir_prefix dirs [] = ground arith
member-add_all x dir_prefix dirs (p ∷ ps) =
    ground (
      arith,
      member-add_all x dir_prefix (add dir_prefix dirs p) ps,
      member-add x dir_prefix dirs p,
    )

abbrev parts_of : Text → List Text
parts_of rel = if is_empty rel then [] else proper_parts rel slash

abbrev marker_parts : Text → List Text
marker_parts rel = if is_empty rel then [] else proper_parts rel slash ++ rel ∷ []

member-parts_of : (x rel : Text) → member x (parts_of rel) ≡ has_prefix rel (x ++ slash ∷ [])
unfolding has_prefix
member-parts_of [] [] = refl
member-parts_of (e ∷ x) [] = refl
member-parts_of x (c ∷ rel) = member-proper_parts x (c ∷ rel) slash

member-marker_parts :
    (x rel : Text)
    → is_empty x ≡ false
    → member x (marker_parts rel) ≡ has_prefix (rel ++ slash ∷ []) (x ++ slash ∷ [])
unfolding has_prefix eq
member-marker_parts [] rel h = cc
member-marker_parts (e ∷ x) [] h = ground (arith, has_prefix-snoc [] (e ∷ x) slash)
member-marker_parts (e ∷ x) (c ∷ rel) h =
    member-append (e ∷ x) (proper_parts (c ∷ rel) slash) ((c ∷ rel) ∷ [])
    ∙ ground (
      arith,
      member-proper_parts (e ∷ x) (c ∷ rel) slash,
      has_prefix-snoc (c ∷ rel) (e ∷ x) slash,
    )

added_for-marker :
    (name : Text)
    → has_suffix name slash ≡ true
    → added_for name ≡ marker_parts (trim_suffix name slash)
unfolding added_for
added_for-marker name h = ground arith

added_for-file : (name : Text) → has_suffix name slash ≡ false → added_for name ≡ parts_of name
unfolding added_for
added_for-file name h = ground (arith, trim_suffix_none name slash)

member-added_for :
    (x name : Text)
    → is_empty x ≡ false
    → member x (added_for name) ≡ has_prefix name (x ++ slash ∷ [])
member-added_for x name h = ground (
  arith,
  added_for-marker name,
  added_for-file name,
  member-parts_of x name,
  member-marker_parts x (trim_suffix name slash),
  trim_suffix_append name slash,
)

member-directories_loop :
    (x dir_prefix : Text) (d : Disk) (items : List ObjectInfo) (dirs : List Text)
    → member x (directories_loop dir_prefix d items dirs)
      ≡ (member x dirs || is_wanted dir_prefix x && holds_object d items x)
member-directories_loop x dir_prefix d [] dirs = ground arith
member-directories_loop x dir_prefix d (i ∷ items) dirs = ground (
  arith,
  member-directories_loop x dir_prefix d items
      (add_all dir_prefix dirs (added_for (unkey d i.key))),
  member-add_all x dir_prefix dirs (added_for (unkey d i.key)),
  member-added_for x (unkey d i.key),
)

-- AllDirectories gives exactly the paths, not empty and below the directory asked for, that an
-- object of the listing has its key below.
pub member-directories_of :
    (d : Disk) (dir : Text) (items : List ObjectInfo) (x : Text)
    → member x (directories_of d dir items)
      ≡ (not (is_empty x) && has_prefix x (slashed (trim dir slash)) && holds_object d items x)
unfolding directories_of
member-directories_of d dir items x = ground (
  arith,
  member-sort x (directories_loop (slashed (trim dir slash)) d items []),
  member-directories_loop x (slashed (trim dir slash)) d items [],
)

distinct-snoc :
    (xs : List Text) (p : Text)
    → distinct xs ≡ true
    → member p xs ≡ false
    → distinct (xs ++ p ∷ []) ≡ true
distinct-snoc [] p h k = refl
distinct-snoc (x ∷ xs) p h k =
    ground (arith, distinct-snoc xs p, member-append x xs (p ∷ []), eq→≡ x p, eq_refl x)

distinct-add :
    (dir_prefix : Text) (dirs : List Text) (p : Text)
    → distinct dirs ≡ true
    → distinct (add dir_prefix dirs p) ≡ true
unfolding add
distinct-add dir_prefix dirs p h = ground (arith, distinct-snoc dirs p)

distinct-add_all :
    (dir_prefix : Text) (dirs ps : List Text)
    → distinct dirs ≡ true
    → distinct (add_all dir_prefix dirs ps) ≡ true
distinct-add_all dir_prefix dirs [] h = h
distinct-add_all dir_prefix dirs (p ∷ ps) h =
    distinct-add_all dir_prefix (add dir_prefix dirs p) ps (distinct-add dir_prefix dirs p h)

distinct-directories_loop :
    (dir_prefix : Text) (d : Disk) (items : List ObjectInfo) (dirs : List Text)
    → distinct dirs ≡ true
    → distinct (directories_loop dir_prefix d items dirs) ≡ true
distinct-directories_loop dir_prefix d [] dirs h = h
distinct-directories_loop dir_prefix d (i ∷ items) dirs h =
    distinct-directories_loop dir_prefix d items
      (add_all dir_prefix dirs (added_for (unkey d i.key)))
      (distinct-add_all dir_prefix dirs (added_for (unkey d i.key)) h)

-- AllDirectories gives its paths in strictly ascending order, so that none comes twice.
pub ascending-directories_of :
    (d : Disk) (dir : Text) (items : List ObjectInfo)
    → ascending (directories_of d dir items) ≡ true
unfolding directories_of
ascending-directories_of d dir items =
    ascending-sort (directories_loop (slashed (trim dir slash)) d items [])
      (distinct-directories_loop (slashed (trim dir slash)) d items [] refl)

-- A listing that gives a path, and one that gives its paths in strictly ascending order.
abbrev pub gives : Text → Result (List Text) → Bool
gives x (ok ps) = member x ps
gives x (err e) = false

abbrev pub is_ascending : Result (List Text) → Bool
is_ascending (ok ps) = ascending ps
is_ascending (err e) = false

gather-replied :
    (dir : Text) (items seen : List ObjectInfo)
    → gather dir (map replied items) seen ≡ ok (seen ++ items)
gather-replied dir [] seen = ap ok (sym (append-nil seen))
gather-replied dir (i ∷ items) seen =
    gather-replied dir items (seen ++ i ∷ []) ∙ ap ok (append_assoc seen (i ∷ []) items)

all_directories-result :
    (c : Client) (d : Disk) (dir : Text) (w : c.World) (items : List ObjectInfo)
    → (c.range (c.list_objects_iter d.bucket (list_prefix d dir) true) w).1 ≡ map replied items
    → (all_directories c d dir w).1 ≡ ok (directories_of d dir items)
unfolding all_directories list
all_directories-result c d dir w items h =
    ap
      (λ r.
        (each (directories_of d dir)
          ((c.range (c.list_objects_iter d.bucket (list_prefix d dir) true) w).0, r)).1)
      (ap (λ answers. gather dir answers []) h ∙ gather-replied dir items [])

-- When the listing ends without an error, AllDirectories gives exactly the paths, not empty and
-- below the directory asked for, that an object of the listing has its path below, and it gives them
-- in strictly ascending order.
pub all_directories-exact :
    (c : Client) (d : Disk) (dir : Text) (w : c.World) (items : List ObjectInfo)
    → (c.range (c.list_objects_iter d.bucket (list_prefix d dir) true) w).1 ≡ map replied items
    → (x : Text)
    → (gives x (all_directories c d dir w).1
        ≡ (not (is_empty x) && has_prefix x (slashed (trim dir slash)) && holds_object d items x))
      × (is_ascending (all_directories c d dir w).1 ≡ true)
all_directories-exact c d dir w items h x =
    let e = all_directories-result c d dir w items h in
    (
      ap (gives x) e ∙ member-directories_of d dir items x,
      ap is_ascending e ∙ ascending-directories_of d dir items,
    )
