-- ===== src/Storage/Local/Copied.antt =====
-- storage/local/local.go: what Copy leaves of the two files.
use chandlery.Base.{◌≡◌, refl, subst, ◌∙◌, Bool, true, false, Option, some, [], if◌then◌else◌}
use chandlery.Base.Text.{Text, codes, eq}
use chandlery.Storage.Local.Path.{normalize, dir_of}
use chandlery.Storage.Local.{
  Answer, replied, failed, Root, wrapped, creating, copying, Result, ok, err, on_failure, answered,
  translate_err, and_then, closing, ensure_parent_dir, copy_at, copy,
}

-- What the disk relies on of the file system. A file is `at_start` of a path when it is open on that
-- path, and nothing of it is read or written yet. Opening and closing a file, and making
-- directories, change no content; creating a file empties it, and it alone, under every path that
-- names it; io.Copy gives the target what the source has by then.
pub record IsFileSystem (r : Root) (same_file : Text → Text → Bool)
    (content : Text → r.World → Option Text) (at_start : r.File → Text → r.World → Type 0)
    : Type 0 where
  pub opened :
      (p : Text) (w : r.World) (f : r.File)
      → (r.open_file p w).1 ≡ replied f
      → at_start f p (r.open_file p w).0
  pub open_content : (p q : Text) (w : r.World) → content q (r.open_file p w).0 ≡ content q w
  pub created :
      (p : Text) (w : r.World) (f : r.File)
      → (r.create p w).1 ≡ replied f
      → at_start f p (r.create p w).0
  pub create_keeps :
      (f : r.File) (p q : Text) (w : r.World) → at_start f p w → at_start f p (r.create q w).0
  pub create_content :
      (p q : Text) (w : r.World) (f : r.File)
      → (r.create p w).1 ≡ replied f
      → content q (r.create p w).0 ≡ (if same_file q p then some [] else content q w)
  pub close_content : (f : r.File) (q : Text) (w : r.World) → content q (r.close f w) ≡ content q w
  pub mkdir_keeps :
      (f : r.File) (p q : Text) (w : r.World) → at_start f p w → at_start f p (r.mkdir_all q w).0
  pub mkdir_content : (p q : Text) (w : r.World) → content q (r.mkdir_all p w).0 ≡ content q w
  pub copy_content :
      (dst src : r.File) (q p : Text) (w : r.World)
      → at_start dst q w
      → at_start src p w
      → (r.copy_all dst src w).1 ≡ replied tt
      → content q (r.copy_all dst src w).0 ≡ content p w

module _ (r : Root) (same_file : Text → Text → Bool) (content : Text → r.World → Option Text)
    (at_start : r.File → Text → r.World → Type 0) (law : IsFileSystem r same_file content at_start)
    (p q : Text) where
  -- What a success leaves of the target.
  abbrev Leaves : Option Text → r.World × Result (Unit {0}) → Type 0
  Leaves v (w, ok u) = content q w ≡ v
  Leaves v (w, err e) = Unit {0}

  abbrev emptied : Option Text → Option Text
  emptied v = if same_file p q then some [] else v

  Leaves-closing :
      (f : r.File) (v : Option Text) (x : r.World × Result (Unit {0}))
      → Leaves v x
      → Leaves v (closing r f x)
  Leaves-closing f v (w, ok u) l = law.close_content f q w ∙ l
  Leaves-closing f v (w, err e) l = tt

  copied-Leaves :
      (src dst : r.File) (w : r.World)
      → at_start src p w
      → at_start dst q w
      → Leaves (content p w) (answered (wrapped copying p) (r.copy_all dst src w))
  copied-Leaves src dst w s d = from (r.copy_all dst src w).1 refl
    where
      from :
          (a : Answer (Unit {0}))
          → (r.copy_all dst src w).1 ≡ a
          → Leaves (content p w) ((r.copy_all dst src w).0, on_failure (wrapped copying p) a)
      from (failed x) h = tt
      from (replied u) h = law.copy_content dst src q p w d s h

  -- Copy from the creation of the target on.
  abbrev filled : r.File → r.World → r.World × Result (Unit {0})
  filled src w =
      and_then (λ w dst. closing r dst (answered (wrapped copying p) (r.copy_all dst src w)))
        (answered (wrapped creating q) (r.create q w))

  filled-Leaves :
      (src : r.File) (w : r.World)
      → at_start src p w
      → Leaves (emptied (content p w)) (filled src w)
  filled-Leaves src w s = from (r.create q w).1 refl
    where
      from :
          (a : Answer r.File)
          → (r.create q w).1 ≡ a
          → Leaves (emptied (content p w)) (
              and_then
                (λ w dst. closing r dst (answered (wrapped copying p) (r.copy_all dst src w)))
                ((r.create q w).0, on_failure (wrapped creating q) a))
      from (failed x) h = tt
      from (replied dst) h = Leaves-closing dst _ _ (
          subst (λ v. Leaves v (answered (wrapped copying p) (r.copy_all dst src (r.create q w).0)))
            (law.create_content q p w dst h)
            (copied-Leaves src dst _ (law.create_keeps src p q w s) (law.created q w dst h)))

  abbrev placed : r.File → r.World × Result (Unit {0}) → r.World × Result (Unit {0})
  placed src x = and_then (λ w u. filled src w) x

  placed-Leaves :
      (src : r.File) (w : r.World)
      → at_start src p w
      → Leaves (emptied (content p w)) (placed src (ensure_parent_dir r q w))
  unfolding ensure_parent_dir
  placed-Leaves src w s = from (eq (dir_of q) (codes ".")) (r.mkdir_all (dir_of q) w).1
    where
      from :
          (b : Bool) (a : Answer (Unit {0}))
          → Leaves (emptied (content p w)) (
              placed src (
                if b
                then (w, ok tt)
                else ((r.mkdir_all (dir_of q) w).0, on_failure (wrapped creating (dir_of q)) a)))
      from true a = filled-Leaves src w s
      from false (failed x) = tt
      from false (replied u) =
          subst (λ v. Leaves (emptied v) (filled src (r.mkdir_all (dir_of q) w).0))
            (law.mkdir_content (dir_of q) p w)
            (filled-Leaves src _ (law.mkdir_keeps src p (dir_of q) w s))

  copy_at-Leaves : (w : r.World) → Leaves (emptied (content p w)) (copy_at r p q w)
  unfolding copy_at
  copy_at-Leaves w = from (r.open_file p w).1 refl
    where
      from :
          (a : Answer r.File)
          → (r.open_file p w).1 ≡ a
          → Leaves (emptied (content p w)) (
              and_then
                (λ w src. closing r src (placed src (ensure_parent_dir r q w)))
                ((r.open_file p w).0, on_failure (translate_err p) a))
      from (failed x) h = tt
      from (replied src) h = Leaves-closing src _ _ (
          subst (λ v. Leaves (emptied v) (placed src (ensure_parent_dir r q (r.open_file p w).0)))
            (law.open_content p p w) (placed-Leaves src _ (law.opened p w src h)))

-- When Copy succeeds, and package os is as `IsFileSystem` says, the target has the content that the
-- source had, unless the two paths name one file: then it is empty.
pub copy-content :
    (r : Root) (same_file : Text → Text → Bool) (content : Text → r.World → Option Text)
    (at_start : r.File → Text → r.World → Type 0) (law : IsFileSystem r same_file content at_start)
    (source target : Text) (w w' : r.World)
    → copy r source target w ≡ (w', ok tt)
    → content (normalize target) w' ≡ (
        if same_file (normalize source) (normalize target)
        then some []
        else content (normalize source) w)
unfolding copy
copy-content r same_file content at_start law source target w w' h =
    subst
      (Leaves r same_file content at_start law (normalize source) (normalize target) (
        emptied r same_file content at_start law (normalize source) (normalize target)
          (content (normalize source) w)))
      h (copy_at-Leaves r same_file content at_start law (normalize source) (normalize target) w)
