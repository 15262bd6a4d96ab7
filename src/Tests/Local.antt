-- ===== src/Tests/Local.antt =====
-- A run of the Copy of storage/local on a small directory, and the witness of its theorem.
use chandlery.Base.{◌≡◌, refl, sym, subst, ap, ◌∙◌, true, Option, none, some, [], if◌then◌else◌}
use chandlery.Base.Text.{Text, codes, eq, eq_refl, trim_prefix}
use chandlery.Base.Text.Parts.{split}
use chandlery.Storage.Local.Path.{normalize, dir_of, clean}
use chandlery.Storage.Local.{
  Fault, Answer, replied, failed, Root, ok, copy, copy_at, ensure_parent_dir,
}
use chandlery.Storage.Local.Copied.{IsFileSystem, copy-content}

abbrev Files : Type 0
Files = Text → Option Text

abbrev no_such_file : Fault
no_such_file = record { not_exist = true; message = [] }

abbrev opened_at : Text → Option Text → Answer Text
opened_at p none = failed no_such_file
opened_at p (some v) = replied p

abbrev assigned : Text → Option Text → Files → Files
assigned p v m q = if eq q p then v else m q

-- Files as a map of names to contents, with directories as they are wanted.
abbrev directory : Root
directory = record {
  World = Files;
  File = Text;
  create = λ p m. (assigned p (some []) m, replied p);
  open_file = λ p m. (m, opened_at p (m p));
  close = λ f m. m;
  write_all = λ f v m. (assigned f (some v) m, replied tt);
  copy_all = λ dst src m. (assigned dst (m src) m, replied tt);
  read_full = λ f n m. (m, failed no_such_file);
  read_file = λ p m. (m, failed no_such_file);
  stat = λ p m. (m, failed no_such_file);
  remove = λ p m. (assigned p none m, replied tt);
  rename = λ p q m. (m, failed no_such_file);
  mkdir_all = λ p m. (m, replied tt);
  remove_all = λ p m. (m, replied tt);
  read_dir = λ p m. (m, replied []);
  walk_dir = λ p m. (m, []);
  detect_content_type = λ bytes. codes "text/plain";
}

abbrev contents_of : Text → Files → Option Text
contents_of p m = m p

abbrev IsOf : Text → Text → Files → Type 0
IsOf f p m = f ≡ p

opened_at-path : (p : Text) (o : Option Text) (f : Text) → opened_at p o ≡ replied f → f ≡ p
opened_at-path p none f h = cc
opened_at-path p (some v) f h = cc

created-path : (p f : Text) → replied p ≡ replied f → f ≡ p
created-path p f h = cc

assigned-at : (m : Files) (dst src q p : Text) → dst ≡ q → src ≡ p → assigned dst (m src) m q ≡ m p
assigned-at m dst src q p d s =
    ap (λ b. if b then m src else m q) (subst (λ x. eq q x ≡ true) (sym d) (eq_refl q)) ∙ ap m s

directory-IsFileSystem : IsFileSystem directory eq contents_of IsOf
directory-IsFileSystem = record {
  opened = λ p m f h. opened_at-path p (m p) f h;
  open_content = λ p q m. refl;
  created = λ p m f h. created-path p f h;
  create_keeps = λ f p q m h. h;
  create_content = λ p q m f h. refl;
  close_content = λ f q m. refl;
  mkdir_keeps = λ f p q m h. h;
  mkdir_content = λ p q m. refl;
  copy_content = λ dst src q p m d s h. assigned-at m dst src q p d s;
}

abbrev one_file : Files
one_file = assigned (codes "a.txt") (some (codes "hello")) (λ q. none)

abbrev two_files : Files
two_files =
    assigned (codes "b/c.txt") (some (codes "hello"))
      (assigned (codes "b/c.txt") (some []) one_file)

abbrev emptied_file : Files
emptied_file = assigned (codes "a.txt") (some []) (assigned (codes "a.txt") (some []) one_file)

copied_apart : copy directory (codes "a.txt") (codes "/b/c.txt") one_file ≡ (two_files, ok tt)
unfolding copy copy_at eq normalize trim_prefix ensure_parent_dir dir_of clean split
copied_apart = refl

copy-content_example : two_files (codes "b/c.txt") ≡ some (codes "hello")
unfolding normalize eq trim_prefix
copy-content_example =
    copy-content directory eq contents_of IsOf directory-IsFileSystem (codes "a.txt")
      (codes "/b/c.txt") one_file two_files copied_apart

copied_onto_itself :
    copy directory (codes "a.txt") (codes "/a.txt") one_file ≡ (emptied_file, ok tt)
unfolding copy copy_at eq normalize trim_prefix ensure_parent_dir dir_of clean split
copied_onto_itself = refl
