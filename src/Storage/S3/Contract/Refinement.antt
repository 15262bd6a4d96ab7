-- ===== src/Storage/S3/Contract/Refinement.antt =====
-- storage/s3/s3.go: a disk answers as the map of paths to contents does.
use chandlery.Base.{
  ◌≡◌, refl, sym, ap, subst, ap₂, ◌∙◌, true, false, not, Option, none, some, List, [], ◌∷◌, ◌++◌,
  if◌then◌else◌, arith, all,
}
use chandlery.Base.Text.{Text, eq, eq→≡}
use chandlery.Base.Text.Suffix.{eq-append}
use chandlery.Storage.S3.{
  Disk, Fault, ObjectInfo, Client, file_not_found, Result, ok, err, key, putting, wrapped,
  is_not_found, translate_err, answered, on_failure,
}
use chandlery.Storage.S3.Objects
use chandlery.Storage.S3.Objects.{read, found, collected, remove_loop, join_errors, moved}
use chandlery.Storage.S3.Contract.{
  Call, put, get, exists, missing, delete, copy, move, Reply, done, contents, flag, call, replies,
  Files, path, assign, removed, content_of, is_some, copied, relocated, ideal, ideal_replies, apart,
  read_answer, stat_answer, copy_answer, over, IsHealthy,
}

on_failure-read :
    (p : Text) (x : Option Text) → on_failure (translate_err p) (read_answer x) ≡ content_of x
unfolding translate_err is_not_found eq
on_failure-read p none = refl
on_failure-read p (some v) = refl

abbrev copy_result : Option Text → Result (Unit {0})
copy_result none = err file_not_found
copy_result (some v) = ok tt

on_failure-copy :
    (p : Text) (x : Option Text) → on_failure (translate_err p) (copy_answer x) ≡ copy_result x
unfolding translate_err is_not_found eq
on_failure-copy p none = refl
on_failure-copy p (some v) = refl

copied-reply :
    (target : Text) (x : Option Text) (m : Files) → (copied target x m).1 ≡ done (copy_result x)
copied-reply target none m = refl
copied-reply target (some v) m = refl

relocated-reply :
    (source target : Text) (x : Option Text) (m : Files)
    → (relocated source target x m).1 ≡ done (copy_result x)
relocated-reply source target none m = refl
relocated-reply source target (some v) m = refl

copied-files :
    (target : Text) (x : Option Text) (m : Files) (q : Text)
    → (copied target x m).0 q ≡ (if eq q (path target) then over x (m (path target)) else m q)
copied-files target none m q = ground (arith, eq→≡ q (path target))
copied-files target (some v) m q = refl

module _ (c : Client) (content : Text → Text → c.World → Option Text)
    (opened : Text → Text → c.Object) (info : Text → Text → c.World → ObjectInfo)
    (law : IsHealthy c content opened info) (d : Disk) where
  -- The disk holds these files.
  abbrev Holds : c.World → Files → Type 0
  Holds w m = (q : Text) → content d.bucket (d.prefix ++ q) w ≡ m q

  put-Holds :
      (p v t : Text) (w : c.World) (m : Files)
      → Holds w m
      → Holds (c.put_object d.bucket (key d p) v t w).0 (assign (path p) (some v) m)
  unfolding key
  put-Holds p v t w m h q = ground (
    arith,
    h q,
    eq→≡ q (path p),
    eq-append d.prefix q (path p),
    law.put_content d.bucket (key d p) v t w,
    law.isolated.put_object d.bucket (key d p) v t d.bucket (d.prefix ++ q) w,
  )

  remove-Holds :
      (p : Text) (w : c.World) (m : Files)
      → Holds w m
      → Holds (c.remove_object d.bucket (key d p) w).0 (assign (path p) none m)
  unfolding key
  remove-Holds p w m h q = ground (
    arith,
    h q,
    eq→≡ q (path p),
    eq-append d.prefix q (path p),
    law.remove_content d.bucket (key d p) w,
    law.isolated.remove_object d.bucket (key d p) d.bucket (d.prefix ++ q) w,
  )

  found-stat :
      (p : Text) (i : ObjectInfo) (x : Option Text) (w : c.World)
      → found c p (w, stat_answer i x) ≡ (w, (is_some x, none))
  unfolding is_not_found eq
  found-stat p i none w = refl
  found-stat p i (some v) w = refl

  -- The state holds the files, and the result is this one.
  abbrev Agrees : {A : Type 0} → c.World × A → A → Files → Type 0
  Agrees r x m = (r.1 ≡ x) × Holds r.0 m

  carried :
      {A : Type 0} (r s : c.World × A) (x : A) (m : Files) → r ≡ s → Agrees s x m → Agrees r x m
  carried r s x m e k = subst (λ r. Agrees r x m) (sym e) k

  remove_loop-ideal :
      (ps : List Text) (w : c.World) (m : Files)
      → Holds w m
      → Agrees (remove_loop c d ps [] w) [] (removed ps m)
  unfolding Objects.remove_loop
  remove_loop-ideal [] w m h = (refl, h)
  remove_loop-ideal (p ∷ ps) w m h =
      let w' = (c.remove_object d.bucket (key d p) w).0 in
      carried _ (remove_loop c d ps [] w') [] (removed (p ∷ ps) m)
        (ap (λ a. remove_loop c d ps (collected c p a []) w')
          (law.remove_object d.bucket (key d p) w))
        (remove_loop-ideal ps w' (assign (path p) none m) (remove-Holds p w m h))

  delete-ideal :
      (ps : List Text) (w : c.World) (m : Files)
      → Holds w m
      → Agrees (Objects.delete c d ps w) (ok tt) (removed ps m)
  unfolding Objects.delete
  delete-ideal ps w m h = from (remove_loop c d ps [] w) (remove_loop-ideal ps w m h)
    where
      from :
          (r : c.World × List (Text × Fault))
          → Agrees r [] (removed ps m)
          → Agrees (join_errors c r) (ok tt) (removed ps m)
      from (w, []) k = (refl, k.1)
      from (w, e ∷ es) k = cc

  get-ideal :
      (p : Text) (w : c.World) (m : Files)
      → Holds w m
      → Agrees (Objects.get c d p w) (content_of (m (path p))) m
  unfolding Objects.get key
  get-ideal p w m h =
      let w' = (c.get_object d.bucket (key d p) w).0 in
      carried _ (answered (translate_err p) (c.read_all (opened d.bucket (key d p)) w'))
        (content_of (m (path p))) m
        (ap (λ a. read c p (w', a)) (law.get_object d.bucket (key d p) w))
        (
          ap (on_failure (translate_err p)) (
                law.read_all d.bucket (key d p) w'
                ∙ ap read_answer (law.isolated.get_object _ _ _ _ w ∙ h (path p)))
              ∙ on_failure-read p (m (path p)),
          λ q. law.isolated.read_all _ _ _ w' ∙ law.isolated.get_object _ _ _ _ w ∙ h q,
        )

  exists-ideal :
      (p : Text) (w : c.World) (m : Files)
      → Holds w m
      → Agrees (Objects.exists c d p w) (is_some (m (path p)), none) m
  unfolding Objects.exists key
  exists-ideal p w m h =
      let w' = (c.stat_object d.bucket (key d p) w).0 in
      carried _ (w', (is_some (m (path p)), none)) (is_some (m (path p)), none) m
        (ap (λ a. found c p (w', a))
            (law.stat_object d.bucket (key d p) w
              ∙ ap (stat_answer (info d.bucket (key d p) w)) (h (path p)))
          ∙ found-stat p (info d.bucket (key d p) w) (m (path p)) w')
        (refl, λ q. law.isolated.stat_object _ _ _ _ w ∙ h q)

  copy-ideal :
      (source target : Text) (w : c.World) (m : Files)
      → eq (path source) (path target) ≡ false
      → Holds w m
      → Agrees
          (Objects.copy c d source target w)
          (copy_result (m (path source)))
          (copied target (m (path source)) m).0
  unfolding Objects.copy key
  copy-ideal source target w m a h = (
    ap (on_failure (translate_err source)) (
          law.copy_object d.bucket (key d source) (key d target) w
            (eq-append d.prefix (path source) (path target) ∙ a)
          ∙ ap copy_answer (h (path source)))
        ∙ on_failure-copy source (m (path source)),
    λ q. ground (
      arith,
      copied-files target (m (path source)) m q,
      h q,
      h (path source),
      h (path target),
      eq→≡ q (path target),
      eq-append d.prefix q (path target),
      eq-append d.prefix (path source) (path target),
      law.copy_content d.bucket (key d source) (key d target) w,
      law.isolated.copy_object d.bucket (key d source) (key d target) d.bucket (d.prefix ++ q) w,
    ),
  )

  move-ideal :
      (source target : Text) (w : c.World) (m : Files)
      → eq (path source) (path target) ≡ false
      → Holds w m
      → Agrees
          (Objects.move c d source target w)
          (copy_result (m (path source)))
          (relocated source target (m (path source)) m).0
  unfolding Objects.move
  move-ideal source target w m a h =
      from (m (path source)) (Objects.copy c d source target w) (copy-ideal source target w m a h)
    where
      from :
          (x : Option Text) (r : c.World × Result (Unit {0}))
          → Agrees r (copy_result x) (copied target x m).0
          → Agrees (moved c d source r) (copy_result x) (relocated source target x m).0
      from none (w, ok u) k = cc
      from none (w, err e) k = k
      from (some v) (w, ok u) k = delete-ideal (source ∷ []) w (assign (path target) (some v) m) k.1
      from (some v) (w, err e) k = cc

  abbrev Answers : c.World × Reply → Files × Reply → Type 0
  Answers r i = (r.1 ≡ i.1) × Holds r.0 i.0

  call-ideal :
      (x : Call) (w : c.World) (m : Files)
      → apart x ≡ true
      → Holds w m
      → Answers (call c d x w) (ideal x m)
  unfolding call ideal Objects.put Objects.missing
  call-ideal (put p v) w m a h = (
    ap (λ a. done (on_failure (wrapped putting p) a)) (law.put_object _ _ _ _ w),
    put-Holds p v _ w m h,
  )
  call-ideal (get p) w m a h = let k = get-ideal p w m h in (ap contents k.0, k.1)
  call-ideal (exists p) w m a h = let k = exists-ideal p w m h in (ap flag k.0, k.1)
  call-ideal (missing p) w m a h =
      let k = exists-ideal p w m h in (ap (λ r. flag (not r.0, r.1)) k.0, k.1)
  call-ideal (delete ps) w m a h = let k = delete-ideal ps w m h in (ap done k.0, k.1)
  call-ideal (copy source target) w m a h =
      let k = copy-ideal source target w m (ground arith) h in
      (ap done k.0 ∙ sym (copied-reply target (m (path source)) m), k.1)
  call-ideal (move source target) w m a h =
      let k = move-ideal source target w m (ground arith) h in
      (ap done k.0 ∙ sym (relocated-reply source target (m (path source)) m), k.1)

  replies-agree :
      (calls : List Call) (w : c.World) (m : Files)
      → all apart calls ≡ true
      → Holds w m
      → replies c d calls w ≡ ideal_replies calls m
  replies-agree [] w m a h = refl
  replies-agree (x ∷ calls) w m a h =
      let k = call-ideal x w m (ground arith) h in
      ap₂ (λ r rs. r ∷ rs) k.0
        (replies-agree calls (call c d x w).0 (ideal x m).0 (ground arith) k.1)

-- On a server that answers its requests, any sequence of Put, Get, Exists, Missing, Delete, Copy and
-- Move that copies or moves no file onto itself has the replies of the map of paths to contents,
-- begun with what the bucket holds below the disk's prefix.
pub replies-ideal :
    (c : Client) (content : Text → Text → c.World → Option Text) (opened : Text → Text → c.Object)
    (info : Text → Text → c.World → ObjectInfo) (law : IsHealthy c content opened info) (d : Disk)
    (calls : List Call) (w : c.World)
    → all apart calls ≡ true
    → replies c d calls w ≡ ideal_replies calls (λ p. content d.bucket (d.prefix ++ p) w)
replies-ideal c content opened info law d calls w a =
    replies-agree c content opened info law d calls w _ a (λ q. refl)
