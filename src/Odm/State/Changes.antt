-- ===== src/Odm/State/Changes.antt =====
-- odm/state.go: the changes that diff finds, written over the snapshot, make the model's document.
use chandlery.Base.{
  String, ◌≡◌, refl, Bool, true, false, not, ◌&&◌, ◌||◌, Option, none, some, [], ◌∷◌, arith, str_eq,
  str_eq_iff, if◌then◌else◌, Bool-cases, ◌⊎◌, inl, inr,
}
use chandlery.Base.Assoc.{Assoc, lookup, insert, lookup-insert}
use chandlery.Base.Text.{eq→≡}
use chandlery.Odm.Value.{Value}
use chandlery.Odm.Errors.{Result, ok, err, ◌>>=◌}
use chandlery.Odm.State.{
  RawValue, Raw, Changeset, same_raw_value, unchanged, is_absent, set_loop, unset_loop, diff,
  member, is_set,
}

-- No field twice.
abbrev pub IsKeyed : Raw → Type 0
IsKeyed [] = Unit
IsKeyed ((k, v) ∷ es) = (lookup k es ≡ none) × IsKeyed es

abbrev pub value_of : Result Value → Option Value
value_of (ok v) = some v
value_of (err e) = none

module _ (decode : RawValue → Result Value) where
  -- The decoded value of a field that may be there.
  abbrev pub decoded : Option RawValue → Option Value
  decoded none = none
  decoded (some v) = value_of (decode v)

  -- What the field is set to: a field of the model that differs from the snapshot.
  abbrev fresh : Option RawValue → Option RawValue → Option Value → Option Value
  fresh none was before = before
  fresh (some v) was before = if unchanged was v then before else value_of (decode v)

  -- It is not set, or decodes.
  abbrev readable : Option RawValue → Option RawValue → Bool
  readable none was = true
  readable (some v) was = unchanged was v || is_set (value_of (decode v))

  set_loop-lookup :
      (o es : Raw) (set : Assoc Value) (f : String) {s : Assoc Value}
      → IsKeyed es
      → str_eq f "_id" ≡ false
      → set_loop decode o set es ≡ ok s
      → (lookup f s ≡ fresh (lookup f es) (lookup f o) (lookup f set))
        × (readable (lookup f es) (lookup f o) ≡ true)
  unfolding set_loop lookup
  set_loop-lookup o [] set f keyed g h = (ground (arith, h), refl)
  set_loop-lookup o ((k, v) ∷ es) set f {s = s} keyed g h =
      elim (Bool-cases (str_eq k "_id" || unchanged (lookup k o) v)) [
        | inl e ↦
            ground
              (arith, e, set_loop-lookup o es set f keyed.1 g (rw e at h), keyed.0, str_eq_iff k f)
        | inr e ↦
            step (decode v) refl (rw e at h) e
              (λ d. set_loop-lookup o es (insert k d set) f keyed.1 g)
      ]
    where
      step :
          (r : Result Value)
          → decode v ≡ r
          → (r >>= (λ d. set_loop decode o (insert k d set) es)) ≡ ok s
          → (str_eq k "_id" || unchanged (lookup k o) v) ≡ false
          → ((d : Value)
              → set_loop decode o (insert k d set) es ≡ ok s
              → (lookup f s ≡ fresh (lookup f es) (lookup f o) (lookup f (insert k d set)))
                × (readable (lookup f es) (lookup f o) ≡ true))
          → (lookup f s
              ≡ fresh (if str_eq k f then some v else lookup f es) (lookup f o) (lookup f set))
            × (readable (if str_eq k f then some v else lookup f es) (lookup f o) ≡ true)
      step (err x) p h e ih = cc
      step (ok d) p h e ih =
          ground (arith, p, e, ih d h, keyed.0, str_eq_iff k f, lookup-insert k f d set)

  unset_loop-member :
      (c es : Raw) (f : String)
      → str_eq f "_id" ≡ false
      → member f (unset_loop c es) ≡ (is_absent (lookup f c) && not (is_absent (lookup f es)))
  unfolding unset_loop member lookup
  unset_loop-member c [] f g = ground arith
  unset_loop-member c ((k, v) ∷ es) f g =
      ground (arith, g, unset_loop-member c es f g, str_eq_iff k f, str_eq_iff k "_id")

  same_raw_value→≡ : (a b : RawValue) → same_raw_value a b ≡ true → a ≡ b
  unfolding same_raw_value
  same_raw_value→≡ a b h = ground (arith, h, eq→≡ a.content b.content)

  -- A field of the snapshot once the changes have been written over it.
  abbrev pub kept : Option Value → Option Value → Option Value
  kept none was = was
  kept (some v) was = some v

  abbrev pub applied : Changeset → Raw → String → Option Value
  applied c o f = if member f c.unset then none else kept (lookup f c.set) (decoded (lookup f o))

  fresh-kept :
      (now was : Option RawValue)
      → readable now was ≡ true
      → (if is_absent now && not (is_absent was)
          then none
          else kept (fresh now was none) (decoded was))
        ≡ decoded now
  fresh-kept none none h = refl
  fresh-kept none (some w) h = refl
  fresh-kept (some v) none h = settled (value_of (decode v)) h
    where
      settled : (o : Option Value) → is_set o ≡ true → kept o none ≡ o
      settled none h = refl
      settled (some x) h = refl
  fresh-kept (some v) (some w) h =
      differs (Bool-cases (same_raw_value w v)) (value_of (decode v)) refl
    where
      differs :
          (same_raw_value w v ≡ true) ⊎ (same_raw_value w v ≡ false)
          → (o : Option Value) → value_of (decode v) ≡ o
          → kept (if same_raw_value w v then none else o) (value_of (decode w)) ≡ o
      differs (inl e) o p = ground (arith, e, p, same_raw_value→≡ w v e)
      differs (inr e) none p = ground (arith, e, p, h)
      differs (inr e) (some x) p = ground (arith, e)

  diff-eq :
      (o c : Raw) (s : Result (Assoc Value)) (ch : Changeset)
      → set_loop decode o [] c ≡ s
      → diff decode (some o) (some c) ≡ ok ch
      → (set_loop decode o [] c ≡ ok ch.set) × (unset_loop c o ≡ ch.unset)
  unfolding diff
  diff-eq o c (err e) ch p h = ground (arith, p, h)
  diff-eq o c (ok s) ch p h = ground (arith, p, h)

  -- The changes that diff finds, written over the snapshot with $set and $unset, make each field but
  -- _id what it is in the model's document, whose fields are distinct.
  pub diff-applied :
      (o c : Raw) (ch : Changeset) (f : String)
      → IsKeyed c
      → str_eq f "_id" ≡ false
      → diff decode (some o) (some c) ≡ ok ch
      → applied ch o f ≡ decoded (lookup f c)
  unfolding lookup
  diff-applied o c ch f keyed g h =
      let d = diff-eq o c (set_loop decode o [] c) ch refl h in
      let l = set_loop-lookup o c [] f keyed g d.0 in
      rw (← d.1, unset_loop-member c o f g, l.0) (fresh-kept (lookup f c) (lookup f o) l.1)
