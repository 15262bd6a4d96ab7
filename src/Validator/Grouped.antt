-- ===== src/Validator/Grouped.antt =====
-- validator/validator.go: each field once, with all its messages in order.
use chandlery.Base.{
  ℕ, zero, suc, ◌+◌, ◌≤◌, String, ◌≡◌, refl, ◌∙◌, sym, ap, subst, Bool, true, false, Option, none,
  some, List, [], ◌∷◌, ◌++◌, arith, str_eq, str_eq_iff, if◌then◌else◌, length, append_assoc,
  append-nil, Bool-cases, inl, inr,
}
use chandlery.Base.Assoc.{lookup, insert, lookup-insert}
use chandlery.Validator.{
  ValidationError, add_reason, Progress, grouped_at, sanitize_loop, sanitize_issues,
}

-- Where the field's entry is, the first one standing at i.
abbrev index_from : ℕ → String → List ValidationError → Option ℕ
index_from i f [] = none
index_from i f (e ∷ es) =
    let rest = index_from (suc i) f es in if str_eq e.on f then some i else rest

abbrev pub reasons_of : String → List ValidationError → List String
reasons_of f [] = []
reasons_of f (e ∷ es) = let rest = reasons_of f es in if str_eq e.on f then e.reasons else rest

-- The entry of the field gets the message, or a new one at the end.
abbrev with_message : String → String → List ValidationError → List ValidationError
with_message f message [] = record { on = f; reasons = message ∷ [] } ∷ []
with_message f message (e ∷ es) =
    let rest = with_message f message es in
    if str_eq e.on f then record e { reasons = e.reasons ++ message ∷ [] } ∷ es else e ∷ rest

with_message-absent :
    (i : ℕ) (f message : String) (es : List ValidationError)
    → index_from i f es ≡ none
    → with_message f message es ≡ es ++ record { on = f; reasons = message ∷ [] } ∷ []
with_message-absent i f message [] h = refl
with_message-absent i f message (e ∷ es) h =
    ground (arith, h, with_message-absent (suc i) f message es)

index_from-le :
    (i j : ℕ) (f : String) (es : List ValidationError) → index_from i f es ≡ some j → i ≤ j
index_from-le i j f [] h = cc
index_from-le i j f (e ∷ es) h = ground (arith, h, index_from-le (suc i) j f es)

with_message-present :
    (i n j : ℕ) (f message : String) (es : List ValidationError)
    → index_from i f es ≡ some j
    → j ≡ i + n
    → with_message f message es ≡ add_reason n message es
unfolding add_reason
with_message-present i n j f message [] h p = cc
with_message-present i zero j f message (e ∷ es) h p =
    ground (arith, h, p, index_from-le (suc i) j f es)
with_message-present i (suc n) j f message (e ∷ es) h p =
    ground (arith, h, p, with_message-present (suc i) n j f message es)

abbrev or_new : Option ℕ → Bool → ℕ → Option ℕ
or_new (some j) new i = some j
or_new none true i = some i
or_new none false i = none

index_from-with_message :
    (i : ℕ) (g f message : String) (es : List ValidationError)
    → index_from i g (with_message f message es)
      ≡ or_new (index_from i g es) (str_eq f g) (i + length es)
index_from-with_message i g f message [] = ground arith
index_from-with_message i g f message (e ∷ es) = ground (
  arith,
  index_from-with_message (suc i) g f message es,
  str_eq_iff e.on f,
  str_eq_iff e.on g,
  str_eq_iff f g,
)

reasons_of-with_message :
    (g f message : String) (es : List ValidationError)
    → reasons_of g (with_message f message es)
      ≡ (if str_eq f g then reasons_of g es ++ message ∷ [] else reasons_of g es)
reasons_of-with_message g f message [] = ground arith
reasons_of-with_message g f message (e ∷ es) = ground (
  arith,
  reasons_of-with_message g f message es,
  str_eq_iff e.on f,
  str_eq_iff e.on g,
  str_eq_iff f g,
)

-- The map has the index of each field.
abbrev Tracks : Progress → Type 0
Tracks p = (f : String) → lookup f p.1 ≡ index_from 0 f p.0

grouped_at-Tracks :
    (p : Progress) (f message : String) (o : Option ℕ)
    → Tracks p
    → lookup f p.1 ≡ o
    → ((grouped_at p f message o).0 ≡ with_message f message p.0)
      × Tracks (grouped_at p f message o)
grouped_at-Tracks p f message (some i) t h =
    let same = with_message-present 0 i i f message p.0 (sym (t f) ∙ h) (omega arith) in
    (
      sym same,
      λ g.
          subst (λ l. lookup g p.1 ≡ index_from 0 g l) same
            (ground
              (arith, t g, t f, h, index_from-with_message 0 g f message p.0, str_eq_iff f g)),
    )
grouped_at-Tracks p f message none t h =
    let same = with_message-absent 0 f message p.0 (sym (t f) ∙ h) in
    (
      sym same,
      λ g.
          subst (λ l. lookup g (insert f (length p.0) p.1) ≡ index_from 0 g l) same
            (ground (
              arith,
              t g,
              t f,
              h,
              index_from-with_message 0 g f message p.0,
              str_eq_iff f g,
              lookup-insert f g (length p.0) p.1,
            )),
    )

-- The messages of the field's issues, in order.
abbrev pub messages_of : String → List (String × String) → List String
messages_of f [] = []
messages_of f ((g, message) ∷ issues) =
    let rest = messages_of f issues in if str_eq g f then message ∷ rest else rest

-- No field twice.
abbrev pub IsDistinct : List ValidationError → Type 0
IsDistinct [] = Unit
IsDistinct (e ∷ es) = (index_from 0 e.on es ≡ none) × IsDistinct es

index_from_absent :
    (i j : ℕ) (f : String) (es : List ValidationError)
    → index_from i f es ≡ none
    → index_from j f es ≡ none
index_from_absent i j f [] h = refl
index_from_absent i j f (e ∷ es) h = ground (arith, h, index_from_absent (suc i) (suc j) f es)

with_message-IsDistinct :
    (f message : String) (es : List ValidationError)
    → IsDistinct es
    → IsDistinct (with_message f message es)
with_message-IsDistinct f message [] d = (refl, tt)
with_message-IsDistinct f message (e ∷ es) d = elim (Bool-cases (str_eq e.on f)) [
  | inl p ↦ rw (p, IsDistinct) d
  | inr p ↦
      rw (p, IsDistinct)
        (
          ground (
            arith,
            p,
            d.0,
            index_from-with_message 0 e.on f message es,
            str_eq_iff e.on f,
            str_eq_iff f e.on,
          ),
          with_message-IsDistinct f message es d.1,
        )
]

sanitize_loop-groups :
    (p : Progress) (issues : List (String × String)) (f : String)
    → Tracks p
    → IsDistinct p.0
    → (reasons_of f (sanitize_loop p issues).0 ≡ reasons_of f p.0 ++ messages_of f issues)
      × IsDistinct (sanitize_loop p issues).0
unfolding sanitize_loop
sanitize_loop-groups p [] f t d = (rw append-nil refl, d)
sanitize_loop-groups p ((g, message) ∷ issues) f t d =
    let step = grouped_at-Tracks p g message (lookup g p.1) t refl in
    let next = grouped_at p g message (lookup g p.1) in
    let rest =
      sanitize_loop-groups next issues f step.1
        (subst IsDistinct (sym step.0) (with_message-IsDistinct g message p.0 d)) in
    (
      rest.0
          ∙ ap (λ r. reasons_of f r ++ messages_of f issues) step.0
          ∙ rw (reasons_of-with_message f g message p.0) (joined (str_eq g f)),
      rest.1,
    )
  where
    joined :
        (b : Bool)
        → (if b then reasons_of f p.0 ++ message ∷ [] else reasons_of f p.0) ++ messages_of f issues
          ≡ reasons_of f p.0 ++ (if b then message ∷ messages_of f issues else messages_of f issues)
    joined true = rw append_assoc refl
    joined false = refl

-- Each field that has an issue stands in the result with the messages of its issues, all of them and
-- in their order, and no field stands in it twice.
pub sanitize_issues-groups :
    (issues : List (String × String)) (f : String)
    → (reasons_of f (sanitize_issues issues) ≡ messages_of f issues)
      × IsDistinct (sanitize_issues issues)
unfolding sanitize_issues lookup
sanitize_issues-groups issues f = sanitize_loop-groups ([], []) issues f (λ g. refl) tt
