-- ===== src/Db/Postgres/Redacted.antt =====
-- db/postgres/postgres.go: what a Config and an error of Open show of a DSN.
use chandlery.Base.{
  ℕ, ◌≡◌, refl, sym, ◌∙◌, ◌⊎◌, inl, inr, Bool, true, false, not, ◌&&◌, ◌||◌, Option, none, some,
  List, [], if◌then◌else◌, arith,
}
use chandlery.Base.Text.{Text, is_empty, codes, eq, contains}
use chandlery.Db.Postgres.{
  Url, UserInfo, UrlPackage, Config, unreadable, name_only, ambiguous_dsn, is_ambiguous, outline,
  redact_parsed, redact_dsn, redacted, Panic, runtime_error, rejected, Reason, not_a_url,
  rejected_by_driver, message, shows_password, password_of, dsn_rejection, empty_dsn, ambiguous,
  invalid, Opened, opened, refused, panicked, connected, open_db,
}

abbrev has_no_password : Option UserInfo → Bool
has_no_password none = true
has_no_password (some i) = elim i.password [ none ↦ true | some p ↦ false ]

-- A URL without a password, a query and a fragment, and without an @ that may be the end of one.
abbrev pub has_no_secret : Url → Bool
has_no_secret u =
    has_no_password u.user
    && is_empty u.raw_query
    && is_empty u.fragment
    && not (contains u.host (codes "@"))
    && not (contains u.path (codes "@"))

-- What may be shown for a DSN: nothing, a fixed text, or a URL without a secret.
abbrev pub IsRedacted : UrlPackage → Text → Type 0
IsRedacted h t =
    (is_empty t ≡ true)
    ⊎ ((t ≡ codes "(unparseable)") ⊎ ((u : Url) × (t ≡ h.to_text u) × (has_no_secret u ≡ true)))

abbrev password_in : Option UserInfo → Option Text
password_in none = none
password_in (some i) = i.password

abbrev pub secret_of : Option Url → Option Text
secret_of none = none
secret_of (some u) = password_in u.user

-- The text contains a password that is not empty.
abbrev pub quotes : Text → Option Text → Bool
quotes t none = false
quotes t (some pw) = not (is_empty pw) && contains t pw

-- A reason that quotes the driver does not quote the DSN, or its password.
abbrev pub IsDiscreetReason : UrlPackage → Text → Reason → Type 0
IsDiscreetReason h dsn (message t) =
    (contains t dsn ≡ false) × (quotes t (secret_of (h.parse dsn)) ≡ false)
IsDiscreetReason h dsn not_a_url = Unit {0}
IsDiscreetReason h dsn rejected_by_driver = Unit {0}

abbrev pub IsDiscreet : UrlPackage → Text → Opened → Type 0
IsDiscreet h dsn (refused (invalid shown reason)) =
    IsRedacted h shown × IsDiscreetReason h dsn reason
IsDiscreet h dsn (refused empty_dsn) = Unit {0}
IsDiscreet h dsn (refused ambiguous) = Unit {0}
IsDiscreet h dsn (opened p) = Unit {0}
IsDiscreet h dsn (panicked e) = Unit {0}

name_only-has_no_password : (o : Option UserInfo) → has_no_password (name_only o) ≡ true
name_only-has_no_password none = refl
name_only-has_no_password (some i) = refl

outline-has_no_secret :
    (dsn : Text) (u : Url) → ambiguous_dsn dsn u ≡ false → has_no_secret (outline u) ≡ true
unfolding ambiguous_dsn
outline-has_no_secret dsn u h = ground (arith, name_only-has_no_password u.user)

module _ (h : UrlPackage) (dsn : Text) where
  redact_parsed-IsRedacted : (p : Option Url) → IsRedacted h (redact_parsed h dsn p)
  redact_parsed-IsRedacted none = inr (inl refl)
  redact_parsed-IsRedacted (some u) = from (is_empty u.scheme) (ambiguous_dsn dsn u) refl (
      is_empty u.host
      && not (eq u.scheme (codes "postgres"))
      && not (eq u.scheme (codes "postgresql")))
    where
      from :
          (a b : Bool)
          → ambiguous_dsn dsn u ≡ b
          → (c : Bool)
          → IsRedacted h (
              if a
              then unreadable
              else if b
              then unreadable
              else if c
              then unreadable
              else h.to_text (outline u))
      from true b e c = inr (inl refl)
      from false true e c = inr (inl refl)
      from false false e true = inr (inl refl)
      from false false e false = inr (inr (outline u, refl, outline-has_no_secret dsn u e))

  redact_dsn-IsRedacted : IsRedacted h (redact_dsn h dsn)
  unfolding redact_dsn
  redact_dsn-IsRedacted = from (is_empty dsn)
    where
      from : (b : Bool) → IsRedacted h (if b then [] else redact_parsed h dsn (h.parse dsn))
      from true = inl refl
      from false = redact_parsed-IsRedacted (h.parse dsn)

  shows_password-quotes :
      (t : Text) (p : Option Url) → shows_password h t (password_of h p) ≡ quotes t (secret_of p)
  shows_password-quotes t none = refl
  shows_password-quotes t (some u) = from u.user
    where
      from :
          (o : Option UserInfo)
          → shows_password h t (elim o [ none ↦ none | some i ↦ i.password ])
            ≡ quotes t (password_in o)
      from none = refl
      from (some i) = named i.password
        where
          named : (o : Option Text) → shows_password h t o ≡ quotes t o
          named none = refl
          named (some pw) = refl

  dsn_rejection-IsDiscreet :
      (is_url : Bool) (t : Text) → IsDiscreetReason h dsn (dsn_rejection h dsn is_url t)
  unfolding dsn_rejection
  dsn_rejection-IsDiscreet true t = tt
  dsn_rejection-IsDiscreet false t =
      from (shows_password h t (password_of h (h.parse dsn))) (contains t dsn)
        (contains t (codes "@")) refl refl
    where
      from :
          (a b c : Bool)
          → shows_password h t (password_of h (h.parse dsn)) ≡ a
          → contains t dsn ≡ b
          → IsDiscreetReason h dsn
              (if a then rejected_by_driver else if b || c then rejected_by_driver else message t)
      from true b c i j = tt
      from false true c i j = tt
      from false false true i j = tt
      from false false false i j = (j, sym (shows_password-quotes t (h.parse dsn)) ∙ i)

-- What a Config prints for its DSN, and what an error of Open shows for it, whatever the driver does,
-- is nothing, a fixed text, or a URL without a password, a query, a fragment and an @ in its host or
-- path; and where the error quotes the driver, that text contains neither the DSN nor, if it is not
-- empty, the password of the DSN's URL.
pub open_db-IsDiscreet :
    (h : UrlPackage) (connect : Text → Option Panic) (registrars : List ℕ) (c : Config)
    → IsRedacted h (redacted h c).dsn × IsDiscreet h c.dsn (open_db h connect registrars c)
unfolding open_db redacted
open_db-IsDiscreet h connect registrars c = (
  redact_dsn-IsRedacted h c.dsn,
  from (is_empty c.dsn) (is_ambiguous c.dsn (h.parse c.dsn)) (connect c.dsn),
)
  where
    from :
        (a b : Bool) (p : Option Panic)
        → IsDiscreet h c.dsn (
            if a
            then refused empty_dsn
            else if b
            then refused ambiguous
            else connected h registrars c p)
    from true b p = tt
    from false true p = tt
    from false false none = tt
    from false false (some (runtime_error n)) = tt
    from false false (some (rejected is_url t)) =
        (redact_dsn-IsRedacted h c.dsn, dsn_rejection-IsDiscreet h c.dsn is_url t)
