-- ===== src/Storage/Local/Signed/Verified.antt =====
-- storage/local/local.go: which URLs VerifySignedURL accepts.
use chandlery.Base.{
  ℕ, ◌≡◌, refl, sym, ap, subst, ◌∙◌, Bool, true, false, Option, none, some, [], ◌∷◌, ◌++◌, suc,
  length, ltb, ◌*◌, ◌/◌, if◌then◌else◌, arith,
}
use chandlery.Base.Int.{ℤ, pos, ◌+ℤ◌, IsInt64}
use chandlery.Base.Text.{
  Text, is_empty, codes, eq, eq_refl, eq→≡, has_prefix, trim_prefix, trim_prefix-append,
}
use chandlery.Base.Text.Parts.{slash}
use chandlery.Base.Text.Space.{lacks}
use chandlery.Cache.Numbers.{parse_int, format_int, parse_int-format_int, parse_int-IsInt64}
use chandlery.Storage.Local.Path.{normalize}
use chandlery.Storage.Local.Signed.Message.{message-injective}
use chandlery.Storage.Local.Signed.{
  colon, ParsedUrl, Web, Disk, url, unix, is_after, message, sign, signed_url, rel_path, checked,
  verify_parsed, verify_signed_url,
}

-- What the disk relies on in package url, for the URLs that it makes of its base and of paths that
-- have nothing to escape; and an HMAC is never empty.
pub record IsWeb (h : Web) (d : Disk) (plain : Text → Bool) : Type 0 where
  pub parse_minted :
      (p : Text) (seconds : ℤ) (m : Text)
      → plain p ≡ true
      → h.parse (
          d.base_url
          ++ slash ∷ p
          ++ codes "?expires="
          ++ format_int seconds
          ++ codes "&signature="
          ++ h.mac d.signing_key m)
        ≡ some (record {
          path = d.base_url_path ++ slash ∷ p;
          expires = format_int seconds;
          signature = h.mac d.signing_key m;
        })
  pub mac_not_empty : (m : Text) → is_empty (h.mac d.signing_key m) ≡ false

-- Different messages have different HMACs under the key.
abbrev pub IsCollisionFree : Web → Text → Type 0
IsCollisionFree h k = (x y : Text) → h.mac k x ≡ h.mac k y → x ≡ y

parsed-not_empty : (s : Text) (a : ℤ) → parse_int s ≡ some a → is_empty s ≡ false
unfolding parse_int
parsed-not_empty [] a e = cc
parsed-not_empty (c ∷ s) a e = refl

bare_path : (p : Text) → has_prefix p (slash ∷ []) ≡ false → normalize p ≡ p
unfolding normalize trim_prefix
bare_path p h = ground arith

path-rel : (h : Web) (d : Disk) (p : Text) → rel_path h d (d.base_url_path ++ slash ∷ p) ≡ p
path-rel h d p =
    ap (λ s. trim_prefix s (slash ∷ [])) (trim_prefix-append d.base_url_path (slash ∷ p))
    ∙ trim_prefix-append (slash ∷ []) p

module _ (h : Web) (d : Disk) (plain : Text → Bool) (law : IsWeb h d plain) where
  -- A URL minted for a method and a path without a leading slash, and with nothing to escape,
  -- verifies for that method to that path up to the instant of its expiry rounded down to a second,
  -- that instant included, and after it not; the expiry is in or after 1970 and an int64 of seconds.
  pub minted-verifies :
      (now later deadline : ℕ) (p method : Text) (expiration : ℤ)
      → pos now +ℤ expiration ≡ pos deadline
      → has_prefix p (slash ∷ []) ≡ false
      → plain p ≡ true
      → IsInt64 (pos (deadline / 1000000000))
      → verify_signed_url h later d (signed_url h now d p method expiration) method
        ≡ (if ltb (deadline / 1000000000 * 1000000000) later then none else some p)
  unfolding verify_signed_url signed_url sign url is_after
  minted-verifies now later deadline p method expiration ends bare safe small =
      rw (bare_path p bare, ends)
        (ap (verify_parsed h later d method) (law.parse_minted p seconds text safe) ∙ accepted)
    where
      seconds : ℤ
      seconds = pos (deadline / 1000000000)

      text : Text
      text = message p method seconds

      path : Text
      path = d.base_url_path ++ slash ∷ p

      rel : rel_path h d path ≡ p
      rel = path-rel h d p

      accepted :
          verify_parsed h later d method (
            some (record {
              path = path;
              expires = format_int seconds;
              signature = h.mac d.signing_key text;
            }))
          ≡ (if ltb (deadline / 1000000000 * 1000000000) later then none else some p)
      accepted = ground (
        arith,
        rel,
        parse_int-format_int seconds small,
        parsed-not_empty (format_int seconds) seconds,
        law.mac_not_empty text,
        eq_refl (h.mac d.signing_key text),
      )

accepted_by_checked :
    (h : Web) (now : ℕ) (d : Disk) (p method sig : Text) (read : Option ℤ) (q : Text)
    → checked h now d p method sig read ≡ some q
    → (seconds : ℤ) × (read ≡ some seconds)
      × (is_after now seconds ≡ false)
      × (sign h d q method seconds ≡ sig)
accepted_by_checked h now d p method sig none q e = cc
accepted_by_checked h now d p method sig (some seconds) q e =
    (seconds, refl, ground arith, ground (arith, eq→≡ (sign h d p method seconds) sig))

accepted_by_parsed :
    (h : Web) (now : ℕ) (d : Disk) (method : Text) (u : ParsedUrl) (q : Text)
    → verify_parsed h now d method (some u) ≡ some q
    → (seconds : ℤ) × (parse_int u.expires ≡ some seconds)
      × (is_after now seconds ≡ false)
      × (sign h d q method seconds ≡ u.signature)
accepted_by_parsed h now d method u q e =
    accepted_by_checked h now d (rel_path h d u.path) method u.signature (parse_int u.expires) q
      (ground arith)

-- When different messages have different HMACs under the disk's key, a URL that carries the signature
-- of a path, a method and an expiry is accepted, if at all, as that path, for that method and not
-- after that expiry, whatever else the URL says.
pub verify-unforged :
    (h : Web) (d : Disk) (free : IsCollisionFree h d.signing_key) (now : ℕ) (raw : Text)
    (u : ParsedUrl) (p method : Text) (seconds : ℤ) (other q : Text)
    → h.parse raw ≡ some u
    → u.signature ≡ sign h d p method seconds
    → IsInt64 seconds
    → lacks colon method ≡ true
    → lacks colon other ≡ true
    → verify_signed_url h now d raw other ≡ some q
    → (q ≡ p) × (other ≡ method) × (is_after now seconds ≡ false)
unfolding verify_signed_url sign
verify-unforged h d free now raw u p method seconds other q parsed signed small m n e =
    let got =
      accepted_by_parsed h now d other u q (ap (verify_parsed h now d other) (sym parsed) ∙ e) in
    let same =
      message-injective q p other method got.0 seconds n m (parse_int-IsInt64 u.expires got.0 got.1)
        small (free (message q other got.0) (message p method seconds) (got.3 ∙ signed)) in
    (same.1, same.0, subst (λ s. is_after now s ≡ false) same.2 got.2)

no_longer : (c : ℕ) (p : Text) → p ≡ c ∷ p → length p ≡ suc (length p)
no_longer c p e = ap length e

other_signature :
    (h : Web) (d : Disk) (free : IsCollisionFree h d.signing_key) (p method other : Text)
    (seconds : ℤ)
    → lacks colon method ≡ true
    → lacks colon other ≡ true
    → IsInt64 seconds
    → eq (sign h d p other seconds) (sign h d (slash ∷ p) method seconds) ≡ false
unfolding sign
other_signature h d free p method other seconds m n small = from _ refl
  where
    from :
        (b : Bool)
        → eq (sign h d p other seconds) (sign h d (slash ∷ p) method seconds) ≡ b
        → b ≡ false
    from false e = refl
    from true e =
        let same =
          message-injective p (slash ∷ p) other method seconds seconds n m small small
            (free _ _ (eq→≡ (sign h d p other seconds) (sign h d (slash ∷ p) method seconds) e)) in
        absurd (omega (arith, no_longer slash p same.1))

-- When different messages have different HMACs under the disk's key, a URL minted for a path with a
-- leading slash and nothing to escape is refused at any time and for any method, since the slash is
-- signed but does not come back from the URL; neither method has a colon, and the expiry is an int64
-- of seconds.
pub leading_slash-refused :
    (h : Web) (d : Disk) (plain : Text → Bool) (law : IsWeb h d plain)
    (free : IsCollisionFree h d.signing_key) (now later : ℕ) (p method other : Text)
    (expiration : ℤ)
    → plain p ≡ true
    → lacks colon method ≡ true
    → lacks colon other ≡ true
    → IsInt64 (unix (pos now +ℤ expiration))
    → verify_signed_url h later d (signed_url h now d (slash ∷ p) method expiration) other ≡ none
unfolding verify_signed_url signed_url sign url normalize format_int message
leading_slash-refused h d plain law free now later p method other expiration safe m n small =
    rw (trim_prefix-append (slash ∷ []) p)
      (ap (verify_parsed h later d other) (law.parse_minted p seconds text safe) ∙ refused)
  where
    seconds : ℤ
    seconds = unix (pos now +ℤ expiration)

    text : Text
    text = message (slash ∷ p) method seconds

    path : Text
    path = d.base_url_path ++ slash ∷ p

    rel : rel_path h d path ≡ p
    rel = path-rel h d p

    refused :
        verify_parsed h later d other (
          some (record {
            path = path;
            expires = format_int seconds;
            signature = h.mac d.signing_key text;
          }))
        ≡ none
    refused = ground (
      arith,
      rel,
      parse_int-format_int seconds small,
      other_signature h d free p method other seconds m n small,
    )
