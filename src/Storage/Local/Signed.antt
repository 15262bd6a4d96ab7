-- ===== src/Storage/Local/Signed.antt =====
-- storage/local/local.go: signed URLs. The parsing of a URL and the HMAC, with its encoding, are
-- parameters. Instants are nanoseconds since 1970 without bound (a time.Time wraps only near the
-- ends of an int64 of seconds), and the expiry that is read back is an int64.
pub mod Message
pub mod Verified
use chandlery.Base.{
  ℕ, zero, suc, ◌*◌, ◌/◌, Bool, true, false, not, ◌&&◌, ◌||◌, Option, none, some, List, [], ◌∷◌,
  ◌++◌, ltb, if◌then◌else◌,
}
use chandlery.Base.Int.{ℤ, pos, negsuc, ◌+ℤ◌}
use chandlery.Base.Text.{Text, is_empty, codes, eq, trim_prefix}
use chandlery.Base.Text.Parts.{slash, trim_suffix}
use chandlery.Cache.Numbers.{parse_int, format_int}
use chandlery.Storage.Local.Path.{normalize}

-- The path of a URL, and its first values of expires and signature, or "".
pub record ParsedUrl : Type 0 where
  pub path : Text
  pub expires : Text
  pub signature : Text

pub record Web : Type 0 where
  -- url.Parse with Query().Get
  pub parse : Text → Option ParsedUrl
  -- the HMAC-SHA256 of a message under a key, in base64
  pub mac : Text → Text → Text

pub record Disk : Type 0 where
  pub base_url : Text
  pub base_url_path : Text
  pub signing_key : Text

abbrev pub get_method : Text
get_method = codes "GET"

abbrev pub put_method : Text
put_method = codes "PUT"

abbrev pub path_or : Text → Option ParsedUrl → Text
path_or old none = old
path_or old (some u) = u.path

unfoldable pub with_base_url : Web → Text → Disk → Disk
with_base_url h base d = record d {
  base_url = trim_suffix base slash;
  base_url_path = path_or d.base_url_path (h.parse (trim_suffix base slash));
}

unfoldable pub with_signing_key : Text → Disk → Disk
with_signing_key k d = record d { signing_key = k }

unfoldable pub url : Disk → Text → Text
url d p = d.base_url ++ slash ∷ normalize p

-- Time.Unix: the seconds, rounded down.
abbrev pub unix : ℤ → ℤ
unix (pos n) = pos (n / 1000000000)
unix (negsuc n) = negsuc (n / 1000000000)

-- time.Now().After(time.Unix(seconds, 0))
unfoldable pub is_after : ℕ → ℤ → Bool
is_after now (pos seconds) = ltb (seconds * 1000000000) now
is_after now (negsuc seconds) = true

-- What is signed: method:path:seconds.
abbrev pub colon : ℕ
colon = 58

unfoldable pub message : Text → Text → ℤ → Text
message p method seconds = method ++ colon ∷ (p ++ colon ∷ format_int seconds)

module _ (h : Web) where
  unfoldable pub sign : Disk → Text → Text → ℤ → Text
  sign d p method seconds = h.mac d.signing_key (message p method seconds)

  unfoldable pub signed_url : ℕ → Disk → Text → Text → ℤ → Text
  signed_url now d p method expiration =
      let seconds = unix (pos now +ℤ expiration) in
      url d p
      ++ codes "?expires="
      ++ format_int seconds
      ++ codes "&signature="
      ++ sign d p method seconds

  unfoldable pub temporary_url : ℕ → Disk → Text → ℤ → Text
  temporary_url now d p expiration = signed_url now d p get_method expiration

  unfoldable pub presigned_put_url : ℕ → Disk → Text → ℤ → Text
  presigned_put_url now d p expiration = signed_url now d p put_method expiration

  abbrev pub rel_path : Disk → Text → Text
  rel_path d path = trim_prefix (trim_prefix path d.base_url_path) (slash ∷ [])

  abbrev pub checked : ℕ → Disk → Text → Text → Text → Option ℤ → Option Text
  checked now d p method sig none = none
  checked now d p method sig (some seconds) =
      if is_after now seconds
      then none
      else if eq (sign d p method seconds) sig
      then some p
      else none

  abbrev pub verify_parsed : ℕ → Disk → Text → Option ParsedUrl → Option Text
  verify_parsed now d method none = none
  verify_parsed now d method (some u) =
      if is_empty u.expires || is_empty u.signature
      then none
      else checked now d (rel_path d u.path) method u.signature (parse_int u.expires)

  -- VerifySignedURL: the path, or `none` for ("", false).
  unfoldable pub verify_signed_url : ℕ → Disk → Text → Text → Option Text
  verify_signed_url now d raw method = verify_parsed now d method (h.parse raw)
