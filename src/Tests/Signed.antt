-- ===== src/Tests/Signed.antt =====
-- The theorems on signed URLs at concrete inputs.
use chandlery.Base.{
  ℕ, ◌≡◌, refl, ap, ◌∙◌, Bool, true, false, Option, none, some, [], ◌∷◌, ◌++◌, append_assoc, ◌==◌,
  ◌/◌, if◌then◌else◌, arith,
}
use chandlery.Base.Int.{ℤ, pos, ◌+ℤ◌, IsInt64}
use chandlery.Base.Text.{Text, codes, eq, has_prefix, trim_prefix}
use chandlery.Base.Text.Parts.{slash}
use chandlery.Base.Text.Space.{lacks}
use chandlery.Cache.Numbers.{format_int, parse_int, parse_uint, parse_digits, digits}
use chandlery.Storage.Local.Signed.{
  ParsedUrl, Web, Disk, get_method, put_method, unix, is_after, sign, message, signed_url,
  verify_signed_url,
}
use chandlery.Storage.Local.Signed.Message.{lacks-format_int}
use chandlery.Storage.Local.Signed.Verified.{
  IsWeb, IsCollisionFree, minted-verifies, verify-unforged, leading_slash-refused,
}

abbrev before : ℕ → Text → Text
before c [] = []
before c (d ∷ s) = let rest = before c s in if d == c then [] else d ∷ rest

abbrev after : ℕ → Text → Text
after c [] = []
after c (d ∷ s) = let rest = after c s in if d == c then s else rest

before-append : (c : ℕ) (s t : Text) → lacks c s ≡ true → before c (s ++ c ∷ t) ≡ s
before-append c [] t h = ground arith
before-append c (d ∷ s) t h = ground (arith, before-append c s t)

after-append : (c : ℕ) (s t : Text) → lacks c s ≡ true → after c (s ++ c ∷ t) ≡ t
after-append c [] t h = ground arith
after-append c (d ∷ s) t h = ground (arith, after-append c s t)

-- The two values of a query as the disk writes it.
abbrev parse_query : Text → Text → Option ParsedUrl
parse_query path q = some (record {
  path = path;
  expires = trim_prefix (before 38 q) (codes "expires=");
  signature = trim_prefix (after 38 q) (codes "signature=");
})

-- Without escapes, and with the message itself in place of its HMAC.
abbrev web : Web
web = record { parse = λ raw. parse_query (before 63 raw) (after 63 raw); mac = λ k m. 109 ∷ m }

abbrev disk : Disk
disk = record { base_url = []; base_url_path = []; signing_key = codes "k" }

abbrev plain : Text → Bool
plain p = lacks 63 p

abbrev query : Text → Text → Text
query e s = codes "expires=" ++ (e ++ 38 ∷ (codes "signature=" ++ s))

query_parsed :
    (path e s : Text)
    → lacks 38 e ≡ true
    → parse_query path (query e s) ≡ some (record { path = path; expires = e; signature = s })
unfolding trim_prefix has_prefix
query_parsed path e s h =
    rw
      (
        before-append 38 e (codes "signature=" ++ s) h,
        after-append 38 e (codes "signature=" ++ s) h,
      )
      refl

minted_query :
    (p e s : Text) → p ++ codes "?expires=" ++ e ++ codes "&signature=" ++ s ≡ p ++ 63 ∷ query e s
minted_query p e s =
    append_assoc (p ++ codes "?expires=" ++ e) (codes "&signature=") s
    ∙ append_assoc (p ++ codes "?expires=") e (codes "&signature=" ++ s)
    ∙ append_assoc p (codes "?expires=") (e ++ (codes "&signature=" ++ s))

minted_parsed :
    (p e s : Text)
    → plain p ≡ true
    → lacks 38 e ≡ true
    → web.parse (p ++ codes "?expires=" ++ e ++ codes "&signature=" ++ s)
      ≡ some (record { path = p; expires = e; signature = s })
minted_parsed p e s h k =
    ap web.parse (minted_query p e s)
    ∙ rw (before-append 63 p (query e s) h, after-append 63 p (query e s) h) (query_parsed p e s k)

disk-IsWeb : IsWeb web disk plain
disk-IsWeb = record {
  parse_minted = λ p seconds m h.
      minted_parsed (slash ∷ p) (format_int seconds) (109 ∷ m) (ground arith)
        (lacks-format_int 38 seconds refl);
  mac_not_empty = λ m. refl;
}

disk-IsCollisionFree : IsCollisionFree web disk.signing_key
disk-IsCollisionFree x y e = cc

abbrev minute : ℤ
minute = pos 60000000000

-- From 1000.5 seconds on, for a minute.
abbrev start : ℕ
start = 1000500000000

no_slash : has_prefix (codes "a/b.txt") (slash ∷ []) ≡ false
unfolding has_prefix
no_slash = refl

ends : pos start +ℤ minute ≡ pos 1060500000000
unfolding ◌+ℤ◌
ends = refl

in_range : IsInt64 (pos (1060500000000 / 1000000000))
in_range = omega arith

expiry_in_range : IsInt64 (unix (pos start +ℤ minute))
unfolding ◌+ℤ◌
expiry_in_range = omega arith

minted-verifies_example :
    verify_signed_url web 1060000000000 disk
      (signed_url web start disk (codes "a/b.txt") get_method minute)
      get_method
    ≡ some (codes "a/b.txt")
minted-verifies_example =
    minted-verifies web disk plain disk-IsWeb start 1060000000000 1060500000000 (codes "a/b.txt")
      get_method minute ends no_slash refl in_range

leading_slash-refused_example :
    verify_signed_url web start disk
      (signed_url web start disk (codes "/a.txt") get_method minute)
      put_method
    ≡ none
leading_slash-refused_example =
    leading_slash-refused web disk plain disk-IsWeb disk-IsCollisionFree start start (codes "a.txt")
      get_method put_method minute refl refl refl expiry_in_range

abbrev raw_url : Text
raw_url =
    codes "/a?" ++ query (format_int (pos 1060)) (sign web disk (codes "a") get_method (pos 1060))

abbrev parsed_url : ParsedUrl
parsed_url = record {
  path = codes "/a";
  expires = format_int (pos 1060);
  signature = sign web disk (codes "a") get_method (pos 1060);
}

raw_parsed : web.parse raw_url ≡ some parsed_url
raw_parsed =
    query_parsed (codes "/a") (format_int (pos 1060))
      (sign web disk (codes "a") get_method (pos 1060)) (lacks-format_int 38 (pos 1060) refl)

raw_accepted : verify_signed_url web start disk raw_url get_method ≡ some (codes "a")
unfolding verify_signed_url sign message format_int digits parse_int parse_uint parse_digits
    is_after eq trim_prefix has_prefix
raw_accepted = refl

verify-unforged_example :
    (codes "a" ≡ codes "a") × (get_method ≡ get_method) × (is_after start (pos 1060) ≡ false)
verify-unforged_example =
    verify-unforged web disk disk-IsCollisionFree start raw_url parsed_url (codes "a") get_method
      (pos 1060) get_method (codes "a") raw_parsed refl (ground arith) refl refl raw_accepted
