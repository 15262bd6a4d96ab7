-- ===== src/Tests/Database.antt =====
-- The theorems on aggregations, observers and the configuration of Postgres at concrete inputs.
use chandlery.Base.{
  ◌≡◌, refl, subst, Bool, true, false, ◌&&◌, Option, none, some, List, [], ◌∷◌, str_eq,
  if◌then◌else◌,
}
use chandlery.Base.{filter as select_list}
use chandlery.Base.Int.{pos}
use chandlery.Base.Text.{Text, codes, contains, eq, has_prefix}
use chandlery.Base.Text.Parts.{has_suffix}
use chandlery.Odm.Value.{Value, document, field, end}
use chandlery.Odm.Filter.{build_filter}
use chandlery.Odm.Query.{Query, ModelMeta, new_query, trashed_only}
use chandlery.Odm.Query.Visible.{scope_admits}
use chandlery.Odm.Aggregation.{scoped_pipeline}
use chandlery.Odm.Aggregation.Scoped.{scoped_pipeline-sees}
use chandlery.Tests.Mongo.{Doc, matches, matches-IsMongo}
use chandlery.Db.Postgres.{
  Url, UrlPackage, Config, Panic, rejected, redact_dsn, redacted, ambiguous_dsn, open_db, refused,
  invalid, message, dsn_rejection,
}
use chandlery.Db.Postgres.Redacted.{IsRedacted, IsDiscreet, secret_of, quotes, open_db-IsDiscreet}

abbrev stage : Value → List Doc → List Doc
stage (document (field k f end)) ds = if str_eq k "$match" then select_list (matches f) ds else ds
stage v ds = ds

-- A server that knows $match alone.
abbrev run : List Value → List Doc → List Doc
run [] ds = ds
run (s ∷ pipeline) ds = run pipeline (stage s ds)

abbrev is_geo_near : Value → Bool
is_geo_near (document (field k f fs)) = str_eq k "$geoNear"
is_geo_near v = false

abbrev tasks : ModelMeta
tasks = record { collection = "tasks"; timestamps = true; soft_deletes = true; trackable = true }

abbrev trashed : Query
trashed = record (new_query tasks) { trashed = trashed_only }

abbrev documents : List Doc
documents = (λ f. 3) ∷ (λ f. 0) ∷ []

scoped_pipeline-sees_example :
    run (scoped_pipeline trashed []) documents
    ≡ run [] (
        select_list
          (λ d. matches (build_filter []) d && scope_admits matches matches-IsMongo trashed_only d)
          documents)
scoped_pipeline-sees_example =
    scoped_pipeline-sees matches matches-IsMongo is_geo_near run (λ f p ds c. refl) trashed []
      documents refl

abbrev dsn : Text
dsn = codes "postgres://u:secret@h/d"

abbrev url_with : Text → Url
url_with pw = record {
  scheme = codes "postgres";
  user = some (record { username = codes "u"; password = some pw });
  host = codes "h";
  path = codes "/d";
  raw_query = [];
  fragment = [];
}

-- Package url at the DSN of the tests.
abbrev urls : UrlPackage
urls = record {
  parse = λ s. if eq s dsn then some (url_with (codes "secret")) else none;
  to_text = λ u. u.host;
}

abbrev config : Config
config = record {
  dsn = dsn;
  max_open_conns = pos 0;
  conn_max_lifetime = pos 0;
  conn_max_idle_time = pos 0;
  debug = false;
}

-- A driver that accepts no DSN.
abbrev connect : Text → Option Panic
connect s = some (rejected false (codes "sslmode"))

message_quoted :
    open_db urls connect [] config
    ≡ refused (invalid (redact_dsn urls dsn) (message (codes "sslmode")))
unfolding open_db dsn_rejection ambiguous_dsn contains has_prefix has_suffix eq
message_quoted = refl

open_db-IsDiscreet_example :
    IsRedacted urls (redacted urls config).dsn
    × IsRedacted urls (redact_dsn urls dsn)
    × (contains (codes "sslmode") dsn ≡ false)
    × (quotes (codes "sslmode") (secret_of (urls.parse dsn)) ≡ false)
open_db-IsDiscreet_example =
    let safe = open_db-IsDiscreet urls connect [] config in
    let refused = subst (IsDiscreet urls dsn) message_quoted safe.1 in
    (safe.0, refused.0, refused.1.0, refused.1.1)
