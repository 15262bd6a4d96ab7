-- ===== src/Storage/S3/Config.antt =====
-- storage/s3/s3.go: the configuration of a disk, what of it is shown, and NewDisk. The environment is
-- that of env; minio.New is a parameter.
use chandlery.Base.{Bool, false, ◌||◌, List, [], ◌∷◌, if◌then◌else◌}
use chandlery.Base.Text.{Text, is_empty, codes}
use chandlery.Env.{Host, get, get_bool}
use chandlery.Storage.S3.{
  Disk, Answer, replied, failed, empty_endpoint, empty_credentials, setup, Result, ok, err,
}

pub record Config : Type 0 where
  pub endpoint : Text
  pub access_key_id : Text
  pub secret_access_key : Text
  pub region : Text
  pub use_ssl : Bool

abbrev pub or_default : Text → Text → Text
or_default default [] = default
or_default default (c ∷ s) = c ∷ s

unfoldable pub endpoint : Host → Text
endpoint h = or_default (codes "127.0.0.1:9000") (get h "S3_ENDPOINT" ([] ∷ []))

unfoldable pub access_key_id : Host → Text
access_key_id h = or_default (codes "minioadmin") (get h "S3_ACCESS_KEY_ID" ([] ∷ []))

unfoldable pub secret_access_key : Host → Text
secret_access_key h = or_default (codes "minioadmin") (get h "S3_SECRET_ACCESS_KEY" ([] ∷ []))

unfoldable pub region : Host → Text
region h = get h "S3_REGION" ([] ∷ [])

unfoldable pub config_from_env : Host → Config
config_from_env h = record {
  endpoint = endpoint h;
  access_key_id = access_key_id h;
  secret_access_key = secret_access_key h;
  region = region h;
  use_ssl = get_bool h "S3_USE_SSL" (false ∷ []);
}

abbrev pub hidden : Text → Text
hidden [] = []
hidden (c ∷ s) = codes "[REDACTED]"

-- What a Config prints as.
unfoldable pub redacted : Config → Config
redacted c = record c { secret_access_key = hidden c.secret_access_key }

abbrev pub configured : Disk → List (Disk → Disk) → Disk
configured d [] = d
configured d (opt ∷ opts) = configured (opt d) opts

abbrev pub opened : Text → List (Disk → Disk) → Answer (Unit {0}) → Result Disk
opened bucket opts (failed e) = err (setup e)
opened bucket opts (replied u) =
    ok (configured (record { bucket = bucket; prefix = []; public_base_url = [] }) opts)

-- The first argument is minio.New, which asks no server.
unfoldable pub new_disk :
    (Config → Answer (Unit {0})) → Config → Text → List (Disk → Disk) → Result Disk
new_disk connect c bucket opts =
    if is_empty c.endpoint
    then err empty_endpoint
    else if is_empty c.access_key_id || is_empty c.secret_access_key
    then err empty_credentials
    else opened bucket opts (connect c)

-- New
unfoldable pub new_from_env :
    (Config → Answer (Unit {0})) → Host → Text → List (Disk → Disk) → Result Disk
new_from_env connect h bucket opts = new_disk connect (config_from_env h) bucket opts
