-- ===== src/Tests/Configs.antt =====
-- The loading of a configuration.
use vector_transfer.Base.{String, ◌≡◌, refl, true, false, Option, none, some, List, [], ◌∷◌}
use vector_transfer.Base.Result.{Error, message, Result, ok, err}
use vector_transfer.Base.Dict.{Dict}
use vector_transfer.Connector.Config.{Connection, Adapter, Opened, Loader, close_all, load_config}
use vector_transfer.Connector.Config.Released.{times, load_releases}

abbrev loader : Loader
loader = record {
  fingerprint = λ parts. "fp";
  fingerprint_custom = λ kind resource version options ro wo. "fp";
  decodes = λ options. true;
  is_name = λ name. true;
  build = λ name c. err (message "unknown connector kind");
}

abbrev connection : Connection
connection = record {
  read_subjects = [];
  write_subjects = [];
  write_only = false;
  aws_role_arn = "";
  aws_external_id_env = "";
  kind = "acme";
  endpoint = "";
  collection = "";
  namespace_ = "";
  bucket = "";
  index = "";
  region = "";
  api_key_env = "";
  distance_metric = "";
  id_type = "";
  read_only = false;
  options = some "{}";
  database = "";
  auth_database = "";
  tenant = "";
  vector_field = "";
  id_field = "";
  metadata_field = "";
  key_prefix = "";
  username_env = "";
  password_env = "";
}

-- An adapter that can only be written to.
abbrev adapter : Adapter
adapter = record {
  source = none;
  sink = some 1;
  resource_id = "r";
  checkpoint_version = "1";
  description = "";
  closer = some 7;
}

abbrev factory : Connection → Option (Result Adapter)
factory c = some (ok adapter)

-- The second connection is refused, since it may not be written to.
abbrev connections : List (String × Connection)
connections = ("a", connection) ∷ ("b", record connection { read_only = true }) ∷ []

load_releases_example :
    let u = load_config loader factory connections in
    ((e : Error) → u.result ≡ err e → times 7 u.closed ≡ times 7 u.opened)
    × ((r : Dict Opened)
        → u.result ≡ ok r
        → (u.closed ≡ []) × (times 7 (close_all r) ≡ times 7 u.opened))
load_releases_example = load_releases loader factory connections 7

-- Both adapters have been closed.
closes_both : times 7 (load_config loader factory connections).closed ≡ 2
unfolding load_config
closes_both = refl
