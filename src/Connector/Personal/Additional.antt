-- ===== src/Connector/Personal/Additional.antt =====
-- The tests of connector/additional.go, validateAdditional, and its defaults.
use vector_transfer.Base.{
  String, Bool, not, ◌&&◌, ◌||◌, none, some, [], ◌∷◌, ◌==◌, if◌then◌else◌, all, ◌!=◌,
  trim_right_code,
}
use vector_transfer.Base.Result.{message, Result, err, ◌>>=◌}
use vector_transfer.Account.{Url}
use vector_transfer.Connector.Personal.{
  PersonalConfig, PersonalCredentials, Net, contains_any, is_clean, name_pattern, field_pattern,
  default_text, first_refusal, public_address, is_local_name, is_private_literal, is_origin,
}

-- `additionalDefaults`.
unfoldable pub additional_defaults : PersonalConfig → PersonalConfig
additional_defaults c =
    let is = λ (k : String). c.kind == k in
    record c {
      endpoint = trim_right_code b'/' c.endpoint;
      auth_database =
          if is "mongodb" then default_text "admin" c.auth_database else c.auth_database;
      vector_field = default_text "vector" c.vector_field;
      id_field = default_text "id" c.id_field;
      metadata_field = default_text "metadata" c.metadata_field;
      id_type =
          default_text
            (if is "mongodb" then "objectid" else if is "milvus" then "int64" else "string")
            c.id_type;
      tenant = if is "chroma" then default_text "default_tenant" c.tenant else c.tenant;
      database =
          if is "chroma"
          then default_text "default_database" c.database
          else if is "milvus"
          then default_text "default" c.database
          else if is "redis"
          then default_text "0" c.database
          else c.database;
    }

module _ {Ip : Type 0} (n : Net Ip) where
  -- The scheme that `validateAdditional` asks for. `public_` is a user's own connection.
  unfoldable pub check_scheme :
      Bool → PersonalConfig → PersonalCredentials → Url → Result (Unit {0})
  check_scheme public_ c k u =
      let is = λ (kind : String). c.kind == kind in
      let no_secret = not public_ && k.password == "" in
      if is "pgvector"
      then first_refusal
          ((u.scheme != "postgresql", "pgvector requires a postgresql://host:port endpoint") ∷ [])
      else if is "redis"
      then first_refusal (
          (
            u.scheme != "rediss" && not (u.scheme == "redis" && no_secret),
            "Redis requires a rediss://host:port endpoint",
          )
          ∷ [])
      else if is "mongodb"
      then first_refusal (
          (
            u.scheme != "mongodb" && u.scheme != "mongodb+srv",
            "MongoDB requires a mongodb:// or mongodb+srv:// endpoint",
          )
          ∷ [])
      else first_refusal (
          (
            u.scheme != "https" && not (u.scheme == "http" && no_secret && k.api_key == ""),
            "authenticated HTTP connections require HTTPS",
          )
          ∷ [])

  -- The first tests of `validateAdditional`, on the texts and the credentials.
  unfoldable pub check_texts : Bool → PersonalConfig → PersonalCredentials → Result (Unit {0})
  unfolding is_clean
  check_texts public_ c k = first_refusal (
      (
        not (
            all (is_clean 2048) (
              c.endpoint ∷ c.collection ∷ c.namespace_ ∷ c.index ∷ c.database ∷ c.auth_database
              ∷ c.tenant ∷ c.vector_field ∷ c.id_field ∷ c.metadata_field ∷ c.key_prefix ∷ c.id_type
              ∷ [])),
        "invalid connection setting",
      )
      ∷ (
        not (all (is_clean 16384) (k.api_key ∷ k.username ∷ k.password ∷ [])),
        "invalid credential format",
      )
      ∷ (
        k.access_key_id != ""
            || k.secret_access_key != ""
            || k.session_token != ""
            || c.region != ""
            || c.bucket != ""
            || c.distance_metric != "",
        "unsupported provider settings",
      )
      ∷ (
        k.api_key != "" && (k.username != "" || k.password != ""),
        "choose API key or username/password authentication",
      )
      ∷ (
        (k.username != "" && k.password == "")
            || (k.password != "" && k.username == "" && c.kind != "redis"),
        "username and password are required together",
      )
      ∷ (public_ && k.api_key == "" && k.password == "", "database credentials are required")
      ∷ [])

  -- The last tests of `validateAdditional`, on the settings with their defaults.
  unfoldable pub check_names : PersonalConfig → PersonalCredentials → Result (Unit {0})
  unfolding contains_any
  check_names c k =
      let is = λ (kind : String). c.kind == kind in
      let searches = is "elasticsearch" || is "opensearch" in
      let named = λ (s : String). n.matches name_pattern s in
      let field = λ (s : String). n.matches field_pattern s in
      first_refusal (
        (
          not (field c.vector_field)
              || not (field c.id_field)
              || not (field c.metadata_field)
              || c.vector_field == c.id_field
              || c.vector_field == c.metadata_field
              || c.metadata_field == c.id_field,
          "field names must be distinct simple identifiers",
        )
        ∷ (searches && not (named c.index), "one concrete index name is required")
        ∷ (
          is "redis" && (c.key_prefix == "" || contains_any c.key_prefix "*?[]\\"),
          "a literal Redis key prefix is required",
        )
        ∷ (
          not searches
              && not (is "redis")
              && (not (named c.collection) || c.collection == "." || c.collection == ".."),
          "a valid collection or table name is required",
        )
        ∷ ((is "pgvector" || is "mongodb") && not (named c.database), "database is required")
        ∷ (is "pgvector" && not (field c.collection), "use a table name in the public schema")
        ∷ (
          is "milvus" && (c.id_type != "int64" || not (named c.database)),
          "Milvus transfer requires an INT64 primary key and a database name",
        )
        ∷ (is "mongodb" && not (named c.auth_database), "invalid authentication database")
        ∷ (
          is "mongodb" && c.id_type != "string" && c.id_type != "objectid" && c.id_type != "int64",
          "MongoDB ID type must be objectid, string, or int64",
        )
        ∷ (
          is "chroma" && (not (named c.tenant) || not (named c.database)),
          "valid Chroma tenant and database are required",
        )
        ∷ (
          (is "pgvector" || is "redis" || is "mongodb") && k.api_key != "",
          "this database uses username/password credentials",
        )
        ∷ [])

  -- `validateAdditional`.
  unfoldable pub validate_additional :
      Bool → PersonalConfig → PersonalCredentials → Result (Unit {0})
  unfolding check_texts check_scheme check_names additional_defaults public_address
  validate_additional public_ c k = check_texts public_ c k >>= λ texts.
      elim (n.parse_url c.endpoint) [
        | none ↦ err (message "endpoint must be an origin without credentials, query, or path")
        | some u ↦
            first_refusal (
              (not (is_origin u), "endpoint must be an origin without credentials, query, or path")
              ∷ [])
            >>= λ origin. check_scheme public_ c k u >>= λ scheme.
                first_refusal (
                  (
                    public_ && is_local_name n (n.hostname u),
                    "private network endpoints are not supported",
                  )
                  ∷ (
                    public_ && is_private_literal n (n.hostname u),
                    "private network endpoints are not supported",
                  )
                  ∷ [])
                >>= λ host. check_names (additional_defaults c) k
      ]
