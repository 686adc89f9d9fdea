-- ===== src/Connector/Personal/Validate.antt =====
-- The tests of connector/personal.go, Validate.
use vector_transfer.Base.{
  String, true, not, ◌&&◌, ◌||◌, none, some, [], ◌∷◌, ◌==◌, if◌then◌else◌, all, ◌!=◌,
}
use vector_transfer.Base.Result.{message, Result, err, ◌>>=◌}
use vector_transfer.Connector.Personal.Additional.{validate_additional}
use vector_transfer.Connector.Personal.{
  PersonalConfig, PersonalCredentials, Net, is_additional, is_builtin, is_clean, name_pattern,
  region_pattern, first_refusal, public_address, is_local_name, is_private_literal, is_origin,
}

module _ {Ip : Type 0} (n : Net Ip) where
  unfoldable pub check_endpoint : String → Result (Unit {0})
  unfolding public_address
  check_endpoint endpoint = elim (n.parse_url endpoint) [
    | none ↦
        err (message "endpoint must be a public HTTPS origin without credentials, query, or path")
    | some u ↦ first_refusal (
        (
          u.scheme != "https" || not (is_origin u),
          "endpoint must be a public HTTPS origin without credentials, query, or path",
        )
        ∷ (
          is_local_name n (n.hostname u),
          "private network endpoints are not supported for personal connections",
        )
        ∷ (
          is_private_literal n (n.hostname u),
          "private network endpoints are not supported for personal connections",
        )
        ∷ [])
  ]

  -- `switch c.Kind` at the end of `Validate`.
  unfoldable pub check_provider : PersonalConfig → Result (Unit {0})
  check_provider c =
      let is = λ (k : String). c.kind == k in
      first_refusal (
        (
          is "polign"
              && (c.collection == ""
                  || c.namespace_ != ""
                  || c.distance_metric != ""
                  || c.id_type != ""),
          "Polign requires a collection and no namespace settings",
        )
        ∷ (
          is "pinecone" && (c.collection != "" || c.distance_metric != "" || c.id_type != ""),
          "Pinecone accepts an index endpoint and optional namespace",
        )
        ∷ (
          is "turbopuffer" && (not (n.matches name_pattern c.namespace_) || c.collection != ""),
          "Turbopuffer requires a valid namespace",
        )
        ∷ (
          is "turbopuffer"
              && c.distance_metric != ""
              && c.distance_metric != "cosine_distance"
              && c.distance_metric != "euclidean_squared",
          "unsupported distance metric",
        )
        ∷ (
          is "turbopuffer"
              && c.id_type != ""
              && c.id_type != "string"
              && c.id_type != "uint"
              && c.id_type != "uuid",
          "unsupported ID type",
        )
        ∷ [])

  -- The tests of `Validate` that come first for the first providers.
  unfoldable pub check_settings : PersonalConfig → PersonalCredentials → Result (Unit {0})
  unfolding is_builtin is_clean
  check_settings c k = first_refusal (
      (
        k.username != ""
            || k.password != ""
            || c.database != ""
            || c.auth_database != ""
            || c.tenant != ""
            || c.vector_field != ""
            || c.id_field != ""
            || c.metadata_field != ""
            || c.key_prefix != "",
        "unsupported settings for this provider",
      )
      ∷ (not (is_builtin c.kind), "choose Polign, Pinecone, Turbopuffer, or S3 Vectors")
      ∷ (
        not (
            all (is_clean 2048)
              (c.endpoint ∷ c.collection ∷ c.namespace_ ∷ c.region ∷ c.bucket ∷ c.index ∷ [])),
        "invalid connection setting",
      )
      ∷ (
        not (
            all (is_clean 16384)
              (k.api_key ∷ k.access_key_id ∷ k.secret_access_key ∷ k.session_token ∷ [])),
        "invalid credential format",
      )
      ∷ [])

  -- The tests for S3 Vectors.
  unfoldable pub check_s3 : PersonalConfig → PersonalCredentials → Result (Unit {0})
  check_s3 c k = first_refusal (
      (
        c.endpoint != ""
            || c.collection != ""
            || c.namespace_ != ""
            || c.distance_metric != ""
            || c.id_type != ""
            || k.api_key != "",
        "S3 Vectors accepts region, bucket, index, and AWS credentials",
      )
      ∷ (
        not (n.matches region_pattern c.region)
            || not (n.matches name_pattern c.bucket)
            || not (n.matches name_pattern c.index),
        "S3 Vectors requires a valid region, vector bucket, and index",
      )
      ∷ (
        k.access_key_id == "" || k.secret_access_key == "",
        "AWS access key ID and secret access key are required",
      )
      ∷ [])

  -- The tests for the providers with an API key.
  unfoldable pub check_keyed : PersonalConfig → PersonalCredentials → Result (Unit {0})
  check_keyed c k = first_refusal (
      (
        c.region != ""
            || c.bucket != ""
            || c.index != ""
            || k.access_key_id != ""
            || k.secret_access_key != ""
            || k.session_token != "",
        "this provider accepts an API key, not AWS credentials",
      )
      ∷ (k.api_key == "", "an API key is required")
      ∷ [])

  -- `Validate` for the first providers.
  unfoldable pub validate_first : PersonalConfig → PersonalCredentials → Result (Unit {0})
  unfolding check_settings check_s3 check_keyed check_endpoint check_provider
  validate_first c k = check_settings c k >>= λ settings.
      if c.kind == "s3vectors"
      then check_s3 c k
      else check_keyed c k >>= λ keyed. check_endpoint c.endpoint >>= λ endpoint. check_provider c

  -- `Validate`.
  unfoldable pub validate : PersonalConfig → PersonalCredentials → Result (Unit {0})
  validate c k = if is_additional c.kind then validate_additional n true c k else validate_first c k
