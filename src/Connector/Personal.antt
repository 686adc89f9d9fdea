-- ===== src/Connector/Personal.antt =====
-- The users' own connections: PersonalConfig and PersonalCredentials of connector/personal.go with the
-- tests of their settings there and in connector/additional.go.
pub mod Validate
pub mod Additional
pub mod Dial
pub mod Documents
pub mod Accepted
use vector_transfer.Base.{
  ℕ, zero, suc, ◌+◌, ◌-◌, ◌*◌, ◌/◌, ◌%◌, ◌^◌, ◌≤◌, ◌<◌, min, max, String, ◌≡◌, refl, sym, ap, ◌∙◌,
  subst, ◌≢◌, ◌↔◌, ◌⊎◌, inl, inr, Bool, true, false, not, ◌&&◌, ◌||◌, Option, none, some, List, [],
  ◌∷◌, ◌++◌, append-nil, append_assoc, arith, ◌==◌, eq_iff, ltb, leb, eqb, if◌then◌else◌, ltb→lt,
  ltb→le, leb→le, leb→lt, tests, Bool-cases, Option-cases, is_some, is_none, &&-eq_true, ||-eq_true,
  length, take, drop, any, all, count, All, In, length-append, take-append-drop, length-take-le,
  length-drop, any-In, all-In, ◌!=◌, ◌<>◌, byte_length, ==_refl, ==_sound, String-discrete, decimal,
  decimal_ℤ, ℤ, pos, negsuc, pos_part, neg_part, ltb_ℤ, eqb_ℤ, ◌≤ℤ◌, eqb_ℤ_sound, any-false,
  false-any, All-map, take-all, take-append_left, any-take, codes, trim_space, cut_prefix,
  trim_right_code,
}
use vector_transfer.Base.Result.{
  Error, not_found, conflict, forbidden, unavailable, unauthorized, canceled_context,
  journal_failed, vault_unavailable, workers_unavailable, message, Result, ok, err, ◌>>=◌, is_ok,
  Result-cases,
}
use vector_transfer.Account.{Url}

-- `PersonalConfig` and `PersonalCredentials`.
pub record PersonalConfig : Type 0 where
  pub kind : String
  pub endpoint : String
  pub collection : String
  pub namespace_ : String
  pub region : String
  pub bucket : String
  pub index : String
  pub distance_metric : String
  pub id_type : String
  pub database : String
  pub auth_database : String
  pub tenant : String
  pub vector_field : String
  pub id_field : String
  pub metadata_field : String
  pub key_prefix : String

pub record PersonalCredentials : Type 0 where
  pub api_key : String
  pub access_key_id : String
  pub secret_access_key : String
  pub session_token : String
  pub username : String
  pub password : String

-- url.Parse and Hostname, strings.EqualFold, ToLower and HasSuffix, a match of a regular expression, and
-- net/netip: the tests of an address. A prefix is its text.
pub record Net (Ip : Type 0) : Type 0 where
  pub parse_url : String → Option Url
  pub hostname : Url → String
  pub equal_fold : String → String → Bool
  pub to_lower : String → String
  pub has_suffix : String → String → Bool
  pub matches : String → String → Bool
  pub parse_addr : String → Option Ip
  pub unmap : Ip → Ip
  pub is_global_unicast : Ip → Bool
  pub is_private : Ip → Bool
  pub is_loopback : Ip → Bool
  pub is_link_local_unicast : Ip → Bool
  pub prefix_contains : String → Ip → Bool

-- `isAdditional` and `isBuiltin`.
unfoldable pub is_additional : String → Bool
is_additional kind =
    any (λ k. kind == k)
      ("weaviate" ∷ "milvus" ∷ "elasticsearch" ∷ "opensearch" ∷ "pgvector" ∷ "chroma" ∷ "redis"
        ∷ "mongodb" ∷ "faiss" ∷ "solr" ∷ "qdrant" ∷ [])

unfoldable pub is_builtin : String → Bool
unfolding is_additional
is_builtin kind =
    is_additional kind
    || any (λ k. kind == k) ("polign" ∷ "pinecone" ∷ "turbopuffer" ∷ "s3vectors" ∷ [])

-- `strings.ContainsAny`.
unfoldable pub contains_any : String → String → Bool
unfolding codes
contains_any s chars = any (λ x. any (eqb x) (codes chars)) (codes s)

-- The tests of a setting's and of a credential's text.
unfoldable pub is_clean : ℕ → String → Bool
unfolding contains_any
is_clean limit value = not (ltb limit (byte_length value) || contains_any value "\r\n\0")

abbrev pub name_pattern : String
name_pattern = "^[A-Za-z0-9_.-]{1,128}$"

abbrev pub field_pattern : String
field_pattern = "^[A-Za-z_][A-Za-z0-9_]{0,127}$"

abbrev pub region_pattern : String
region_pattern = "^[a-z]{2}-[a-z]+(?:-[a-z]+)?-[0-9]+$"

-- `excludedNetworks`.
abbrev pub excluded_networks : List String
excluded_networks =
    "100.64.0.0/10" ∷ "192.0.0.0/24" ∷ "192.0.2.0/24" ∷ "198.18.0.0/15" ∷ "198.51.100.0/24"
    ∷ "203.0.113.0/24" ∷ "240.0.0.0/4" ∷ "168.63.129.16/32" ∷ "2001:db8::/32" ∷ "64:ff9b::/96"
    ∷ "64:ff9b:1::/48" ∷ "2002::/16" ∷ "::/96" ∷ "2001::/32" ∷ []

abbrev pub default_text : String → String → String
default_text d s = if s == "" then d else s

-- Go's tests in sequence: the message of the first that holds.
unfoldable pub first_refusal : List (Bool × String) → Result (Unit {0})
first_refusal [] = ok tt
first_refusal ((failed, text) ∷ rest) =
    let others = first_refusal rest in if failed then err (message text) else others

-- What every endpoint must be.
abbrev pub is_origin : Url → Bool
is_origin u =
    u.host != ""
    && not u.has_user
    && u.raw_query == ""
    && u.fragment == ""
    && (u.path == "" || u.path == "/")

module _ {Ip : Type 0} (n : Net Ip) where
  -- `publicAddress`.
  unfoldable pub public_address : Ip → Bool
  public_address ip =
      let a = n.unmap ip in
      not (
        not (n.is_global_unicast a)
        || n.is_private a
        || n.is_loopback a
        || n.is_link_local_unicast a)
      && not (any (λ prefix. n.prefix_contains prefix a) excluded_networks)

  -- The host is the local one by its name.
  abbrev pub is_local_name : String → Bool
  is_local_name host = n.equal_fold host "localhost" || n.has_suffix (n.to_lower host) ".localhost"

  -- The host is written as an address, which is not public.
  abbrev pub is_private_literal : String → Bool
  is_private_literal host = elim (n.parse_addr host) [
    | none ↦ false
    | some ip ↦ not (public_address ip)
  ]
