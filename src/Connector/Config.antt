-- ===== src/Connector/Config.antt =====
-- The opening of configured connections: openCustom of connector/factory.go and LoadConfig of
-- connector/config.go. Each function tells, beside its result, which adapters have been opened and which
-- have been closed, by the handles of their Close.
pub mod Released
use vector_transfer.Base.{
  ℕ, zero, suc, ◌+◌, ◌-◌, ◌*◌, ◌/◌, ◌%◌, ◌^◌, ◌≤◌, ◌<◌, min, max, String, ◌≡◌, refl, sym, ap, ◌∙◌,
  subst, ◌≢◌, ◌↔◌, ◌⊎◌, inl, inr, Bool, true, false, not, ◌&&◌, ◌||◌, Option, none, some, List, [],
  ◌∷◌, ◌++◌, append-nil, append_assoc, arith, ◌==◌, eq_iff, ltb, leb, eqb, if◌then◌else◌, ltb→lt,
  ltb→le, leb→le, leb→lt, tests, Bool-cases, Option-cases, is_some, is_none, &&-eq_true, ||-eq_true,
  length, take, drop, any, all, count, All, In, length-append, take-append-drop, length-take-le,
  length-drop, any-In, all-In, ◌!=◌, ◌<>◌, byte_length, ==_refl, ==_sound, String-discrete, decimal,
  decimal_ℤ, ℤ, pos, negsuc, pos_part, neg_part, ltb_ℤ, eqb_ℤ, ◌≤ℤ◌, eqb_ℤ_sound, any-false,
  false-any, All-map, take-all, take-append_left, any-take, codes, trim_space, cut_prefix,
  trim_right_code,
}
use vector_transfer.Base.Result.{
  Error, not_found, conflict, forbidden, unavailable, unauthorized, canceled_context,
  journal_failed, vault_unavailable, workers_unavailable, message, Result, ok, err, ◌>>=◌, is_ok,
  Result-cases, bind_parts,
}
use vector_transfer.Base.Dict.{
  Dict, lookup, insert, delete, values, lookup-insert, lookup-delete, lookup-In, dict_laws,
}
use vector_transfer.Connector.{Handle, Binding}

-- `Connection`. Options is its raw JSON, if it is there.
pub record Connection : Type 0 where
  pub read_subjects : List String
  pub write_subjects : List String
  pub write_only : Bool
  pub aws_role_arn : String
  pub aws_external_id_env : String
  pub kind : String
  pub endpoint : String
  pub collection : String
  pub namespace_ : String
  pub bucket : String
  pub index : String
  pub region : String
  pub api_key_env : String
  pub distance_metric : String
  pub id_type : String
  pub read_only : Bool
  pub options : Option String
  pub database : String
  pub auth_database : String
  pub tenant : String
  pub vector_field : String
  pub id_field : String
  pub metadata_field : String
  pub key_prefix : String
  pub username_env : String
  pub password_env : String

-- `Adapter`. `closer` is the handle of its Close, if it has one.
pub record Adapter : Type 0 where
  pub source : Option Handle
  pub sink : Option Handle
  pub resource_id : String
  pub checkpoint_version : String
  pub description : String
  pub closer : Option Handle

-- A binding with its `close`.
pub record Opened : Type 0 where
  pub binding : Binding
  pub closer : Option Handle

-- `Fingerprint` of texts and of what identifies a custom connection, DecodeOptions of the options, a
-- match of the pattern of names, and `build` of the built-in kinds, which leaves nothing open if it fails.
pub record Loader : Type 0 where
  pub fingerprint : List String → String
  pub fingerprint_custom : String → String → String → Option String → Bool → Bool → String
  pub decodes : Option String → Bool
  pub is_name : String → Bool
  pub build : String → Connection → Result Opened

-- What an opening does: its result, and the handles that it opens and closes.
pub record Outcome {ℓ} (A : Type ℓ) : Type ℓ where
  pub result : Result A
  pub opened : List Handle
  pub closed : List Handle

abbrev pub handles : Option Handle → List Handle
handles none = []
handles (some k) = k ∷ []

-- The connection without the fields that a custom factory does not see.
abbrev pub has_only_options : Connection → Bool
has_only_options c =
    all (λ s. s == "")
      (c.aws_role_arn ∷ c.aws_external_id_env ∷ c.endpoint ∷ c.collection ∷ c.namespace_ ∷ c.bucket
        ∷ c.index ∷ c.region ∷ c.api_key_env ∷ c.distance_metric ∷ c.id_type ∷ c.database
        ∷ c.auth_database ∷ c.tenant ∷ c.vector_field ∷ c.id_field ∷ c.metadata_field ∷ c.key_prefix
        ∷ c.username_env ∷ c.password_env ∷ [])

-- The binding of an adapter whose directions have been restricted.
unfoldable pub custom_binding : Loader → String → Connection → Adapter → Binding
custom_binding l name c a =
    let resource = l.fingerprint (c.kind ∷ a.resource_id ∷ []) in
    record {
      label = "";
      personal = false;
      read_subjects = [];
      write_subjects = [];
      name = name;
      kind = c.kind;
      description = a.description;
      resource = resource;
      fingerprint =
          l.fingerprint_custom c.kind a.resource_id a.checkpoint_version c.options c.read_only
            c.write_only;
      can_read = is_some a.source;
      can_write = is_some a.sink;
      source = a.source;
      sink = a.sink;
    }

abbrev pub fails {ℓ} : {A : Type ℓ} → Adapter → String → Outcome A
fails a text = record {
  result = err (message text);
  opened = handles a.closer;
  closed = handles a.closer;
}

-- What `openCustom` does with the adapter that the factory has opened.
unfoldable pub use_adapter : Loader → String → Connection → Adapter → Outcome Opened
unfolding custom_binding
use_adapter l name c a =
    let restricted = record a {
      sink = if c.read_only then none else a.sink;
      source = if c.write_only then none else a.source;
    } in
    if a.resource_id == "" || a.checkpoint_version == ""
    then fails a "factory must return resource identity and checkpoint version"
    else if is_none a.source && is_none a.sink
    then fails a "factory must provide a source or sink"
    else if is_none restricted.source && is_none restricted.sink
    then fails a "direction restriction: read_only disables this sink-only connection"
    else record {
      result = ok (record { binding = custom_binding l name c restricted; closer = a.closer });
      opened = handles a.closer;
      closed = [];
    }

abbrev pub opens_nothing {ℓ} : {A : Type ℓ} → Result A → Outcome A
opens_nothing r = record { result = r; opened = []; closed = [] }

-- What `build` does.
abbrev pub built : Result Opened → Outcome Opened
built (err e) = opens_nothing (err e)
built (ok o) = record { result = ok o; opened = handles o.closer; closed = [] }

-- `openCustom`. `made` is what the factory answers.
unfoldable pub open_custom : Loader → String → Connection → Result Adapter → Outcome Opened
unfolding use_adapter
open_custom l name c made =
    if not (has_only_options c)
    then opens_nothing (
        err (
          message
            "custom connections accept kind, read_only, write_only, read_subjects, write_subjects, and options only"))
    else if not (l.decodes c.options)
    then opens_nothing (err (message "invalid connector options or unknown fields"))
    else elim made [ err e ↦ opens_nothing (err e) | ok a ↦ use_adapter l name c a ]

-- The grants and the direction that LoadConfig gives to an opened connection.
unfoldable pub granted_binding : Connection → Opened → Opened
granted_binding c o =
    let b = record o.binding {
      read_subjects = c.read_subjects;
      write_subjects = c.write_subjects;
    } in
    record o { binding = if c.write_only then record b { source = none; can_read = false } else b }

-- `Registry.Close`: the handles that it closes.
unfoldable pub close_all : Dict Opened → List Handle
close_all [] = []
close_all ((name, o) ∷ rest) = handles o.closer ++ close_all rest

-- One connection of LoadConfig. `made` is what the factory of its kind answers, if there is one.
unfoldable pub load_one : Loader → String → Connection → Option (Result Adapter) → Outcome Opened
unfolding open_custom
load_one l name c made =
    if not (l.is_name name)
    then opens_nothing (err (message "invalid connection name"))
    else if c.read_only && c.write_only
    then opens_nothing (err (message "read_only and write_only cannot both be set"))
    else elim made [ none ↦ built (l.build name c) | some answer ↦ open_custom l name c answer ]

-- The loop of LoadConfig. The names are the keys of a map, so that each one adds an entry to the registry.
-- `factory` gives what the factory of a connection's kind answers, if there is one.
unfoldable pub load_loop :
    Loader
    → (Connection → Option (Result Adapter))
    → Dict Opened
    → List (String × Connection)
    → Outcome (Dict Opened)
unfolding load_one granted_binding close_all
load_loop l factory r [] = opens_nothing (ok r)
load_loop l factory r ((name, c) ∷ rest) =
    let one = load_one l name c (factory c) in
    elim one.result [
      | err e ↦ record { result = err e; opened = one.opened; closed = one.closed ++ close_all r }
      | ok o ↦
          let later = load_loop l factory ((name, granted_binding c o) ∷ r) rest in
          record {
            result = later.result;
            opened = one.opened ++ later.opened;
            closed = later.closed;
          }
    ]

-- `LoadConfig` of the connections of a file, sorted by their names.
unfoldable pub load_config :
    Loader
    → (Connection → Option (Result Adapter))
    → List (String × Connection)
    → Outcome (Dict Opened)
unfolding load_loop
load_config l factory connections = load_loop l factory [] connections
