-- ===== src/Client/Enroll.antt =====
-- Enroll, LoadConfig and Manifest of worker/worker.go.
use vector_transfer.Base.{
  ℕ, String, Bool, true, false, not, ◌&&◌, ◌||◌, Option, none, some, List, [], ◌∷◌, ◌==◌, eqb,
  if◌then◌else◌, is_some, any, ◌!=◌, ◌<>◌, byte_length,
}
use vector_transfer.Base.Result.{message, Result, ok, err, ◌>>=◌}
use vector_transfer.Base.Dict.{Dict}
use vector_transfer.Durable.{Calls, write}
use vector_transfer.Connector.{Binding}
use vector_transfer.Account.{Reply}
use vector_transfer.Control.Workers.{WorkerConnection, WorkerPair, WorkerManifest}
use vector_transfer.Control.Workers.Manifest.{validate_manifest}
use vector_transfer.Control.Views.{list_registry}
use vector_transfer.Client.{Identity, Client, Local, validate_url, receive, is_hex}

-- The tests of `Enroll` before its request; `id` and `token` are what strings.Cut finds in the
-- enrollment text, if it has a dot. `seed` is the seed of a new key.
unfoldable pub prepare_enroll :
    Local
    → Calls
    → String
    → Bool
    → Option (String × String)
    → List ℕ
    → Client
    → Result (String × String) × Client
unfolding validate_url is_hex write
prepare_enroll l calls raw allow_local_http cut seed c =
    elim (validate_url l raw allow_local_http) [
      | err e ↦ (err e, c)
      | ok base ↦ elim cut [
        | none ↦ (err (message "invalid enrollment token"), c)
        | some (id, token) ↦
            let mine : Identity = record { id = id; url = base; seed = seed; enrolled = false } in
            let (r, file) = write calls (some mine) c.file in
            if not (eqb (byte_length id) 32)
              || not (eqb (byte_length token) 64)
              || not (is_hex (id <> token))
            then (err (message "invalid enrollment token"), c)
            else if c.identity.id != "" && (c.identity.id != id || c.identity.url != base)
            then (err (message "data directory belongs to another worker or control plane"), c)
            else if c.identity.id == ""
            then (
              elim r [ err e ↦ err e | ok _ ↦ ok (id, token) ],
              record c { file = file; identity = mine },
            )
            else (ok (id, token), c)
      ]
    ]

-- `Enroll`. `plane` answers an enrollment of an ID with a token and a public key.
unfoldable pub enroll :
    Local
    → Calls
    → Calls
    → String
    → Bool
    → Option (String × String)
    → List ℕ
    → (String → String → String → Reply Bool)
    → Client
    → Result (Unit {0}) × Client
unfolding prepare_enroll receive write
enroll l calls calls' raw allow_local_http cut seed plane c =
    let (prepared, c1) = prepare_enroll l calls raw allow_local_http cut seed c in
    elim prepared [
      | err e ↦ (err e, c1)
      | ok (id, token) ↦
          let (r, c2) = receive (plane id token (l.encode64 (l.public_key c1.identity.seed))) c1 in
          let mine = record c2.identity { enrolled = true } in
          let (saved, file) = write calls' (some mine) c2.file in
          elim r [
            | err e ↦ (err e, c2)
            | ok done ↦
                if not done
                then (err (message "worker enrollment rejected"), c2)
                else (saved, record c2 { file = file; identity = mine })
          ]
    ]

-- `Config`.
pub record Config : Type 0 where
  pub connections_file : String
  pub pairs : List WorkerPair

-- `LoadConfig`, of what the file decodes to. `is_abs` and `beside` are filepath.IsAbs and the path of a
-- name in the configuration's directory.
unfoldable pub load_config : (String → Bool) → (String → String) → Result Config → Result Config
load_config is_abs beside decoded = decoded >>= λ cfg.
    if cfg.connections_file == ""
    then err (message "connections_file is required")
    else if not (is_abs cfg.connections_file)
    then ok (record cfg { connections_file = beside cfg.connections_file })
    else ok cfg

-- `opaque`.
unfoldable pub opaque : Local → Client → String → String
opaque l c s = l.hmac_hex c.identity.seed s

unfoldable pub approved_names :
    Local → Client → List WorkerPair → List Binding → List WorkerConnection
unfolding opaque
approved_names l c pairs [] = []
approved_names l c pairs (b ∷ rest) =
    let found = approved_names l c pairs rest in
    let resource = if b.resource == "" then b.fingerprint else b.resource in
    if not (any (λ p. p.source == b.name || p.sink == b.name) pairs)
    then found
    else record {
      name = b.name;
      kind = b.kind;
      can_read = is_some b.source;
      can_write = is_some b.sink;
      fingerprint = opaque l c b.fingerprint;
      resource = opaque l c resource;
    }
      ∷ found

-- `Manifest`.
unfoldable pub manifest : Local → Client → Dict Binding → List WorkerPair → Result WorkerManifest
unfolding approved_names
manifest l c registry pairs =
    let m : WorkerManifest = record {
      connections = approved_names l c pairs (list_registry l.before registry);
      pairs = pairs;
    } in
    validate_manifest m >>= λ valid. ok m
