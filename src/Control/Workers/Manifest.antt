-- ===== src/Control/Workers/Manifest.antt =====
-- Manifests of workers and what they approve, control/workers.go.
use vector_transfer.Base.{
  ℕ, String, Bool, false, not, ◌&&◌, ◌||◌, Option, none, some, List, [], ◌∷◌, ◌==◌, if◌then◌else◌,
  length, any, all, ◌!=◌, pos, ltb_ℤ, eqb_ℤ,
}
use vector_transfer.Base.Result.{forbidden, message, Result, ok, err}
use vector_transfer.Base.Dict.{Dict, lookup, insert}
use vector_transfer.Durable.{Calls}
use vector_transfer.Control.Job.{Spec}
use vector_transfer.Control.Workers.{
  WorkerConnection, WorkerPair, WorkerManifest, Worker, Workers, is_between, is_worker_name,
  is_digest, save,
}

abbrev pub zero_connection : WorkerConnection
zero_connection = record {
  name = "";
  kind = "";
  can_read = false;
  can_write = false;
  fingerprint = "";
  resource = "";
}

-- `names[name]`, with the zero connection for a name that is not there.
abbrev pub connection_at : String → Dict WorkerConnection → WorkerConnection
connection_at name names = elim (lookup name names) [ none ↦ zero_connection | some c ↦ c ]

-- The first loop of `ValidateManifest`, which collects the connections by name.
unfoldable pub collect_names :
    Dict WorkerConnection → List WorkerConnection → Option (Dict WorkerConnection)
unfolding is_worker_name is_digest
collect_names names [] = some names
collect_names names (c ∷ rest) =
    if not (is_worker_name c.name)
      || not (is_worker_name c.kind)
      || not (is_digest c.fingerprint)
      || not (is_digest c.resource)
      || (connection_at c.name names).name != ""
    then none
    else collect_names (insert c.name c names) rest

unfoldable pub is_valid_pair : Dict WorkerConnection → WorkerPair → Bool
is_valid_pair names p =
    let s = connection_at p.source names in
    let d = connection_at p.sink names in
    not (
      not s.can_read
      || not d.can_write
      || p.source == p.sink
      || s.resource == d.resource
      || ltb_ℤ p.dimension (pos 1)
      || ltb_ℤ (pos 65536) p.dimension)

-- `ValidateManifest`.
unfoldable pub validate_manifest : WorkerManifest → Result (Unit {0})
unfolding collect_names is_valid_pair
validate_manifest m =
    if not (is_between 1 50 (length m.connections)) || not (is_between 1 100 (length m.pairs))
    then err (message "worker requires 1–50 connections and 1–100 approved pairs")
    else elim (collect_names [] m.connections) [
      | none ↦ err (message "invalid worker connection")
      | some names ↦
          if all (is_valid_pair names) m.pairs
          then ok tt
          else err (message "invalid approved connection pair")
    ]

-- The common end of `Publish` and `Touch`.
unfoldable pub update_entry :
    Calls → String → (Worker → Worker) → Workers → Result (Unit {0}) × Workers
unfolding save
update_entry calls id change w = elim (lookup id w.entries) [
  | none ↦ (err forbidden, w)
  | some e ↦
      if e.revoked
      then (err forbidden, w)
      else save calls (record w { entries = insert id (change e) w.entries })
]

-- `Publish`.
unfoldable pub publish : Calls → ℕ → String → WorkerManifest → Workers → Result (Unit {0}) × Workers
unfolding validate_manifest update_entry
publish calls now id m w = elim (validate_manifest m) [
  | err e ↦ (err e, w)
  | ok _ ↦ update_entry calls id (λ e. record e { manifest = m; last_seen = some now }) w
]

-- `Touch`.
unfoldable pub touch : Calls → ℕ → String → Workers → Result (Unit {0}) × Workers
unfolding update_entry
touch calls now id w = update_entry calls id (λ e. record e { last_seen = some now }) w

-- The first loop of `Connections`: the last connection of a name wins.
unfoldable pub last_named : String → WorkerConnection → List WorkerConnection → WorkerConnection
last_named name found [] = found
last_named name found (c ∷ rest) = last_named name (if c.name == name then c else found) rest

-- `Worker.Connections`.
unfoldable pub approved_connections : Worker → Spec → Result (WorkerConnection × WorkerConnection)
unfolding last_named
approved_connections e spec =
    let src = last_named spec.source zero_connection e.manifest.connections in
    let dst = last_named spec.sink zero_connection e.manifest.connections in
    if any
      (λ p.
        p.source == spec.source
        && p.sink == spec.sink
        && eqb_ℤ p.dimension spec.dimension
        && src.can_read
        && dst.can_write)
      e.manifest.pairs
    then ok (src, dst)
    else err (message "source, destination and dimension must match a locally approved worker pair")
