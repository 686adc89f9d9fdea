-- ===== src/Control/Engine/Submit.antt =====
-- The admission of jobs, `Submit` of control/engine.go.
use vector_transfer.Base.{
  String, Bool, false, not, ◌&&◌, ◌||◌, Option, none, some, List, [], ◌∷◌, ◌==◌, ltb, if◌then◌else◌,
  ◌!=◌, ◌<>◌, byte_length, ℤ, pos, negsuc, ltb_ℤ, eqb_ℤ, trim_space,
}
use vector_transfer.Base.Result.{forbidden, message, Result, ok, err, ◌>>=◌}
use vector_transfer.Connector.{Binding}
use vector_transfer.Control.Job.{Job, Spec, Owner}
use vector_transfer.Control.Journal.{Codec, Store, Io}
use vector_transfer.Control.Store.{create}
use vector_transfer.Control.Workers
use vector_transfer.Control.Workers.{Workers}
use vector_transfer.Control.Workers.Manifest.{approved_connections}
use vector_transfer.Control.Engine.{Engine, connection, may_read, may_write}

-- The tests of `Submit` before the limits: who may submit what.
unfoldable pub may_submit : Engine → Spec → List Owner → Bool
unfolding connection
may_submit e spec [] = e.account_realm == ""
may_submit e spec (o ∷ []) =
    not (e.account_realm == "")
    && o.realm == e.account_realm
    && o.id != ""
    && o.subject != ""
    && (spec.worker_id != ""
        || (may_read (connection e spec.source) o.subject
            && may_write (connection e spec.sink) o.subject))
may_submit e spec (o ∷ p ∷ rest) = false

abbrev pub within : ℤ → ℤ → ℤ → Bool
within lo hi x = not (ltb_ℤ x lo) && not (ltb_ℤ hi x)

abbrev pub default_to : ℤ → ℤ → ℤ
default_to d x = if eqb_ℤ x (pos 0) then d else x

unfoldable pub check_name : Spec → Result Spec
check_name spec =
    let name = trim_space spec.name in
    if name == "" || ltb 160 (byte_length name)
    then err (message "name must contain 1–160 bytes")
    else ok (record spec { name = name })

unfoldable pub check_dimension : Spec → Result Spec
check_dimension spec =
    if within (pos 1) (pos 65536) spec.dimension
    then ok spec
    else err (message "dimension must be between 1 and 65536")

unfoldable pub check_batch_size : Spec → Result Spec
check_batch_size spec =
    let size = default_to (pos 100) spec.batch_size in
    if within (pos 1) (pos 500) size
    then ok (record spec { batch_size = size })
    else err (message "batch_size must be between 1 and 500")

unfoldable pub check_max_attempts : Spec → Result Spec
check_max_attempts spec =
    let attempts = default_to (pos 5) spec.max_attempts in
    if within (pos 1) (pos 10) attempts
    then ok (record spec { max_attempts = attempts })
    else err (message "max_attempts must be between 1 and 10")

unfoldable pub check_max_restarts : Spec → Result Spec
check_max_restarts spec =
    let restarts = default_to (pos 3) spec.max_restarts in
    if within (negsuc 0) (pos 10) restarts
    then ok (record spec { max_restarts = restarts })
    else err (message "max_restarts must be -1 (disabled) or 0–10 (0 defaults to 3)")

-- The limits of `Submit`, with the defaults filled in.
unfoldable pub normalize : Spec → Result Spec
unfolding check_name check_dimension check_batch_size check_max_attempts check_max_restarts
normalize spec =
    check_name spec
    >>= check_dimension
    >>= check_batch_size
    >>= check_max_attempts
    >>= check_max_restarts

abbrev pub head_owner : List Owner → Option Owner
head_owner [] = none
head_owner (o ∷ rest) = some o

-- Where a job goes: the fingerprints of its ends and the resource that it writes.
pub record Route : Type 0 where
  pub source_fp : String
  pub sink_fp : String
  pub resource : String

-- The choice of a customer worker's connections.
unfoldable pub worker_route : Option Workers → Spec → Option Owner → Result Route
worker_route none spec owner = err forbidden
worker_route (some w) spec owner = Workers.get spec.worker_id owner w >>= λ worker.
    approved_connections worker spec >>= λ ends. ok (record {
      source_fp = ends.0.fingerprint;
      sink_fp = ends.1.fingerprint;
      resource = "worker:" <> worker.id <> ":" <> ends.1.resource;
    })

abbrev pub readable : Option Binding → Option Binding
readable none = none
readable (some b) = elim b.source [ none ↦ none | some _ ↦ some b ]

abbrev pub writable : Option Binding → Option Binding
writable none = none
writable (some b) = elim b.sink [ none ↦ none | some _ ↦ some b ]

-- The choice of the engine's own connections.
unfoldable pub hosted_route : Engine → Spec → Result Route
unfolding connection
hosted_route e spec = elim (readable (connection e spec.source)) [
  | none ↦ err (message "unknown or unreadable source connection")
  | some src ↦ elim (writable (connection e spec.sink)) [
    | none ↦ err (message "unknown or unwritable sink connection")
    | some dst ↦
        if spec.source == spec.sink
          || src.fingerprint == dst.fingerprint
          || (src.resource != "" && src.resource == dst.resource)
        then err (message "source and sink must be different connections")
        else ok (record {
          source_fp = src.fingerprint;
          sink_fp = dst.fingerprint;
          resource = if dst.resource == "" then dst.fingerprint else dst.resource;
        })
  ]
]

-- What `Submit` decides before it creates the job.
unfoldable pub admit : Engine → Spec → String → List Owner → Result (Spec × Route)
unfolding may_submit normalize worker_route hosted_route
admit e spec key owners =
    if not (may_submit e spec owners)
    then err forbidden
    else if e.hosted_disabled && spec.worker_id == ""
    then err (message "hosted execution is disabled; select a customer worker")
    else normalize spec >>= λ normal.
        if ltb 128 (byte_length key)
        then err (message "idempotency key must not exceed 128 bytes")
        else (if normal.worker_id != ""
            then worker_route e.workers normal (head_owner owners)
            else hosted_route e normal)
          >>= λ route. ok (normal, route)

-- `Submit`. `id` is the random ID for a new job.
unfoldable pub submit :
    Codec
    → Io
    → Option String
    → Engine
    → Spec
    → String
    → String
    → List Owner
    → Store
    → Result (Job × Bool) × Store
unfolding admit
submit c io id e spec key actor owners s = elim (admit e spec key owners) [
  | err failure ↦ (err failure, s)
  | ok (normal, route) ↦
      create c io id normal route.source_fp route.sink_fp route.resource key actor
        (head_owner owners) s
]
