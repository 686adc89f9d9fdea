-- ===== src/Control/Lease.antt =====
-- Leases of customer workers, control/worker_jobs.go: ClaimWorker, ReportWorker, PrepareWorkerJob.
pub mod Report
pub mod Prepare
pub mod Changes
pub mod Fencing
pub mod Checkpoint
pub mod Single
use vector_transfer.Base.{
  ℕ, zero, suc, ◌+◌, ◌-◌, ◌*◌, ◌/◌, ◌%◌, ◌^◌, ◌≤◌, ◌<◌, min, max, String, ◌≡◌, refl, sym, ap, ◌∙◌,
  subst, ◌≢◌, ◌↔◌, ◌⊎◌, inl, inr, Bool, true, false, not, ◌&&◌, ◌||◌, Option, none, some, List, [],
  ◌∷◌, ◌++◌, append-nil, append_assoc, arith, ◌==◌, eq_iff, ltb, leb, eqb, if◌then◌else◌, ltb→lt,
  ltb→le, leb→le, leb→lt, tests, Bool-cases, Option-cases, is_some, is_none, &&-eq_true, ||-eq_true,
  length, take, drop, any, all, count, All, In, length-append, take-append-drop, length-take-le,
  length-drop, any-In, all-In, ◌!=◌, ◌<>◌, byte_length, ==_refl, ==_sound, String-discrete, decimal,
  decimal_ℤ, ℤ, pos, negsuc, pos_part, neg_part, ltb_ℤ, eqb_ℤ, ◌≤ℤ◌, eqb_ℤ_sound, any-false,
  false-any, All-map, take-all, take-append_left, any-take, codes, trim_space,
}
use vector_transfer.Base.Result.{
  Error, not_found, conflict, forbidden, unavailable, unauthorized, canceled_context,
  journal_failed, vault_unavailable, workers_unavailable, message, Result, ok, err, ◌>>=◌, is_ok,
}
use vector_transfer.Base.Dict.{
  Dict, lookup, insert, delete, values, lookup-insert, lookup-delete, lookup-In, dict_laws,
}
use vector_transfer.Control.Job.{
  Job, Spec, State, queued, running, retry_wait, cancel_requested, succeeded, failed, canceled,
  Phase, unset, starting, read, write, backoff, checkpointed, waiting, is_queued, is_running,
  is_retry_wait, is_cancel_requested, is_failed, is_active, is_due, is_ahead, same_owner, same_spec,
  second,
}
use vector_transfer.Control.Journal.{Codec, Store, Io, append}
use vector_transfer.Control.Store.{zero_job, then_job_at, update}
use vector_transfer.Control.Workers.{Worker}
use vector_transfer.Control.Workers.Manifest.{approved_connections}

-- `WorkerLeaseDuration`.
abbrev pub lease_duration : ℕ
lease_duration = 60 * second

-- `WorkerReport`, as it is decoded: any text and any number.
pub record WorkerReport : Type 0 where
  pub lease_id : String
  pub sequence : ℤ
  pub state : String
  pub phase : String
  pub records : ℤ
  pub batches : ℤ
  pub retries : ℤ
  pub restarts : ℤ
  pub checkpoint : Bool
  pub retry_after : ℤ
  pub failure : String

-- `WorkerAssignment`.
pub record WorkerAssignment : Type 0 where
  pub id : String
  pub spec : Spec
  pub lease_id : String
  pub lease_until : ℕ
  pub generation : ℕ
  pub records : ℕ
  pub batches : ℕ
  pub checkpoint : Bool
  pub source_fingerprint : String
  pub sink_fingerprint : String
  pub cancel_requested : Bool

-- `assignment`, of a job whose lease ends at `until`.
unfoldable pub assignment : ℕ → Job → WorkerAssignment
assignment until j = record {
  id = j.id;
  spec = j.spec;
  lease_id = j.lease_id;
  lease_until = until;
  generation = j.generation;
  records = j.records;
  batches = j.batches;
  checkpoint = is_some j.last_checkpoint_at;
  source_fingerprint = j.source_fingerprint;
  sink_fingerprint = j.sink_fingerprint;
  cancel_requested = is_cancel_requested j.state;
}

-- `j.Spec.WorkerID == w.ID && sameOwner(j.Owner, w.Owner)`.
abbrev pub belongs_to : Worker → Job → Bool
belongs_to w j = j.spec.worker_id == w.id && same_owner j.owner w.owner

-- A lease that is still held.
abbrev pub is_leased : ℕ → Job → Bool
is_leased now j = is_ahead j.lease_until now && is_active j.state

unfoldable pub is_leasable : ℕ → Job → Bool
is_leasable now j =
    is_queued j.state
    || (is_active j.state && not (is_ahead j.lease_until now))
    || (is_retry_wait j.state && is_due j.next_run_at now)

-- The loop of `ClaimWorker`: `none` where it returns because a lease is held.
unfoldable pub pick_leasable : Worker → ℕ → Job → List Job → Option Job
unfolding is_leasable
pick_leasable w now picked [] = some picked
pick_leasable w now picked (j ∷ rest) =
    let next =
      if belongs_to w j
        && is_leasable now j
        && (picked.id == "" || ltb j.created_at picked.created_at)
      then j
      else picked in
    let found = pick_leasable w now next rest in
    if belongs_to w j && is_leased now j then none else found

abbrev pub policy_text : String
policy_text = "Worker connection policy changed; restore it or submit a new job"

unfoldable pub leased : ℕ → String → Job → Job
leased now lease j = record j {
  state = if is_cancel_requested j.state then cancel_requested else running;
  phase = starting;
  runs = j.runs + 1;
  report_sequence = 0;
  next_run_at = none;
  error = "";
  lease_id = lease;
  lease_until = some (now + lease_duration);
}

unfoldable pub refused : Job → Job
refused j = record j { state = failed; error = policy_text; lease_id = ""; lease_until = none }

-- The worker's connections are approved and have the fingerprints of the job.
unfoldable pub still_approved : Worker → Job → Bool
still_approved w j = elim (approved_connections w j.spec) [
  | err _ ↦ false
  | ok (src, dst) ↦ src.fingerprint == j.source_fingerprint && dst.fingerprint == j.sink_fingerprint
]

then_assignment :
    WorkerAssignment → Result (Unit {0}) × Store → Result (Option WorkerAssignment) × Store
then_assignment a (ok _, s) = (ok (some a), s)
then_assignment a (err e, s) = (err e, s)

then_nothing : Result (Unit {0}) × Store → Result (Option WorkerAssignment) × Store
then_nothing (ok _, s) = (ok none, s)
then_nothing (err e, s) = (err e, s)

-- The end of `ClaimWorker` for the job that it picked. `lease` is the random lease ID.
unfoldable pub lease_job :
    Codec → Io → String → Worker → Job → Store → Result (Option WorkerAssignment) × Store
unfolding leased refused assignment still_approved then_assignment then_nothing
lease_job c io lease w j s =
    let j' = leased io.now lease j in
    if j.id == ""
    then (ok none, s)
    else if not (still_approved w j)
    then then_nothing (append c io (refused j) "failed" "worker" policy_text "" s)
    else then_assignment (assignment (io.now + lease_duration) j') (
        append c io j' "worker_leased" ("worker:" <> w.id)
          "Customer worker acquired execution lease" "" s)

-- `ClaimWorker`.
unfoldable pub claim_worker :
    Codec → Io → String → Worker → Store → Result (Option WorkerAssignment) × Store
unfolding pick_leasable lease_job
claim_worker c io lease w s = elim s.poison [
  | some e ↦ (err e, s)
  | none ↦ elim (pick_leasable w io.now zero_job (values s.jobs)) [
    | none ↦ (ok none, s)
    | some picked ↦ lease_job c io lease w picked s
  ]
]
