-- ===== src/Client/Run.antt =====
-- The execution of assigned jobs by a customer worker: execute, validAssignment, report and the rounds
-- of Run in worker/worker.go. The executor that runs beside execute is what it does to the store.
pub mod Turns
use vector_transfer.Base.{
  ℕ, ◌+◌, ◌-◌, ◌/◌, min, max, String, Bool, true, false, not, ◌&&◌, ◌||◌, Option, none, some, List,
  [], ◌∷◌, ◌++◌, ◌==◌, ltb, leb, eqb, if◌then◌else◌, is_some, ◌<>◌, byte_length, pos, negsuc,
}
use vector_transfer.Base.Result.{Error, canceled_context, message, Result, ok, err, ◌>>=◌}
use vector_transfer.Base.Dict.{Dict}
use vector_transfer.Connector.{Binding}
use vector_transfer.Account.{Reply}
use vector_transfer.Control.Job.{
  Job, State, is_queued, is_retry_wait, is_active, is_failed, state_name, phase_name, second,
}
use vector_transfer.Control.Journal.{Codec, Store, Io}
use vector_transfer.Control.Store.{get, health}
use vector_transfer.Control.Workers.{WorkerManifest, zero_worker}
use vector_transfer.Control.Workers.Manifest.{approved_connections}
use vector_transfer.Control.Engine.Action.{act}
use vector_transfer.Control.Engine.Submit.{within}
use vector_transfer.Control.Lease.{WorkerReport, WorkerAssignment}
use vector_transfer.Control.Lease.Prepare.{prepare_worker_job}
use vector_transfer.Control.Connections.{binding_at}
use vector_transfer.Control.Protocol.{ProgressReply}
use vector_transfer.Client.{Client, Local, Plane, call, is_hex}

-- `validAssignment`. The counts of an assignment are natural numbers here, so that their signs need no
-- test.
unfoldable pub valid_assignment : WorkerAssignment → String → Bool
valid_assignment a id =
    eqb (byte_length a.id) 32
    && eqb (byte_length a.lease_id) 64
    && a.spec.worker_id == id
    && is_hex (a.id <> a.lease_id)
    && ltb 0 (byte_length a.spec.name)
    && leb (byte_length a.spec.name) 160
    && within (pos 1) (pos 65536) a.spec.dimension
    && within (pos 1) (pos 500) a.spec.batch_size
    && within (pos 1) (pos 10) a.spec.max_attempts
    && within (negsuc 0) (pos 10) a.spec.max_restarts

-- The report of a rejected assignment.
unfoldable pub rejection : WorkerAssignment → String → WorkerReport
rejection a code = record {
  lease_id = a.lease_id;
  sequence = pos 1;
  state = "failed";
  phase = "";
  records = pos a.records;
  batches = pos a.batches;
  retries = pos 0;
  restarts = pos 0;
  checkpoint = a.checkpoint;
  retry_after = pos 0;
  failure = code;
}

-- `max(1, min(3600, int(time.Until(t).Seconds())+1))`.
abbrev pub seconds_until : ℕ → Option ℕ → ℕ
seconds_until now none = 0
seconds_until now (some t) = max 1 (min 3600 ((t - now) / second + 1))

-- The report of a job.
unfoldable pub report_of : ℕ → ℕ → WorkerAssignment → Job → WorkerReport
report_of sequence now a current = record {
  lease_id = a.lease_id;
  sequence = pos sequence;
  state = state_name current.state;
  phase = phase_name current.phase;
  records = pos current.records;
  batches = pos current.batches;
  retries = pos current.retries;
  restarts = pos current.restarts;
  checkpoint = is_some current.last_checkpoint_at;
  retry_after = pos (seconds_until now current.next_run_at);
  failure = if is_failed current.state then "transfer" else "";
}

-- What the first part of `execute` decides: to return, to reject the assignment with a code, or to run
-- the job, whose executor is started or not.
pub data Start : Type 0 where
  returns : Error → Start
  rejects : String → Start
  runs : Job → Bool → Start

abbrev pub is_idle : State → Bool
is_idle s = is_queued s || is_retry_wait s

-- The assignment's connections are approved by the local manifest, with the same fingerprints.
unfoldable pub policy_allows : WorkerManifest → WorkerAssignment → Bool
policy_allows m a = elim (approved_connections (record zero_worker { manifest = m }) a.spec) [
  | err _ ↦ false
  | ok (src, dst) ↦ src.fingerprint == a.source_fingerprint && dst.fingerprint == a.sink_fingerprint
]

-- A cancellation that came with the assignment.
unfoldable pub start_job : Codec → Io → WorkerAssignment → Job → Store → Start × Store
start_job c io a j s =
    let (acted, s') = act c io j.id "cancel" "control-plane" s in
    if a.cancel_requested && is_idle j.state
    then (elim acted [ err e ↦ returns e | ok j' ↦ runs j' (is_idle j'.state) ], s')
    else (runs j (is_idle j.state), s)

-- The first part of `execute`.
unfoldable pub begin_execute :
    Codec
    → Io
    → Io
    → Client
    → WorkerManifest
    → Dict Binding
    → WorkerAssignment
    → Store
    → Start × Store
unfolding valid_assignment policy_allows start_job
begin_execute c io io' client m registry a s =
    let source = binding_at a.spec.source registry in
    let sink = binding_at a.spec.sink registry in
    let (prepared, s') =
      prepare_worker_job c io a source.fingerprint sink.fingerprint sink.resource s in
    if not (valid_assignment a client.identity.id)
    then (returns (message "invalid job assignment"), s)
    else if not (policy_allows m a)
    then (rejects "policy", s)
    else elim prepared [
      | err e ↦ (if is_some (health s') then returns e else rejects "checkpoint_missing", s')
      | ok j ↦ start_job c io' a j s'
    ]
