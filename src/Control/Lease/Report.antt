-- ===== src/Control/Lease/Report.antt =====
-- The progress reports of a worker that holds a lease, `ReportWorker` of control/worker_jobs.go.
use vector_transfer.Base.{
  ℕ, ◌+◌, ◌*◌, max, String, Bool, not, ◌&&◌, ◌||◌, Option, none, some, ◌==◌, ltb, leb,
  if◌then◌else◌, is_none, ◌!=◌, ◌<>◌, ℤ, pos, pos_part, ltb_ℤ,
}
use vector_transfer.Base.Result.{not_found, conflict, message, Result, ok, err}
use vector_transfer.Control.Job.{
  Job, State, queued, running, retry_wait, cancel_requested, succeeded, failed, canceled, Phase,
  unset, starting, read, write, backoff, checkpointed, waiting, is_retry_wait, is_cancel_requested,
  is_failed, is_active, is_ahead, second,
}
use vector_transfer.Control.Journal.{Codec, Store, Io}
use vector_transfer.Control.Store.{update}
use vector_transfer.Control.Workers.{Worker}
use vector_transfer.Control.Lease.{WorkerReport, lease_duration, belongs_to}

-- `switch r.State`.
unfoldable pub parse_state : String → Option State
parse_state s =
    if s == "queued"
    then some queued
    else if s == "running"
    then some running
    else if s == "retry_wait"
    then some retry_wait
    else if s == "succeeded"
    then some succeeded
    else if s == "failed"
    then some failed
    else if s == "canceled"
    then some canceled
    else if s == "cancel_requested"
    then some cancel_requested
    else none

-- `switch r.Phase`.
unfoldable pub parse_phase : String → Option Phase
parse_phase s =
    if s == ""
    then some unset
    else if s == "starting"
    then some starting
    else if s == "read"
    then some read
    else if s == "write"
    then some write
    else if s == "backoff"
    then some backoff
    else if s == "checkpointed"
    then some checkpointed
    else if s == "waiting"
    then some waiting
    else none

-- `switch r.Failure`: the text that the control plane keeps for a failure code.
unfoldable pub failure_text : String → Option String
failure_text code =
    if code == ""
    then some ""
    else if code == "policy"
    then some "Worker rejected the job: local connection policy or configuration changed"
    else if code == "checkpoint_missing"
    then some
        "Worker checkpoint is missing or behind reported progress; restore the original worker data directory"
    else if code == "transfer"
    then some
        "Transfer failed; inspect the customer worker and database permissions before resuming"
    else none

abbrev pub negative : ℤ → Bool
negative x = ltb_ℤ x (pos 0)

-- The bounds of a report's numbers.
unfoldable pub has_valid_progress : WorkerReport → Bool
has_valid_progress r = not (
    ltb_ℤ r.sequence (pos 1)
    || negative r.records
    || negative r.batches
    || negative r.retries
    || negative r.restarts
    || ltb_ℤ (pos 10) r.restarts
    || negative r.retry_after
    || ltb_ℤ (pos 3600) r.retry_after)

-- A report whose texts have been read.
pub record Parsed : Type 0 where
  pub state : State
  pub phase : Phase
  pub failure : String

-- The tests of `ReportWorker` before it takes the lock.
unfoldable pub parse_report : WorkerReport → Result Parsed
unfolding has_valid_progress parse_state parse_phase failure_text
parse_report r = elim (parse_state r.state) [
  | none ↦ err (message "invalid worker state")
  | some state ↦ elim (parse_phase r.phase) [
    | none ↦ err (message "invalid worker phase")
    | some phase ↦
        if not (has_valid_progress r)
        then err (message "invalid worker progress")
        else elim (failure_text r.failure) [
          | none ↦ err (message "invalid worker failure code")
          | some failure ↦
              if failure != "" && not (is_failed state)
              then err (message "failure requires failed state")
              else ok (record { state = state; phase = phase; failure = failure })
        ]
  ]
]

-- A report's state, for a job whose cancellation has been asked for.
abbrev pub canceled_state : State → State
canceled_state s = if is_active s then cancel_requested else canceled

-- The job after an accepted report.
unfoldable pub reported : ℕ → WorkerReport → Parsed → Job → Job
reported now r p j =
    let state = if is_cancel_requested j.state then canceled_state p.state else p.state in
    let fresh =
      r.checkpoint
      && (is_none j.last_checkpoint_at
          || ltb j.records (pos_part r.records)
          || ltb j.batches (pos_part r.batches)) in
    record j {
      last_checkpoint_at = if fresh then some now else j.last_checkpoint_at;
      records = pos_part r.records;
      batches = pos_part r.batches;
      retries = pos_part r.retries;
      restarts = pos_part r.restarts;
      report_sequence = pos_part r.sequence;
      phase = p.phase;
      error = p.failure;
      state = state;
      next_run_at =
          if is_retry_wait state
          then some (now + max 1 (pos_part r.retry_after) * second)
          else none;
      lease_id = if is_active state then j.lease_id else "";
      lease_until = if is_active state then some (now + lease_duration) else none;
    }

-- The function that `ReportWorker` passes to `Update`.
unfoldable pub report_change : ℕ → Worker → WorkerReport → Parsed → Job → Result Job
report_change now w r p j =
    if not (belongs_to w j)
    then err not_found
    else if j.lease_id != r.lease_id
        || not (is_ahead j.lease_until now)
        || leb (pos_part r.sequence) j.report_sequence
    then err conflict
    else if not (is_active j.state)
    then err conflict
    else if ltb (pos_part r.records) j.records || ltb (pos_part r.batches) j.batches
    then err conflict
    else if ltb j.records (pos_part r.records) && not r.checkpoint
    then err (message "progress requires a durable local checkpoint")
    else ok (reported now r p j)

-- `ReportWorker`.
unfoldable pub report_worker :
    Codec → Io → Worker → String → WorkerReport → Store → Result Job × Store
unfolding parse_report report_change
report_worker c io w id r s = elim (parse_report r) [
  | err e ↦ (err e, s)
  | ok p ↦
      update c io id "worker_progress" ("worker:" <> w.id)
        "Customer worker reported transfer progress" "" (report_change io.now w r p) s
]
