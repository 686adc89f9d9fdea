-- ===== src/Client/Reports.antt =====
-- The reports that a customer worker makes, and what the control plane reads in them.
pub mod Numbered
use vector_transfer.Base.{
  ℕ, ◌+◌, ◌≤◌, String, ◌≡◌, refl, sym, ◌∙◌, ◌⊎◌, inl, inr, Bool, true, false, not, ◌&&◌, Option,
  none, some, List, [], ◌∷◌, arith, if◌then◌else◌, Bool-cases, Option-cases, ◌!=◌, pos,
}
use vector_transfer.Base.Result.{canceled_context, Result, ok, err, Result-cases}
use vector_transfer.Control.Job.{
  Job, State, Phase, queued, running, retry_wait, cancel_requested, succeeded, failed, canceled,
  unset, starting, read, write, backoff, checkpointed, waiting, is_failed, is_active,
  is_cancel_requested, state_name, phase_name,
}
use vector_transfer.Base.Dict.{Dict}
use vector_transfer.Connector.{Binding}
use vector_transfer.Account.{Reply}
use vector_transfer.Control.Protocol.{ProgressReply}
use vector_transfer.Control.Journal.{Codec, Store, Io}
use vector_transfer.Control.Workers.{Worker, WorkerManifest}
use vector_transfer.Control.Lease.{WorkerReport, WorkerAssignment}
use vector_transfer.Control.Lease.Report.{
  Parsed, parse_report, parse_state, parse_phase, failure_text, has_valid_progress, report_change,
  reported,
}
use vector_transfer.Control.Store.{get}
use vector_transfer.Client.{Client, Local, Plane, call}
use vector_transfer.Client.Run.{
  Start, report_of, seconds_until, begin_execute, runs, returns, rejects,
}
use vector_transfer.Client.Run.Turns.{
  Wake, woken, Tick, Turn, turn, report_loop, report_turn, after_report, made_in, ends, stops,
  ticks, joins, execute,
}

parse-state_name : (s : State) → parse_state (state_name s) ≡ some s
unfolding parse_state state_name
parse-state_name queued = refl
parse-state_name running = refl
parse-state_name retry_wait = refl
parse-state_name cancel_requested = refl
parse-state_name succeeded = refl
parse-state_name failed = refl
parse-state_name canceled = refl

parse-phase_name : (p : Phase) → parse_phase (phase_name p) ≡ some p
unfolding parse_phase phase_name
parse-phase_name unset = refl
parse-phase_name starting = refl
parse-phase_name read = refl
parse-phase_name write = refl
parse-phase_name backoff = refl
parse-phase_name checkpointed = refl
parse-phase_name waiting = refl

abbrev pub transfer_text : String
transfer_text =
    "Transfer failed; inspect the customer worker and database permissions before resuming"

failure_cases :
    (failed_now : Bool)
    → failure_text (if failed_now then "transfer" else "")
      ≡ some (if failed_now then transfer_text else "")
unfolding failure_text
failure_cases true = refl
failure_cases false = refl

seconds_bounded : (now : ℕ) (t : Option ℕ) → seconds_until now t ≤ 3600
seconds_bounded now none = omega arith
seconds_bounded now (some t) = omega arith

report-valid_progress :
    (sequence now : ℕ) (a : WorkerAssignment) (j : Job)
    → 1 ≤ sequence
    → j.restarts ≤ 10
    → has_valid_progress (report_of sequence now a j) ≡ true
unfolding has_valid_progress report_of
report-valid_progress sequence now a j numbered few =
    ground (arith, numbered, few, seconds_bounded now j.next_run_at)

parse_shape :
    (r : WorkerReport) (state : State) (phase : Phase) (failure : String)
    → parse_state r.state ≡ some state
    → parse_phase r.phase ≡ some phase
    → has_valid_progress r ≡ true
    → failure_text r.failure ≡ some failure
    → (failure != "" && not (is_failed state)) ≡ false
    → parse_report r ≡ ok (record { state = state; phase = phase; failure = failure })
unfolding parse_report
parse_shape r state phase failure s p v f consistent =
    rw (parse_report, s, p, v, f, consistent) refl

failure_consistent :
    (failed_now : Bool)
    → ((if failed_now then transfer_text else "") != "" && not failed_now) ≡ false
failure_consistent true = refl
failure_consistent false = refl

-- The control plane reads in the report of a job, with a sequence number of at least 1 and at most 10
-- restarts, the job's own state and phase, and the failure code of a transfer exactly if the job has
-- failed: the texts that the worker writes are the ones that ReportWorker reads back.
pub report_roundtrip :
    (sequence now : ℕ) (a : WorkerAssignment) (j : Job)
    → 1 ≤ sequence
    → j.restarts ≤ 10
    → parse_report (report_of sequence now a j)
      ≡ ok (record {
        state = j.state;
        phase = j.phase;
        failure = if is_failed j.state then transfer_text else "";
      })
unfolding report_of
report_roundtrip sequence now a j numbered few =
    parse_shape (report_of sequence now a j) j.state j.phase _ (parse-state_name j.state)
      (parse-phase_name j.phase) (report-valid_progress sequence now a j numbered few)
      (failure_cases (is_failed j.state)) (failure_consistent (is_failed j.state))

accepted-reported :
    (now : ℕ) (w : Worker) (r : WorkerReport) (p : Parsed) (j j' : Job)
    → report_change now w r p j ≡ ok j'
    → j' ≡ reported now r p j
unfolding report_change
accepted-reported now w r p j j' h = ground (arith, h)

-- When the control plane accepts a worker's report, with a sequence number of at least 1, of a job with
-- at most 10 restarts, its own record of the job has the worker's counts, phase and sequence number
-- afterwards, and the worker's state too unless a cancellation had been asked for.
pub report_mirrored :
    (sequence now now' : ℕ) (a : WorkerAssignment) (w : Worker) (local held held' : Job)
    (p : Parsed)
    → parse_report (report_of sequence now a local) ≡ ok p
    → 1 ≤ sequence
    → local.restarts ≤ 10
    → report_change now' w (report_of sequence now a local) p held ≡ ok held'
    → (held'.records ≡ local.records)
      × (held'.batches ≡ local.batches)
      × (held'.retries ≡ local.retries)
      × (held'.restarts ≡ local.restarts)
      × (held'.phase ≡ local.phase)
      × (held'.report_sequence ≡ sequence)
      × (is_cancel_requested held.state ≡ false → held'.state ≡ local.state)
unfolding reported report_of
report_mirrored sequence now now' a w local held held' p read_ numbered few accepted =
    let parsed = sym read_ ∙ report_roundtrip sequence now a local numbered few in
    let mirrored =
      accepted-reported now' w (report_of sequence now a local) p held held' accepted in
    ground (arith, parsed, mirrored)
