-- ===== src/Control/Lease/Prepare.antt =====
-- The customer worker's own copy of an assigned job, `PrepareWorkerJob` of control/worker_jobs.go.
use vector_transfer.Base.{ℕ, String, not, ◌&&◌, ◌||◌, none, some, ltb, if◌then◌else◌, is_none, ◌!=◌}
use vector_transfer.Base.Result.{conflict, message, Result, ok, err}
use vector_transfer.Base.Dict.{lookup}
use vector_transfer.Control.Job.{Job, Spec, queued, same_spec}
use vector_transfer.Control.Journal.{Codec, Store, Io, append}
use vector_transfer.Control.Store.{zero_job, then_job_at}
use vector_transfer.Control.Lease.{WorkerAssignment}

unfoldable pub local_spec : Spec → Spec
local_spec spec = record spec { worker_id = "" }

unfoldable pub resumed : ℕ → Job → Job
resumed generation j = record j {
  generation = generation;
  state = queued;
  restarts = 0;
  error = "";
  next_run_at = none;
}

-- A job that the worker has already.
unfoldable pub prepare_known :
    Codec → Io → WorkerAssignment → String → String → Job → Store → Result Job × Store
unfolding local_spec
prepare_known c io a source_fp sink_fp j s =
    if not (same_spec j.spec (local_spec a.spec))
      || j.source_fingerprint != source_fp
      || j.sink_fingerprint != sink_fp
      || ltb a.generation j.generation
    then (err conflict, s)
    else if ltb j.records a.records
        || ltb j.batches a.batches
        || (a.checkpoint && is_none j.last_checkpoint_at)
    then (err (message "checkpoint missing"), s)
    else if ltb j.generation a.generation
    then then_job_at a.id (
        append c io (resumed a.generation j) "resumed" "worker" "Control plane requested resume" ""
          s)
    else (ok j, s)

unfoldable pub accepted_job : ℕ → WorkerAssignment → String → String → String → Job
unfolding local_spec
accepted_job now a source_fp sink_fp resource = record zero_job {
  id = a.id;
  spec = local_spec a.spec;
  generation = a.generation;
  state = queued;
  created_at = now;
  created_by = "control-plane";
  source_fingerprint = source_fp;
  sink_fingerprint = sink_fp;
  sink_resource = resource;
}

-- `PrepareWorkerJob`.
unfoldable pub prepare_worker_job :
    Codec → Io → WorkerAssignment → String → String → String → Store → Result Job × Store
unfolding accepted_job
prepare_worker_job c io a source_fp sink_fp resource s = elim (lookup a.id s.jobs) [
  | some j ↦ prepare_known c io a source_fp sink_fp j s
  | none ↦
      if a.checkpoint || ltb 0 a.records || ltb 0 a.batches
      then (err (message "checkpoint missing"), s)
      else then_job_at a.id (
          append c io (accepted_job io.now a source_fp sink_fp resource) "submitted" "worker"
            "Accepted locally approved transfer" "" s)
]
