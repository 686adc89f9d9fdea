-- ===== src/Tests/Leases.antt =====
-- Leases and reports of a customer worker.
use vector_transfer.Base.{
  ◌+◌, ◌≤◌, ◌<◌, ◌≡◌, refl, ◌⊎◌, inl, true, false, none, some, List, [], ◌∷◌, arith, is_some, pos,
}
use vector_transfer.Base.Result.{ok}
use vector_transfer.Base.Dict.{lookup, insert}
use vector_transfer.Control.Job.{
  Job, running, unset, cancel_requested, canceled, same_owner, same_spec, is_ahead, is_active,
  is_cancel_requested,
}
use vector_transfer.Control.Journal.{append}
use vector_transfer.Control.Workers.{Worker, zero_worker}
use vector_transfer.Control.Lease.{
  WorkerReport, WorkerAssignment, lease_duration, belongs_to, claim_worker,
}
use vector_transfer.Control.Lease.Report.{Parsed, report_change, reported}
use vector_transfer.Control.Lease.Changes.{Change, reports, acts, leases, changes}
use vector_transfer.Control.Lease.Fencing.{report_accepted, report_once}
use vector_transfer.Control.Lease.Prepare.{prepare_worker_job, prepare_known, resumed}
use vector_transfer.Control.Store.{then_job_at}
use vector_transfer.Control.Lease.Checkpoint.{prepare_not_behind}
use vector_transfer.Control.Lease.Single.{claim_worker_held}
use vector_transfer.Tests.Data.{spec, job, store_of, quiet, blank_codec}

abbrev worker : Worker
worker = record zero_worker { id = "w-1"; name = "edge" }

abbrev leased_job : Job
leased_job = record job {
  spec = record spec { worker_id = "w-1" };
  state = running;
  lease_id = "lease-1";
  lease_until = some 100;
}

abbrev report : WorkerReport
report = record {
  lease_id = "lease-1";
  sequence = pos 1;
  state = "running";
  phase = "";
  records = pos 7;
  batches = pos 1;
  retries = pos 0;
  restarts = pos 0;
  checkpoint = true;
  retry_after = pos 0;
  failure = "";
}

abbrev parsed : Parsed
parsed = record { state = running; phase = unset; failure = "" }

abbrev after_report : Job
after_report = reported 5 report parsed leased_job

accepted : report_change 5 worker report parsed leased_job ≡ ok after_report
unfolding report_change reported same_owner
accepted = refl

report_accepted_example :
    (belongs_to worker leased_job ≡ true)
    × (leased_job.lease_id ≡ report.lease_id)
    × (is_ahead leased_job.lease_until 5 ≡ true)
    × (leased_job.report_sequence < after_report.report_sequence)
    × (leased_job.records ≤ after_report.records)
    × (leased_job.batches ≤ after_report.batches)
    × (leased_job.records < after_report.records → after_report.last_checkpoint_at ≡ some 5)
    × (is_cancel_requested leased_job.state ≡ true
        → (after_report.state ≡ cancel_requested) ⊎ (after_report.state ≡ canceled))
    × (is_active after_report.state ≡ true
        → (after_report.lease_id ≡ leased_job.lease_id)
          × (after_report.lease_until ≡ some (5 + lease_duration)))
    × (is_active after_report.state ≡ false
        → (after_report.lease_id ≡ "") × (after_report.lease_until ≡ none))
report_accepted_example = report_accepted 5 worker report parsed leased_job after_report accepted

-- The job is asked to cancel and resumed in vain, and a report with the next number is accepted.
abbrev later_changes : List Change
later_changes =
    acts "cancel"
    ∷ reports 6 worker (record report { sequence = pos 2 }) parsed
    ∷ acts "resume"
    ∷ leases 7 "lease-2"
    ∷ []

report_once_example :
    ¬ (report_change 8 worker report parsed (changes later_changes after_report) ≡ ok after_report)
report_once_example =
    report_once 5 worker report parsed leased_job after_report after_report 8 worker report parsed
      later_changes accepted refl (tt, (tt, (tt, (refl, tt)))) refl (omega arith)

abbrev work : WorkerAssignment
work = record {
  id = "job-1";
  spec = record spec { worker_id = "w-1" };
  lease_id = "lease-1";
  lease_until = 100;
  generation = 1;
  records = 3;
  batches = 1;
  checkpoint = true;
  source_fingerprint = "fs";
  sink_fingerprint = "fd";
  cancel_requested = false;
}

-- The worker's own copy, of the generation before.
abbrev copy : Job
copy = record job { records = 4; batches = 2; cursor = "4"; last_checkpoint_at = some 3 }

abbrev resumed_copy : Job
resumed_copy = record (resumed 1 copy) { updated_at = 5 }

prepare_not_behind_example :
    (3 ≤ resumed_copy.records)
    × (1 ≤ resumed_copy.batches)
    × (work.checkpoint ≡ true → is_some resumed_copy.last_checkpoint_at ≡ true)
    × (resumed_copy.generation ≡ 1)
    × ((j : Job)
        → lookup "job-1" (store_of copy).jobs ≡ some j
        → (resumed_copy.cursor ≡ j.cursor) × (resumed_copy.records ≡ j.records))
unfolding prepare_worker_job append lookup insert prepare_known same_spec then_job_at resumed
prepare_not_behind_example =
    prepare_not_behind blank_codec quiet work "fs" "fd" "rd" (store_of copy) resumed_copy
      (refl, refl, tt) refl

claim_worker_held_example :
    claim_worker blank_codec quiet "lease-2" worker (store_of leased_job)
    ≡ (ok none, store_of leased_job)
unfolding same_owner
claim_worker_held_example =
    claim_worker_held blank_codec quiet "lease-2" worker (store_of leased_job) leased_job refl
      (inl refl) refl refl
