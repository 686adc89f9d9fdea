-- ===== src/Control/Store/Claiming.antt =====
-- Claim of control/store.go: which job a hosted executor runs next.
use vector_transfer.Base.{
  ℕ, ◌+◌, String, Bool, true, false, not, ◌&&◌, ◌||◌, none, some, List, [], ◌∷◌, ◌==◌, ltb,
  if◌then◌else◌, any,
}
use vector_transfer.Base.Result.{Result, ok, err}
use vector_transfer.Base.Dict.{values}
use vector_transfer.Control.Job.{
  Job, running, starting, is_queued, is_retry_wait, is_active, is_due,
}
use vector_transfer.Control.Journal.{Codec, Store, Io, append}
use vector_transfer.Control.Store.{zero_job, then_job_at, with_flag}

-- `busy[resource]`.
unfoldable pub busy : List Job → String → Bool
busy jobs resource = any (λ j. is_active j.state && j.sink_resource == resource) jobs

unfoldable pub is_claimable : ℕ → List Job → Job → Bool
unfolding busy
is_claimable now jobs j =
    j.spec.worker_id == ""
    && (is_queued j.state || (is_retry_wait j.state && is_due j.next_run_at now))
    && not (busy jobs j.sink_resource)

-- The loop that keeps the oldest eligible job; an empty ID means that none was met.
unfoldable pub pick_oldest : (Job → Bool) → Job → List Job → Job
pick_oldest eligible picked [] = picked
pick_oldest eligible picked (j ∷ rest) =
    pick_oldest eligible
      (if eligible j && (picked.id == "" || ltb j.created_at picked.created_at) then j else picked)
      rest

unfoldable pub started : Job → Job
started j = record j {
  state = running;
  phase = starting;
  next_run_at = none;
  runs = j.runs + 1;
  error = "";
}

-- `Claim`.
unfoldable pub claim : Codec → Io → Store → Result (Job × Bool) × Store
unfolding then_job_at with_flag is_claimable pick_oldest started
claim c io s =
    let jobs = values s.jobs in
    let picked = pick_oldest (is_claimable io.now jobs) zero_job jobs in
    elim s.poison [
      | some failure ↦ (err failure, s)
      | none ↦
          if picked.id == ""
          then (ok (zero_job, false), s)
          else with_flag true (
              then_job_at picked.id
                (append c io (started picked) "started" "worker" "Transfer execution started" "" s))
    ]
