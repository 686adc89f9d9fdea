-- ===== src/Control/Engine/Action.antt =====
-- The operator's actions on a job, `Action` of control/engine.go.
use vector_transfer.Base.{◌+◌, String, not, ◌&&◌, none, ◌==◌, if◌then◌else◌, ◌!=◌, ◌<>◌}
use vector_transfer.Base.Result.{conflict, message, Result, ok, err}
use vector_transfer.Control.Job.{
  Job, State, queued, running, retry_wait, cancel_requested, canceled, unset, is_failed,
  is_canceled, is_retry_wait,
}
use vector_transfer.Control.Journal.{Codec, Store, Io}
use vector_transfer.Control.Store.{update}

-- `case "cancel"` of Action.
unfoldable pub cancel_change : State → Job → Result Job
cancel_change queued j =
    ok (record j { state = canceled; phase = unset; next_run_at = none; error = "" })
cancel_change retry_wait j =
    ok (record j { state = canceled; phase = unset; next_run_at = none; error = "" })
cancel_change running j = ok (record j { state = cancel_requested })
cancel_change cancel_requested j = ok (record j { state = cancel_requested })
cancel_change other j = err conflict

-- `case "resume"` of Action.
unfoldable pub resume_change : Job → Result Job
resume_change j =
    let released =
      if j.spec.worker_id != ""
      then record j {
        generation = j.generation + 1;
        lease_id = "";
        lease_until = none;
        report_sequence = 0;
      }
      else j in
    if not (is_failed j.state) && not (is_canceled j.state) && not (is_retry_wait j.state)
    then err conflict
    else ok (record released {
      state = queued;
      phase = unset;
      next_run_at = none;
      restarts = 0;
      error = "";
    })

-- The function that `Action` passes to `Update`.
unfoldable pub action_change : String → Job → Result Job
unfolding cancel_change resume_change
action_change action j =
    if action == "cancel"
    then cancel_change j.state j
    else if action == "resume"
    then resume_change j
    else err (message "unknown action")

-- `Action`.
unfoldable pub act : Codec → Io → String → String → String → Store → Result Job × Store
act c io id action actor s =
    update c io id action actor ("Operator requested " <> action) "" (action_change action) s
