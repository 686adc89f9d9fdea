-- ===== src/Control/Engine/Execute/Loop.antt =====
-- The loop of `execute` in control/engine.go, and RunJob of control/worker_jobs.go, which starts it.
use vector_transfer.Base.{
  ℕ, zero, suc, ◌+◌, max, String, Bool, true, false, not, ◌&&◌, ◌||◌, Option, none, some, List,
  ◌++◌, ◌==◌, eqb, if◌then◌else◌, is_some, length, ◌!=◌, ◌<>◌, decimal, ℤ, pos, pos_part, ltb_ℤ,
}
use vector_transfer.Base.Result.{conflict, Result, ok, err, is_ok}
use vector_transfer.Connector.{Binding, Record, Page}
use vector_transfer.Connector.Validate.{validate}
use vector_transfer.Control.Job.{
  Job, queued, running, succeeded, failed, canceled, read, write, starting, is_queued,
  is_retry_wait, is_cancel_requested, is_canceled,
}
use vector_transfer.Control.Journal.{Codec}
use vector_transfer.Control.Store.{health}
use vector_transfer.Control.Engine.{Engine, connection, authorized}
use vector_transfer.Control.Engine.Execute.{
  Fault, transient, permanent, Moment, Run, arrive, run_get, run_update, finish, retry_loop,
  restart_time, restart_change, checkpoint_change,
}

abbrev pub source_matches : Option Binding → String → Bool
source_matches none fingerprint = false
source_matches (some b) fingerprint = is_some b.source && b.fingerprint == fingerprint

abbrev pub sink_matches : Option Binding → String → Bool
sink_matches none fingerprint = false
sink_matches (some b) fingerprint = is_some b.sink && b.fingerprint == fingerprint

-- The job's connections are there, and are what they were when it was submitted.
unfoldable pub connections_match : Engine → Job → Bool
unfolding connection
connections_match e j =
    source_matches (connection e j.spec.source) j.source_fingerprint
    && sink_matches (connection e j.spec.sink) j.sink_fingerprint

pub data Verdict : Type 0 where
  stop : Result (Unit {0}) → Verdict
  again : Verdict

abbrev pub revoked_text : String
revoked_text = "Connection access was revoked"

abbrev pub changed_text : String
changed_text = "Connection configuration changed; restore it or submit a new job"

abbrev pub failed_text : String
failed_text =
    "Transfer failed; check connection permissions, availability, and data compatibility, then resume"

-- The number of attempts that `retry` may begin.
abbrev pub attempts : Job → ℕ
attempts j = max 1 (pos_part j.spec.max_attempts)

-- The tests of a page that the source has answered.
unfoldable pub is_sound_page : (String → Bool) → Job → Page → Bool
is_sound_page json_valid j p =
    not (ltb_ℤ j.spec.batch_size (pos (length p.records)))
    && not (not p.done && (p.next == "" || p.next == j.cursor))
    && is_ok (validate json_valid p.records j.spec.dimension)

unfoldable pub read_call : Moment → Run → Option Fault × Run
read_call m r = (m.read_fault, r)

unfoldable pub write_call : List Record → Moment → Run → Option Fault × Run
write_call records m r = elim m.write_fault [
  | none ↦ (none, record r { delivered = r.delivered ++ records })
  | some f ↦ (some f, r)
]

unfoldable pub stop_after : Result (Unit {0}) × Run → Verdict × Run
stop_after (result, r) = (stop result, r)

unfoldable pub stop_after_job : Result Job × Run → Verdict × Run
stop_after_job (ok j, r) = (stop (ok tt), r)
stop_after_job (err e, r) = (stop (err e), r)

-- `pages` is the job's source: the page that it answers at a cursor, for a limit. `receipt` is the
-- hexadecimal digest of the encoded records.
module _ (c : Codec) (json_valid : String → Bool) (pages : String → ℤ → Page)
    (receipt : List Record → String) (env : ℕ → Moment) where
  -- Read a page, test it, and write its records.
  unfoldable pub transfer : Job → Run → Option Fault × Run
  unfolding read_call write_call
  transfer j r =
      let (unread, r1) = retry_loop c env (attempts j) 1 j read "read" read_call r in
      let p = pages j.cursor j.spec.batch_size in
      elim unread [
        | some f ↦ (some f, r1)
        | none ↦
            if not (is_sound_page json_valid j p)
            then (some permanent, r1)
            else if eqb (length p.records) 0
            then (none, r1)
            else retry_loop c env (attempts j) 1 j write "write" (write_call p.records) r1
      ]

  -- `if err != nil` after the transfer of a page.
  unfoldable pub give_up : Job → Fault → Run → Verdict × Run
  unfolding stop_after stop_after_job
  give_up j fault r =
      let r1 = arrive c env r in
      let (state, r2) = run_get c env j.id r1 in
      elim (health r1.store) [
        | some e ↦ (stop (err e), r1)
        | none ↦
            if (env r1.step).stopped
            then stop_after (finish c env j.id queued "" r1)
            else elim state [
              | err e ↦ (stop (err e), r2)
              | ok current ↦
                  if is_cancel_requested current.state
                  then stop_after (finish c env j.id canceled "" r2)
                  else if elim fault [ transient ↦ true | permanent ↦ false ]
                      && ltb_ℤ (pos current.restarts) current.spec.max_restarts
                  then stop_after_job (
                      run_update c env j.id "restart_scheduled"
                        "Temporary provider failure; restarting from the saved checkpoint" ""
                        (λ m. restart_change (restart_time m.io.now current.restarts)) r2)
                  else stop_after (finish c env j.id failed failed_text r2)
            ]
      ]

  -- The checkpoint of an acknowledged page.
  unfoldable pub record_page : Job → Run → Verdict × Run
  unfolding stop_after
  record_page j r =
      let p = pages j.cursor j.spec.batch_size in
      let (updated, r1) =
        run_update c env j.id (if p.done then "succeeded" else "checkpoint")
          ("Acknowledged " <> decimal (length p.records) <> " records") (receipt p.records)
          (λ m. checkpoint_change m.io.now p) r in
      let (state, r2) = run_get c env j.id r1 in
      if not (env r.step).encodes
      then stop_after (finish c env j.id failed "Could not encode batch receipt" r)
      else elim updated [
        | err e ↦ (stop (err e), r1)
        | ok _ ↦ if p.done then (stop (ok tt), r1) else elim state [
          | err e ↦ (stop (err e), r2)
          | ok current ↦ if is_canceled current.state then (stop (ok tt), r2) else (again, r2)
        ]
      ]

  -- One round of the loop for the current job.
  unfoldable pub advance : Engine → Bool → String → Job → Run → Verdict × Run
  unfolding stop_after
  advance e stopped id current r =
      if is_cancel_requested current.state
      then stop_after (finish c env id canceled "" r)
      else if stopped
      then stop_after (finish c env id queued "" r)
      else if current.source_exhausted
      then stop_after (finish c env id succeeded "Source scan was already fully acknowledged" r)
      else if not (authorized e current)
      then stop_after (finish c env id failed revoked_text r)
      else if not (connections_match e current)
      then stop_after (finish c env id failed changed_text r)
      else (let (failure, r1) = transfer current r in
          elim failure [ some f ↦ give_up current f r1 | none ↦ record_page current r1 ])

  unfoldable pub round : String → Run → Verdict × Run
  round id r =
      let (state, r1) = run_get c env id r in
      elim state [
        | err e ↦ (stop (err e), r1)
        | ok current ↦ advance (env r.step).engine (env r.step).stopped id current r1
      ]

  -- `for { ... }`; `again` means that the fuel ran out before the loop ended.
  unfoldable pub execute_loop : ℕ → String → Run → Verdict × Run
  execute_loop zero id r = (again, r)
  execute_loop (suc fuel) id r =
      let (verdict, r') = round id r in
      elim verdict [ stop result ↦ (stop result, r') | again ↦ execute_loop fuel id r' ]

  -- `execute` of a job that Claim or RunJob has just started.
  unfoldable pub execute : ℕ → Job → Run → Verdict × Run
  unfolding execute_loop stop_after
  execute fuel j r =
      let e = (env r.step).engine in
      if not (authorized e j)
      then stop_after
          (finish c env j.id failed "Connection access was revoked or the account realm changed" r)
      else if not (connections_match e j)
      then stop_after (finish c env j.id failed changed_text r)
      else execute_loop fuel j.id r

-- The function that RunJob passes to `Update`.
unfoldable pub run_job_change : Job → Result Job
run_job_change j =
    if j.spec.worker_id != "" || not (is_queued j.state || is_retry_wait j.state)
    then err conflict
    else ok (record j { state = running; phase = starting; runs = j.runs + 1; next_run_at = none })
