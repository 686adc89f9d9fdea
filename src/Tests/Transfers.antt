-- ===== src/Tests/Transfers.antt =====
-- Transfers of a job of two pages, and its admission.
use vector_transfer.Base.{
  ℕ, ◌+◌, ◌≤◌, String, ◌≡◌, refl, ◌≢◌, ◌↔◌, ◌⊎◌, Bool, true, Option, none, some, List, [], ◌∷◌,
  ◌++◌, arith, ◌==◌, is_some, length, All, In, pos, trim_space,
}
use vector_transfer.Base.Result.{ok}
use vector_transfer.Base.Dict.{lookup}
use vector_transfer.Connector.{Record, Binding}
use vector_transfer.Connector.Validate.{validate, IsPage}
use vector_transfer.Connector.Validate.Exact.{validate_iff}
use vector_transfer.Connector.Chunks.{chunks, concat, stuck, sent_all, chunks_delivers}
use vector_transfer.Connector.Access.{allows_iff, allows_read, allows_write}
use vector_transfer.Control.Job.{
  Owner, Job, canceled, queued, retry_wait, running, cancel_requested, succeeded, failed, read,
}
use vector_transfer.Control.Engine.Admission.{normalize-IsNormal, IsNormal, action_transitions}
use vector_transfer.Control.Engine.Granted.{admitted_granted}
use vector_transfer.Control.Engine.{Engine, connection, may_read, may_write}
use vector_transfer.Control.Engine.Submit.{normalize, admit, may_submit, hosted_route, Route}
use vector_transfer.Control.Engine.Action.{action_change}
use vector_transfer.Control.Engine.Execute.{Moment, Run, retry_loop}
use vector_transfer.Control.Engine.Execute.Loop.{execute, read_call, attempts}
use vector_transfer.Control.Engine.Execute.Backed.{IsBacked, scan_start}
use vector_transfer.Control.Engine.Execute.Complete.{execute_delivers}
use vector_transfer.Control.Engine.Execute.Attempts.{retry_enough}
use vector_transfer.Tests.Data.{
  engine, spec, running_job, store_of, point, pages, quiet_moment, blank_codec, binding,
}

abbrev moments : ℕ → Moment
moments n = quiet_moment

abbrev start : Run
start = record { store = store_of running_job; delivered = []; step = 0 }

abbrev valid : String → Bool
valid s = true

abbrev receipt : List Record → String
receipt rs = ""

abbrev finished : Run
finished = (execute blank_codec valid pages receipt moments 3 running_job start).1

execute_delivers_example :
    (j' : Job) × (lookup "job-1" finished.store.jobs ≡ some j')
    × IsBacked (λ cursor. pages cursor (pos 2)) finished.delivered j'
unfolding lookup
execute_delivers_example =
    execute_delivers blank_codec valid pages receipt moments running_job 3 start (λ n. tt)
      (refl, refl, tt) refl
      (record {
        scanned = [];
        scan = scan_start;
        acknowledged = λ x i. absurd (i tt);
        counted = refl;
        success = λ e. cc;
      })

retry_enough_example :
    retry_loop blank_codec moments
      (attempts running_job + 2)
      1
      running_job
      read
      "read"
      read_call
      start
    ≡ retry_loop blank_codec moments
        (attempts running_job)
        1
        running_job
        read
        "read"
        read_call
        start
retry_enough_example = retry_enough blank_codec moments running_job read "read" read_call 2 start

validate_iff_example :
    (validate valid (point "a" ∷ point "b" ∷ []) (pos 1) ≡ ok tt)
    ↔ IsPage valid (pos 1) [] (point "a" ∷ point "b" ∷ [])
validate_iff_example = validate_iff valid (point "a" ∷ point "b" ∷ []) (pos 1)

abbrev alice : String
alice = "alice"

abbrev shared : Binding
shared = record (binding "src" "fs" (some 0) none) { read_subjects = "alice" ∷ [] }

allows_iff_example :
    ((allows_read shared alice ≡ true)
      ↔ ((is_some shared.source ≡ true) × (alice ≢ "") × In alice shared.read_subjects))
    × ((allows_write shared alice ≡ true)
        ↔ ((is_some shared.sink ≡ true) × (alice ≢ "") × In alice shared.write_subjects))
allows_iff_example = allows_iff shared alice

normalize-IsNormal_example : IsNormal spec spec
unfolding normalize trim_space
normalize-IsNormal_example = normalize-IsNormal spec spec refl

action_transitions_example :
    let j' = record running_job { state = cancel_requested } in
    (j'.id ≡ running_job.id)
    × (j'.cursor ≡ running_job.cursor)
    × (j'.records ≡ running_job.records)
    × (j'.batches ≡ running_job.batches)
    × (running_job.state ≢ succeeded)
    × ((("cancel" == "cancel") ≡ true)
          × ((((running_job.state ≡ queued) ⊎ (running_job.state ≡ retry_wait))
                × (j'.state ≡ canceled))
              ⊎ (((running_job.state ≡ running) ⊎ (running_job.state ≡ cancel_requested))
                  × (j'.state ≡ cancel_requested)))
        ⊎ ((("cancel" == "resume") ≡ true)
            × (((running_job.state ≡ failed)
                  ⊎ (running_job.state ≡ canceled)
                  ⊎ (running_job.state ≡ retry_wait))
                × (j'.state ≡ queued)
                × (j'.restarts ≡ 0))))
unfolding action_change
action_transitions_example =
    action_transitions "cancel" running_job (record running_job { state = cancel_requested }) refl

abbrev items : List ℕ
items = 1 ∷ 2 ∷ 3 ∷ []

abbrev item_bytes : List ℕ → Option ℕ
item_bytes xs = some (length xs)

abbrev always : ℕ → Bool
always k = true

chunks_delivers_example :
    ((chunks 2 2 item_bytes always items).0 ≢ stuck)
    × ((rest : List ℕ) × (items
          ≡ concat 2 2 item_bytes always (chunks 2 2 item_bytes always items).1 ++ rest)
        × ((chunks 2 2 item_bytes always items).0 ≡ sent_all → rest ≡ []))
    × All (λ c. length c ≤ 2) (chunks 2 2 item_bytes always items).1
chunks_delivers_example = chunks_delivers 2 2 item_bytes always items (omega arith)

abbrev account_engine : Engine
account_engine = record engine {
  account_realm = "main";
  registry =
      ("src", record (binding "src" "fs" (some 0) none) { read_subjects = "alice" ∷ [] })
      ∷ ("dst", record (binding "dst" "fd" none (some 1)) { write_subjects = "alice" ∷ [] })
      ∷ [];
}

abbrev submitter : Owner
submitter = record { id = "u-1"; subject = "alice"; realm = "main" }

abbrev admitted_route : Route
admitted_route = record { source_fp = "fs"; sink_fp = "fd"; resource = "fd" }

admitted_granted_example :
    ((o : Owner) × (submitter ∷ [] ≡ o ∷ [])
      × (o.realm ≡ account_engine.account_realm)
      × (may_read (connection account_engine spec.source) o.subject ≡ true)
      × (may_write (connection account_engine spec.sink) o.subject ≡ true))
    × (normalize spec ≡ ok spec)
    × (hosted_route account_engine spec ≡ ok admitted_route)
unfolding admit normalize trim_space connection may_submit lookup allows_read allows_write
admitted_granted_example =
    admitted_granted account_engine spec "" spec admitted_route (submitter ∷ []) refl refl refl
