-- ===== src/Control/Engine/Execute.antt =====
-- The execution of one job, control/engine.go: execute, retry, finish.
-- Between any two steps of the executor other requests may reach the store: a run is driven by an
-- environment that says, for each step, which requests came before it and how the systems answer.
pub mod Loop
pub mod Frozen
pub mod Retry
pub mod Attempts
pub mod Backed
pub mod Transfer
pub mod Stops
pub mod Delivery
pub mod Complete
use vector_transfer.Base.{
  ℕ, zero, suc, ◌+◌, ◌-◌, ◌*◌, ◌/◌, ◌%◌, ◌^◌, ◌≤◌, ◌<◌, min, max, String, ◌≡◌, refl, sym, ap, ◌∙◌,
  subst, ◌≢◌, ◌↔◌, ◌⊎◌, inl, inr, Bool, true, false, not, ◌&&◌, ◌||◌, Option, none, some, List, [],
  ◌∷◌, ◌++◌, append-nil, append_assoc, arith, ◌==◌, eq_iff, ltb, leb, eqb, if◌then◌else◌, ltb→lt,
  ltb→le, leb→le, leb→lt, tests, Bool-cases, Option-cases, is_some, is_none, &&-eq_true, ||-eq_true,
  length, take, drop, any, all, count, All, In, length-append, take-append-drop, length-take-le,
  length-drop, any-In, all-In, ◌!=◌, ◌<>◌, byte_length, ==_refl, ==_sound, String-discrete, decimal,
  decimal_ℤ, ℤ, pos, negsuc, pos_part, neg_part, ltb_ℤ, eqb_ℤ, ◌≤ℤ◌, eqb_ℤ_sound, any-false,
  false-any, All-map, take-all, take-append_left, any-take, codes, trim_space,
}
use vector_transfer.Base.Result.{
  Error, not_found, conflict, forbidden, unavailable, unauthorized, canceled_context,
  journal_failed, vault_unavailable, workers_unavailable, message, Result, ok, err, ◌>>=◌, is_ok,
}
use vector_transfer.Base.Dict.{
  Dict, lookup, insert, delete, values, lookup-insert, lookup-delete, lookup-In, dict_laws,
}
use vector_transfer.Connector.{Binding, Record, Page}
use vector_transfer.Connector.Validate.{validate}
use vector_transfer.Control.Job.{
  Job, Spec, Owner, State, queued, running, retry_wait, cancel_requested, succeeded, failed,
  canceled, Phase, unset, backoff, read, write, waiting, checkpointed, state_name,
  is_cancel_requested, second,
}
use vector_transfer.Control.Journal.{Codec, Store, Io}
use vector_transfer.Control.Store.{create, get, update, health}
use vector_transfer.Control.Store.Claiming.{claim}
use vector_transfer.Control.Engine.{Engine, connection, authorized}
use vector_transfer.Control.Engine.Action.{act}

-- What other goroutines ask of the store while the job runs.
pub data Request : Type 0 where
  submitted :
      Io → String → Spec → String → String → String → String → String → Option Owner → Request
  acted : Io → String → String → String → Request
  claimed : Io → Request

unfoldable pub serve : Codec → Request → Store → Store
serve c (submitted io id spec source_fp sink_fp resource key actor owner) s =
    (create c io (some id) spec source_fp sink_fp resource key actor owner s).1
serve c (acted io id action actor) s = (act c io id action actor s).1
serve c (claimed io) s = (claim c io s).1

unfoldable pub serve_all : Codec → List Request → Store → Store
unfolding serve
serve_all c [] s = s
serve_all c (q ∷ rest) s = serve_all c rest (serve c q s)

-- How a call of a connector fails: `Retryable` or not.
pub data Fault : Type 0 where
  transient permanent : Fault

-- One step's surroundings: the requests before it, the clock and the journal's write, whether the
-- context is done, the engine's configuration, and how Read, Upsert and json.Marshal answer.
pub record Moment : Type 0 where
  pub requests : List Request
  pub io : Io
  pub stopped : Bool
  pub engine : Engine
  pub read_fault : Option Fault
  pub write_fault : Option Fault
  pub encodes : Bool

-- The store, the records that the sink has acknowledged, and the number of steps made.
pub record Run : Type 0 where
  pub store : Store
  pub delivered : List Record
  pub step : ℕ

-- `now + 30s << min(restarts, 5)`.
unfoldable pub restart_time : ℕ → ℕ → ℕ
restart_time now restarts = now + 30 * second * 2 ^ min restarts 5

-- The functions that the executor passes to `Update`.
unfoldable pub finish_change : State → String → Job → Job
finish_change state text j =
    let cleared = record j { phase = unset; next_run_at = none } in
    if is_cancel_requested j.state
    then record cleared { state = canceled; error = "" }
    else record cleared { state = state; error = text }

unfoldable pub restart_change : ℕ → Job → Job
restart_change next j =
    if is_cancel_requested j.state then record j { state = canceled } else record j {
      state = retry_wait;
      phase = waiting;
      restarts = j.restarts + 1;
      next_run_at = some next;
      error = "Temporary provider failure";
    }

abbrev pub checkpoint_state : Bool → State → State
checkpoint_state done cancel_requested = canceled
checkpoint_state done other = if done then succeeded else other

unfoldable pub checkpoint_change : ℕ → Page → Job → Job
checkpoint_change now page j = record j {
  last_checkpoint_at = some now;
  phase = checkpointed;
  cursor = page.next;
  source_exhausted = page.done;
  records = j.records + length page.records;
  batches = if ltb 0 (length page.records) then j.batches + 1 else j.batches;
  state = checkpoint_state page.done j.state;
}

unfoldable pub phase_change : Phase → Job → Job
phase_change phase j = record j { phase = phase }

unfoldable pub retry_change : Job → Job
retry_change j = record j { retries = j.retries + 1; phase = backoff }

module _ (c : Codec) (env : ℕ → Moment) where
  -- The requests that came before this step have been served.
  unfoldable pub arrive : Run → Run
  arrive r = record r { store = serve_all c (env r.step).requests r.store; step = r.step + 1 }

  -- A critical section of the executor.
  unfoldable pub run_get : String → Run → Result Job × Run
  unfolding arrive
  run_get id r = let r' = arrive r in (get id r'.store, r')

  unfoldable pub run_update :
      String → String → String → String → (Moment → Job → Job) → Run → Result Job × Run
  unfolding arrive
  run_update id kind text batch fn r =
      let r' = arrive r in
      let m = env r.step in
      let (result, s) = update c m.io id kind "worker" text batch (λ j. ok (fn m j)) r'.store in
      (result, record r' { store = s })

  -- `finish`.
  unfoldable pub finish : String → State → String → Run → Result (Unit {0}) × Run
  unfolding run_update
  finish id state text r =
      let (result, r') =
        run_update id (state_name state) text "" (λ m. finish_change state text) r in
      (elim result [ ok _ ↦ ok tt | err e ↦ err e ], r')

  -- One call of a connector: its failure, and the run after it.
  abbrev pub Call : Type 0
  Call = Moment → Run → Option Fault × Run

  -- The loop of `retry` from an attempt on. Fuel is the number of attempts that may still begin.
  unfoldable pub retry_loop : ℕ → ℕ → Job → Phase → String → Call → Run → Option Fault × Run
  unfolding run_get run_update
  retry_loop zero attempt j phase operation call r = (some permanent, r)
  retry_loop (suc fuel) attempt j phase operation call r =
      let (state, r1) = run_get j.id r in
      let (phased, r2) =
        run_update j.id "phase" ("Starting " <> operation <> " attempt") ""
          (λ m. phase_change phase) r1 in
      let m = env r2.step in
      let (failure, r3) = call m (arrive r2) in
      let (persisted, r4) =
        run_update j.id "retry"
          ("Retrying " <> operation <> " after temporary failure on attempt " <> decimal attempt) ""
          (λ m. retry_change) r3 in
      let backed_off = (env r4.step).stopped in
      if (env r.step).stopped then (some permanent, r) else elim state [
        | err _ ↦ (some permanent, r1)
        | ok current ↦ elim (is_cancel_requested current.state) [
          | true ↦ (some permanent, r1)
          | false ↦ elim phased [
            | err _ ↦ (some permanent, r2)
            | ok _ ↦ elim failure [
              | none ↦ (none, r3)
              | some permanent ↦ (some permanent, r3)
              | some transient ↦ elim (ltb_ℤ (pos attempt) j.spec.max_attempts) [
                | false ↦ (some transient, r3)
                | true ↦ elim persisted [
                  | err _ ↦ (some permanent, r4)
                  | ok _ ↦ elim backed_off [
                    | true ↦ (some permanent, r4)
                    | false ↦ retry_loop fuel (attempt + 1) j phase operation call r4
                  ]
                ]
              ]
            ]
          ]
        ]
      ]
