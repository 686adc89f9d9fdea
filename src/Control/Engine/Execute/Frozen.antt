-- ===== src/Control/Engine/Execute/Frozen.antt =====
-- What no request and no step of the executor but its checkpoint changes of the job.
use vector_transfer.Base.{ℕ, String, ◌≡◌, refl, ◌≢◌, true, some, List, [], ◌∷◌, arith, All, ◌<>◌}
use vector_transfer.Base.Result.{ok}
use vector_transfer.Control.Job.{Job, State, Phase, succeeded}
use vector_transfer.Control.Journal.{Codec, Store}
use vector_transfer.Control.Store.Claiming.{started}
use vector_transfer.Control.Store.Tracks.{
  Tracks, Respects, update-Tracks, create-Tracks, claim-Tracks,
}
use vector_transfer.Control.Engine.Action.{act, action_change}
use vector_transfer.Control.Engine.Execute.{
  Request, submitted, acted, claimed, serve, serve_all, Moment, Run, finish_change, restart_change,
  phase_change, retry_change, arrive, run_get, run_update, finish,
}

-- `j` is at the checkpoint of `k`, and is `succeeded` only if that is the end of the scan.
pub record IsFrozen (k j : Job) : Type 0 where
  pub same_id : j.id ≡ k.id
  pub same_spec : j.spec ≡ k.spec
  pub same_cursor : j.cursor ≡ k.cursor
  pub same_end : j.source_exhausted ≡ k.source_exhausted
  pub same_records : j.records ≡ k.records
  pub success : j.state ≡ succeeded → k.source_exhausted ≡ true

module _ (k : Job) where
  action-Respects : (action : String) → Respects (IsFrozen k) (action_change action)
  unfolding action_change
  action-Respects action = record {
    same_id = λ j j' e. ground arith;
    keeps = λ now j j' f e. ground arith;
  }

  started-Respects : Respects (IsFrozen k) (λ j. ok (started j))
  unfolding started
  started-Respects = record {
    same_id = λ j j' e. ground arith;
    keeps = λ now j j' f e. ground arith;
  }

  pub finish-Respects :
      (state : State) (text : String)
      → (state ≡ succeeded → k.source_exhausted ≡ true)
      → Respects (IsFrozen k) (λ j. ok (finish_change state text j))
  unfolding finish_change
  finish-Respects state text h = record {
    same_id = λ j j' e. ground arith;
    keeps = λ now j j' f e. ground arith;
  }

  pub restart-Respects : (next : ℕ) → Respects (IsFrozen k) (λ j. ok (restart_change next j))
  unfolding restart_change
  restart-Respects next = record {
    same_id = λ j j' e. ground arith;
    keeps = λ now j j' f e. ground arith;
  }

  pub phase-Respects : (phase : Phase) → Respects (IsFrozen k) (λ j. ok (phase_change phase j))
  unfolding phase_change
  phase-Respects phase = record {
    same_id = λ j j' e. ground arith;
    keeps = λ now j j' f e. ground arith;
  }

  pub retry-Respects : Respects (IsFrozen k) (λ j. ok (retry_change j))
  unfolding retry_change
  retry-Respects = record { same_id = λ j j' e. ground arith; keeps = λ now j j' f e. ground arith }

-- No request creates a job under this ID: IDs are 128 random bits.
abbrev pub IsFresh : String → Request → Type 0
IsFresh id (submitted io i spec source_fp sink_fp resource key actor owner) = i ≢ id
IsFresh id (acted io i action actor) = Unit
IsFresh id (claimed io) = Unit

module _ (c : Codec) (k : Job) (id : String) where
  abbrev pub Holds : Store → Type 0
  Holds = Tracks id (IsFrozen k)

  serve-Tracks : (q : Request) (s : Store) → IsFresh id q → Holds s → Holds (serve c q s)
  unfolding serve act
  serve-Tracks (submitted io i spec source_fp sink_fp resource key actor owner) s new t =
      create-Tracks c io (some i) spec source_fp sink_fp resource key actor owner s
        (λ e. new (ground arith)) t
  serve-Tracks (acted io i action actor) s new t =
      update-Tracks c io i action actor ("Operator requested " <> action) "" (action_change action)
        s (action-Respects k action) t
  serve-Tracks (claimed io) s new t = claim-Tracks c io s (started-Respects k) t

  serve_all-Tracks :
      (qs : List Request) (s : Store) → All (IsFresh id) qs → Holds s → Holds (serve_all c qs s)
  unfolding serve_all
  serve_all-Tracks [] s new t = t
  serve_all-Tracks (q ∷ rest) s new t =
      serve_all-Tracks rest (serve c q s) new.1 (serve-Tracks q s new.0 t)

  module _ (env : ℕ → Moment) (fresh : (n : ℕ) → All (IsFresh id) (env n).requests) where
    pub arrive-Tracks : (r : Run) → Holds r.store → Holds (arrive c env r).store
    unfolding arrive
    arrive-Tracks r t = serve_all-Tracks (env r.step).requests r.store (fresh r.step) t

    pub run_get-Tracks : (i : String) (r : Run) → Holds r.store → Holds (run_get c env i r).1.store
    unfolding run_get
    run_get-Tracks i r t = arrive-Tracks r t

    pub run_update-Tracks :
        (i kind text batch : String) (fn : Moment → Job → Job) (r : Run)
        → ((m : Moment) → Respects (IsFrozen k) (λ j. ok (fn m j)))
        → Holds r.store
        → Holds (run_update c env i kind text batch fn r).1.store
    unfolding run_update
    run_update-Tracks i kind text batch fn r f t =
        let m = env r.step in
        update-Tracks c m.io i kind "worker" text batch (λ j. ok (fn m j)) (arrive c env r).store
          (f m) (arrive-Tracks r t)

    pub finish-Tracks :
        (i : String) (state : State) (text : String) (r : Run)
        → (state ≡ succeeded → k.source_exhausted ≡ true)
        → Holds r.store
        → Holds (finish c env i state text r).1.store
    unfolding finish
    finish-Tracks i state text r h t =
        run_update-Tracks i _ text "" (λ m. finish_change state text) r
          (λ m. finish-Respects k state text h) t

-- The executor's own steps acknowledge nothing.
pub arrive_delivered :
    (c : Codec) (env : ℕ → Moment) (r : Run) → (arrive c env r).delivered ≡ r.delivered
unfolding arrive
arrive_delivered c env r = refl

pub run_get_delivered :
    (c : Codec) (env : ℕ → Moment) (i : String) (r : Run)
    → (run_get c env i r).1.delivered ≡ r.delivered
unfolding run_get arrive
run_get_delivered c env i r = refl

pub run_update_delivered :
    (c : Codec) (env : ℕ → Moment) (i kind text batch : String) (fn : Moment → Job → Job) (r : Run)
    → (run_update c env i kind text batch fn r).1.delivered ≡ r.delivered
unfolding run_update arrive
run_update_delivered c env i kind text batch fn r = refl
