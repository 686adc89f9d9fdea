-- ===== src/Control/Engine/Execute/Retry.antt =====
-- What the retry loop of a connector call leaves: the job as it was, what had been acknowledged,
-- and, when it returns nil, the effect of a call that succeeded.
use vector_transfer.Base.{
  ℕ, zero, suc, ◌+◌, String, ◌≡◌, sym, subst, ◌≢◌, ◌⊎◌, inl, inr, Option, none, arith, All, In,
  ◌<>◌, decimal,
}
use vector_transfer.Base.Result.{ok}
use vector_transfer.Connector.{Record}
use vector_transfer.Control.Job.{Job, Phase}
use vector_transfer.Control.Journal.{Codec}
use vector_transfer.Control.Engine.Execute.{
  Moment, Run, Fault, phase_change, retry_change, arrive, run_get, run_update, retry_loop,
}
use vector_transfer.Control.Store.Tracks.{Respects}
use vector_transfer.Control.Engine.Execute.Frozen.{
  IsFrozen, phase-Respects, retry-Respects, IsFresh, Holds, arrive-Tracks, run_get-Tracks,
  run_update-Tracks,
}

abbrev pub Call : Type 0
Call = Moment → Run → Option Fault × Run

module _ (c : Codec) (env : ℕ → Moment) (attempt : ℕ) (j : Job) (phase : Phase) (operation : String)
    (call : Call) where
  -- The run after each step of an attempt.
  after_get : Run → Run
  after_get r = (run_get c env j.id r).1

  after_phase : Run → Run
  unfolding after_get
  after_phase r =
      (run_update c env j.id "phase" ("Starting " <> operation <> " attempt") ""
        (λ m. phase_change phase) (after_get r)).1

  called : Run → Option Fault × Run
  unfolding after_phase
  called r = call (env (after_phase r).step) (arrive c env (after_phase r))

  unfoldable pub after_retry : Run → Run
  unfolding called
  after_retry r =
      (run_update c env j.id "retry"
        ("Retrying " <> operation <> " after temporary failure on attempt " <> decimal attempt) ""
        (λ m. retry_change) (called r).1).1

  -- An attempt fails somewhere, or returns the call's success, or goes on to the next attempt.
  attempt_shape :
      (fuel : ℕ) (r : Run)
      → let result = retry_loop c env (suc fuel) attempt j phase operation call r in
        ((result.0 ≢ none)
          × ((result.1 ≡ r)
              ⊎ (result.1 ≡ after_get r)
              ⊎ (result.1 ≡ after_phase r)
              ⊎ (result.1 ≡ (called r).1)
              ⊎ (result.1 ≡ after_retry r)))
        ⊎ (((called r).0 ≡ none) × (result ≡ (none, (called r).1)))
        ⊎ (result ≡ retry_loop c env fuel (attempt + 1) j phase operation call (after_retry r))
  unfolding retry_loop after_retry
  attempt_shape fuel r = ground arith

-- A call of a connector does not touch the store, and takes back no acknowledgement; `Q` is what its
-- success gives.
pub record IsCall (Q : Run → Type 0) (call : Call) : Type 0 where
  pub call_store : (m : Moment) (r : Run) → (call m r).1.store ≡ r.store
  pub call_grows :
      (m : Moment) (r : Run) (x : Record) → In x r.delivered → In x (call m r).1.delivered
  pub call_done : (m : Moment) (r : Run) → (call m r).0 ≡ none → Q (call m r).1

-- `r'` comes after `r`: the job is still frozen, and what was acknowledged is.
pub record Follows (c : Codec) (k : Job) (id : String) (r r' : Run) : Type 0 where
  pub held : Holds c k id r'.store
  pub grown : (x : Record) → In x r.delivered → In x r'.delivered

module _ (c : Codec) (k : Job) (id : String) (env : ℕ → Moment)
    (fresh : (n : ℕ) → All (IsFresh id) (env n).requests) where
  pub Follows-refl : (r : Run) → Holds c k id r.store → Follows c k id r r
  Follows-refl r t = record { held = t; grown = λ x i. i }

  pub Follows-trans :
      {r r' r'' : Run} → Follows c k id r r' → Follows c k id r' r'' → Follows c k id r r''
  Follows-trans f g = record { held = g.held; grown = λ x i. g.grown x (f.grown x i) }

  pub arrive-Follows : (r : Run) → Holds c k id r.store → Follows c k id r (arrive c env r)
  arrive-Follows r t = record {
    held = arrive-Tracks c k id env fresh r t;
    grown = λ x i. unfold arrive in i;
  }

  pub run_get-Follows :
      (i : String) (r : Run) → Holds c k id r.store → Follows c k id r (run_get c env i r).1
  run_get-Follows i r t = record {
    held = run_get-Tracks c k id env fresh i r t;
    grown = λ x h. unfold run_get arrive in h;
  }

  pub run_update-Follows :
      (i kind text batch : String) (fn : Moment → Job → Job) (r : Run)
      → ((m : Moment) → Respects (IsFrozen k) (λ j. ok (fn m j)))
      → Holds c k id r.store
      → Follows c k id r (run_update c env i kind text batch fn r).1
  run_update-Follows i kind text batch fn r f t = record {
    held = run_update-Tracks c k id env fresh i kind text batch fn r f t;
    grown = λ x h. unfold run_update arrive in h;
  }

  module _ (j : Job) (phase : Phase) (operation : String) {Q : Run → Type 0} (call : Call)
      (good : IsCall Q call) where
    call-Follows : (m : Moment) (r : Run) → Holds c k id r.store → Follows c k id r (call m r).1
    call-Follows m r t = record {
      held = subst (Holds c k id) (sym (good.call_store m r)) t;
      grown = good.call_grows m r;
    }

    module _ (attempt : ℕ) (r : Run) (t : Holds c k id r.store) where
      get-Follows : Follows c k id r (after_get c env attempt j phase operation call r)
      unfolding after_get
      get-Follows = run_get-Follows j.id r t

      phase-Follows : Follows c k id r (after_phase c env attempt j phase operation call r)
      unfolding after_phase
      phase-Follows = Follows-trans get-Follows (
          run_update-Follows j.id "phase" _ "" (λ m. phase_change phase) _
            (λ m. phase-Respects k phase) get-Follows.held)

      called-Follows : Follows c k id r (called c env attempt j phase operation call r).1
      unfolding called
      called-Follows =
          let arrived =
            arrive-Follows (after_phase c env attempt j phase operation call r)
              phase-Follows.held in
          Follows-trans phase-Follows (Follows-trans arrived (call-Follows _ _ arrived.held))

      retry-Follows : Follows c k id r (after_retry c env attempt j phase operation call r)
      unfolding after_retry
      retry-Follows = Follows-trans called-Follows (
          run_update-Follows j.id "retry" _ "" (λ m. retry_change) _ (λ m. retry-Respects k)
            called-Follows.held)

    called-done :
        (attempt : ℕ) (r : Run)
        → (called c env attempt j phase operation call r).0 ≡ none
        → Q (called c env attempt j phase operation call r).1
    unfolding called
    called-done attempt r h = good.call_done _ _ h

    pub retry_loop-Follows :
        (fuel attempt : ℕ) (r : Run)
        → Holds c k id r.store
        → let result = retry_loop c env fuel attempt j phase operation call r in
          Follows c k id r result.1 × (result.0 ≡ none → Q result.1)
    retry_loop-Follows zero attempt r t = unfold retry_loop in (Follows-refl r t, λ e. cc)
    retry_loop-Follows (suc fuel) attempt r t =
        elim (attempt_shape c env attempt j phase operation call fuel r) [
          | inl (failed, place) ↦ (
            elim place [
              | inl e ↦ subst (Follows c k id r) (sym e) (Follows-refl r t)
              | inr (inl e) ↦ subst (Follows c k id r) (sym e) (get-Follows attempt r t)
              | inr (inr (inl e)) ↦ subst (Follows c k id r) (sym e) (phase-Follows attempt r t)
              | inr (inr (inr (inl e))) ↦
                  subst (Follows c k id r) (sym e) (called-Follows attempt r t)
              | inr (inr (inr (inr e))) ↦
                  subst (Follows c k id r) (sym e) (retry-Follows attempt r t)
            ],
            λ e. absurd (failed e),
          )
          | inr (inl (done, e)) ↦ rw e (called-Follows attempt r t, λ _. called-done attempt r done)
          | inr (inr e) ↦ rw e (
              let (f, q) =
                retry_loop-Follows fuel (attempt + 1) _ (retry-Follows attempt r t).held in
              (Follows-trans (retry-Follows attempt r t) f, q))
        ]
