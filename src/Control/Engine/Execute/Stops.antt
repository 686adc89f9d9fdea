-- ===== src/Control/Engine/Execute/Stops.antt =====
-- How the executor stops.
use vector_transfer.Base.{
  ℕ, String, ◌≡◌, sym, ap, ◌∙◌, subst, ◌⊎◌, inl, inr, Bool, true, List, arith, All, ℤ,
}
use vector_transfer.Base.Result.{Result, ok, err}
use vector_transfer.Connector.{Record, Page}
use vector_transfer.Control.Job.{Job, Spec, State, queued, succeeded, failed, canceled}
use vector_transfer.Control.Journal.{Codec}
use vector_transfer.Control.Store.Tracks.{Tracks}
use vector_transfer.Control.Engine.Execute.{
  Moment, Run, Fault, arrive, run_get, run_update, finish, restart_change, restart_time,
}
use vector_transfer.Control.Engine.Execute.Loop.{give_up, failed_text}
use vector_transfer.Control.Engine.Execute.Frozen.{IsFresh, Holds, restart-Respects, finish-Tracks}
use vector_transfer.Control.Engine.Execute.Retry.{
  Follows, Follows-trans, arrive-Follows, run_get-Follows, run_update-Follows,
}
use vector_transfer.Control.Engine.Execute.Backed.{IsBacked, IsFrozen-refl, IsBacked-frozen}

abbrev restarts_of : Result Job → ℕ
restarts_of (ok j) = j.restarts
restarts_of (err e) = 0

module _ (c : Codec) (json_valid : String → Bool) (pages : String → ℤ → Page)
    (receipt : List Record → String) (env : ℕ → Moment) (id : String)
    (fresh : (n : ℕ) → All (IsFresh id) (env n).requests) (batch : ℤ) where
  abbrev pub page : String → Page
  page cursor = pages cursor batch

  -- The tracked job is backed by what has been acknowledged.
  abbrev pub Safe : Run → Type 0
  Safe r = Tracks id (λ j. IsBacked page r.delivered j × (j.spec.batch_size ≡ batch)) r.store

  pub Safe-Holds : (r : Run) (t : Safe r) → Holds c t.job id r.store
  Safe-Holds r t = record {
    keyed = t.keyed;
    job = t.job;
    at = t.at;
    holds = IsFrozen-refl t.job (t.holds.0.success);
  }

  pub Follows-Safe :
      (k : Job) (r r' : Run)
      → IsBacked page r.delivered k
      → k.spec.batch_size ≡ batch
      → Follows c k id r r'
      → Safe r'
  Follows-Safe k r r' b size f = record {
    keyed = f.held.keyed;
    job = f.held.job;
    at = f.held.at;
    holds = (
      IsBacked-frozen page r.delivered r'.delivered k f.held.job b f.grown f.held.holds,
      ap (λ (s : Spec). s.batch_size) f.held.holds.same_spec ∙ size,
    );
  }

  pub run_get-Safe : (i : String) (r : Run) → Safe r → Safe (run_get c env i r).1
  run_get-Safe i r t =
      Follows-Safe t.job r _ t.holds.0 t.holds.1
        (run_get-Follows c t.job id env fresh i r (Safe-Holds r t))

  pub finish-Follows :
      (k : Job) (i : String) (state : State) (text : String) (r : Run)
      → (state ≡ succeeded → k.source_exhausted ≡ true)
      → Holds c k id r.store
      → Follows c k id r (finish c env i state text r).1
  finish-Follows k i state text r h t = record {
    held = finish-Tracks c k id env fresh i state text r h t;
    grown = λ x m. unfold finish run_update arrive in m;
  }

  module _ (j : Job) (fault : Fault) (r : Run) where
    r1 : Run
    r1 = arrive c env r

    r2 : Run
    unfolding r1
    r2 = (run_get c env j.id r1).1

    give_up_shape :
        let result = give_up c json_valid pages receipt env j fault r in
        (result.1 ≡ r1)
        ⊎ (result.1 ≡ r2)
        ⊎ (result.1 ≡ (finish c env j.id queued "" r1).1)
        ⊎ (result.1 ≡ (finish c env j.id canceled "" r2).1)
        ⊎ (result.1 ≡ (finish c env j.id failed failed_text r2).1)
        ⊎ (result.1
            ≡ (run_update c env j.id "restart_scheduled"
                "Temporary provider failure; restarting from the saved checkpoint" ""
                (λ m.
                  restart_change (restart_time m.io.now (restarts_of (run_get c env j.id r1).0)))
                r2).1)
    unfolding give_up r2
    give_up_shape = ground arith

  pub give_up-Follows :
      (k j : Job) (fault : Fault) (r : Run)
      → Holds c k id r.store
      → Follows c k id r (give_up c json_valid pages receipt env j fault r).1
  unfolding r2
  give_up-Follows k j fault r t =
      let f1 = arrive-Follows c k id env fresh r t in
      let f2 =
        Follows-trans c k id env fresh f1
          (run_get-Follows c k id env fresh j.id (r1 j fault r) f1.held) in
      let to =
        λ (x : Run) (e : (give_up c json_valid pages receipt env j fault r).1 ≡ x)
            (f : Follows c k id r x).
          subst (Follows c k id r) (sym e) f in
      elim (give_up_shape j fault r) [
        | inl e ↦ to _ e f1
        | inr (inl e) ↦ to _ e f2
        | inr (inr (inl e)) ↦ to _ e (
            Follows-trans c k id env fresh f1 (finish-Follows k j.id queued "" _ (λ h. cc) f1.held))
        | inr (inr (inr (inl e))) ↦ to _ e (
            Follows-trans c k id env fresh f2
              (finish-Follows k j.id canceled "" _ (λ h. cc) f2.held))
        | inr (inr (inr (inr (inl e)))) ↦ to _ e (
            Follows-trans c k id env fresh f2
              (finish-Follows k j.id failed failed_text _ (λ h. cc) f2.held))
        | inr (inr (inr (inr (inr e)))) ↦ to _ e (
            Follows-trans c k id env fresh f2 (
              run_update-Follows c k id env fresh j.id "restart_scheduled" _ ""
                (λ m.
                  restart_change
                    (restart_time m.io.now (restarts_of (run_get c env j.id (r1 j fault r)).0)))
                _
                (λ m.
                  restart-Respects k
                    (restart_time m.io.now (restarts_of (run_get c env j.id (r1 j fault r)).0)))
                f2.held))
      ]
