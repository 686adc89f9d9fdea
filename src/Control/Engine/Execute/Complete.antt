-- ===== src/Control/Engine/Execute/Complete.antt =====
-- The engine's promise for a whole execution of a job.
use vector_transfer.Base.{
  ℕ, String, ◌≡◌, refl, sym, subst, ◌⊎◌, inl, inr, Bool, some, List, arith, All, ℤ,
}
use vector_transfer.Base.Dict.{lookup}
use vector_transfer.Connector.{Record, Page}
use vector_transfer.Control.Job.{Job, failed}
use vector_transfer.Control.Journal.{Codec}
use vector_transfer.Control.Engine.Execute.{Moment, Run, finish}
use vector_transfer.Control.Engine.Execute.Loop.{changed_text, execute_loop, execute}
use vector_transfer.Control.Engine.Execute.Frozen.{IsFresh, Holds}
use vector_transfer.Control.Engine.Execute.Backed.{IsBacked, IsFrozen-refl}
use vector_transfer.Control.Store.Keyed.{IsKeyed}
use vector_transfer.Control.Engine.Execute.Stops
use vector_transfer.Control.Engine.Execute.Delivery.{execute_loop-Safe}

module _ (c : Codec) (json_valid : String → Bool) (pages : String → ℤ → Page)
    (receipt : List Record → String) (env : ℕ → Moment) (j : Job) where
  execute_shape :
      (fuel : ℕ) (r : Run)
      → let result = (execute c json_valid pages receipt env fuel j r).1 in
        (result
          ≡ (finish c env j.id failed "Connection access was revoked or the account realm changed"
              r).1)
        ⊎ (result ≡ (finish c env j.id failed changed_text r).1)
        ⊎ (result ≡ (execute_loop c json_valid pages receipt env fuel j.id r).1)
  unfolding execute
  execute_shape fuel r = ground arith

  -- A job is executed against a source that answers the same page whenever it is asked at the same
  -- cursor; any calls may fail, and before each step other submissions, cancellations, resumptions
  -- and claims may reach the store, as long as no new job draws this job's ID. If the job was backed
  -- before, it is still in the store and backed after any number of rounds: its cursor is where a
  -- scan from the beginning stands whose records the sink has all acknowledged, its record count is
  -- their number, and it is `succeeded` only where that scan is complete.
  pub execute_delivers :
      (fuel : ℕ) (r : Run)
      → ((n : ℕ) → All (IsFresh j.id) (env n).requests)
      → IsKeyed r.store.jobs
      → lookup j.id r.store.jobs ≡ some j
      → IsBacked (λ cursor. pages cursor j.spec.batch_size) r.delivered j
      → let r' = (execute c json_valid pages receipt env fuel j r).1 in
        (j' : Job) × (lookup j.id r'.store.jobs ≡ some j')
        × IsBacked (λ cursor. pages cursor j.spec.batch_size) r'.delivered j'
  execute_delivers fuel r fresh keyed at b = (final.job, final.at, final.holds.0)
    where
      Safe : Run → Type 0
      Safe = Stops.Safe c json_valid pages receipt env j.id fresh j.spec.batch_size

      frozen : Holds c j j.id r.store
      frozen = record { keyed = keyed; job = j; at = at; holds = IsFrozen-refl j b.success }

      finished : (text : String) → Safe (finish c env j.id failed text r).1
      finished text =
          Stops.Follows-Safe c json_valid pages receipt env j.id fresh j.spec.batch_size j r _ b
            refl
            (Stops.finish-Follows c json_valid pages receipt env j.id fresh j.spec.batch_size j j.id
              failed text r (λ h. cc) frozen)

      looped : Safe (execute_loop c json_valid pages receipt env fuel j.id r).1
      looped =
          execute_loop-Safe c json_valid pages receipt env j.id fresh j.spec.batch_size fuel r
            (record { keyed = keyed; job = j; at = at; holds = (b, refl) })

      final : Safe (execute c json_valid pages receipt env fuel j r).1
      final = elim (execute_shape fuel r) [
        | inl e ↦ subst Safe (sym e) (finished _)
        | inr (inl e) ↦ subst Safe (sym e) (finished _)
        | inr (inr e) ↦ subst Safe (sym e) looped
      ]
