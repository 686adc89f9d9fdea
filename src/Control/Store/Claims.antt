-- ===== src/Control/Store/Claims.antt =====
-- Which job a claim starts.
use vector_transfer.Base.{
  ◌≡◌, inl, inr, true, false, ◌&&◌, ◌||◌, some, arith, ◌==◌, any, All, any-false,
}
use vector_transfer.Base.Result.{ok}
use vector_transfer.Base.Dict.{lookup, values}
use vector_transfer.Control.Job.{Job, is_queued, is_retry_wait, is_due, is_active}
use vector_transfer.Control.Journal.{Codec, Store, Io, append}
use vector_transfer.Control.Store.{then_job_at, with_flag, zero_job}
use vector_transfer.Control.Store.Claiming.{claim, started, is_claimable, busy}
use vector_transfer.Control.Store.Shape.{picked}
use vector_transfer.Control.Store.Keyed.{IsKeyed, IsKeyed-In, pick_oldest-In, appended_job}

module _ (c : Codec) (io : Io) (s : Store) (j' : Job) where
  claimed_shape :
      (claim c io s).0 ≡ ok (j', true)
      → let j = picked c io s in
        ((j.id == "") ≡ false)
        × ((then_job_at j.id
              (append c io (started j) "started" "worker" "Transfer execution started" "" s)).0
            ≡ ok j')
  unfolding claim with_flag
  claimed_shape h = ground (arith, h)

  eligible_shape :
      (j : Job)
      → is_claimable io.now (values s.jobs) j ≡ true
      → ((j.spec.worker_id == "") ≡ true)
        × ((is_queued j.state || (is_retry_wait j.state && is_due j.next_run_at io.now)) ≡ true)
        × All
            (λ k. (is_active k.state && k.sink_resource == j.sink_resource) ≡ false)
            (values s.jobs)
  unfolding is_claimable busy
  eligible_shape j h =
      let parts : ((j.spec.worker_id == "") ≡ true)
          × ((is_queued j.state || (is_retry_wait j.state && is_due j.next_run_at io.now)) ≡ true)
          × (any (λ k. is_active k.state && k.sink_resource == j.sink_resource) (values s.jobs)
              ≡ false) =
        ground (arith, h) in
      (parts.0, parts.1, any-false _ (values s.jobs) parts.2)

  -- When Claim hands out a job, the job was in the store under its own ID, is one that the hosted
  -- engine runs, was queued or due for its retry, no running job and no job being canceled in the
  -- store has its destination, and what is handed out is that job, started and stamped.
  pub claim_eligible :
      IsKeyed s.jobs
      → (claim c io s).0 ≡ ok (j', true)
      → (j : Job) × (lookup j.id s.jobs ≡ some j)
        × ((j.spec.worker_id == "") ≡ true)
        × ((is_queued j.state || (is_retry_wait j.state && is_due j.next_run_at io.now)) ≡ true)
        × All
            (λ k. (is_active k.state && k.sink_resource == j.sink_resource) ≡ false)
            (values s.jobs)
        × (j' ≡ record (started j) { updated_at = io.now })
  unfolding started
  claim_eligible keyed h =
      let j = picked c io s in
      let (named, given) = claimed_shape h in
      elim (pick_oldest-In (is_claimable io.now (values s.jobs)) zero_job (values s.jobs)) [
        | inl none_met ↦ cc (none_met, named)
        | inr (i, good) ↦
            let (hosted, due, free) = eligible_shape j good in
            (
              j,
              IsKeyed-In s.jobs j keyed i,
              hosted,
              due,
              free,
              appended_job c io (started j) "started" "worker" "Transfer execution started" s j'
                  given,
            )
      ]
