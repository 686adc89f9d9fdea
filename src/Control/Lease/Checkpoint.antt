-- ===== src/Control/Lease/Checkpoint.antt =====
-- The checkpoint of the copy that a worker resumes.
use vector_transfer.Base.{
  ◌≤◌, String, ◌≡◌, sym, subst, ◌⊎◌, inl, inr, true, false, ◌||◌, none, some, arith, ltb,
  Option-cases, is_some,
}
use vector_transfer.Base.Result.{ok}
use vector_transfer.Base.Dict.{lookup}
use vector_transfer.Control.Job.{Job}
use vector_transfer.Control.Journal.{Codec, Store, Io, append}
use vector_transfer.Control.Store.{then_job_at}
use vector_transfer.Control.Store.Keyed.{IsKeyed, IsKeyed-lookup, appended_job}
use vector_transfer.Control.Lease.{WorkerAssignment}
use vector_transfer.Control.Lease.Prepare.{prepare_worker_job, prepare_known, resumed, accepted_job}

module _ (c : Codec) (io : Io) (a : WorkerAssignment) (source_fp sink_fp : String) (s : Store)
    (j' : Job) where
  known_shape :
      (j : Job)
      → (prepare_known c io a source_fp sink_fp j s).0 ≡ ok j'
      → (j.generation ≤ a.generation)
        × (a.records ≤ j.records)
        × (a.batches ≤ j.batches)
        × (a.checkpoint ≡ true → is_some j.last_checkpoint_at ≡ true)
        × (((j ≡ j') × (a.generation ≤ j.generation))
            ⊎ ((then_job_at a.id (
                  append c io
                    (resumed a.generation j)
                    "resumed"
                    "worker"
                    "Control plane requested resume"
                    ""
                    s)).0
                ≡ ok j'))
  unfolding prepare_known
  known_shape j h = ground arith

  -- The copy is as far as the assignment says, and of its generation.
  abbrev pub IsUpToDate : Type 0
  IsUpToDate =
      (a.records ≤ j'.records)
      × (a.batches ≤ j'.batches)
      × (a.checkpoint ≡ true → is_some j'.last_checkpoint_at ≡ true)
      × (j'.generation ≡ a.generation)

  known_up_to_date :
      (j : Job)
      → j.id ≡ a.id
      → (prepare_known c io a source_fp sink_fp j s).0 ≡ ok j'
      → IsUpToDate × (j'.cursor ≡ j.cursor) × (j'.records ≡ j.records)
  unfolding resumed
  known_up_to_date j named h =
      let shape = known_shape j h in
      elim shape.4 [
        | inl (same, older) ↦ ground (arith, shape)
        | inr stored ↦
            let e =
              appended_job c io (resumed a.generation j) "resumed" "worker"
                "Control plane requested resume" s j'
                (subst
                  (λ i.
                    (then_job_at i (
                      append c io (resumed a.generation j) "resumed" "worker"
                        "Control plane requested resume" "" s)).0
                    ≡ ok j')
                  (sym named) stored) in
            ground (arith, shape, e)
      ]

  new_up_to_date :
      (resource : String)
      → (a.checkpoint || ltb 0 a.records || ltb 0 a.batches) ≡ false
      → (then_job_at a.id (
          append c io
            (accepted_job io.now a source_fp sink_fp resource)
            "submitted"
            "worker"
            "Accepted locally approved transfer"
            ""
            s)).0
        ≡ ok j'
      → IsUpToDate
  unfolding accepted_job
  new_up_to_date resource start h =
      let e =
        appended_job c io (accepted_job io.now a source_fp sink_fp resource) "submitted" "worker"
          "Accepted locally approved transfer" s j' h in
      ground (arith, e)

-- When PrepareWorkerJob accepts an assignment, the worker's copy of the job has at least the records
-- and batches, and the checkpoint, that the control plane has been told of, and the assignment's
-- generation; a copy that was there keeps its cursor and its record count.
pub prepare_not_behind :
    (c : Codec) (io : Io) (a : WorkerAssignment) (source_fp sink_fp resource : String) (s : Store)
    (j' : Job)
    → IsKeyed s.jobs
    → (prepare_worker_job c io a source_fp sink_fp resource s).0 ≡ ok j'
    → (a.records ≤ j'.records)
      × (a.batches ≤ j'.batches)
      × (a.checkpoint ≡ true → is_some j'.last_checkpoint_at ≡ true)
      × (j'.generation ≡ a.generation)
      × ((j : Job)
          → lookup a.id s.jobs ≡ some j
          → (j'.cursor ≡ j.cursor) × (j'.records ≡ j.records))
unfolding prepare_worker_job
prepare_not_behind c io a source_fp sink_fp resource s j' keyed h =
    elim (Option-cases (lookup a.id s.jobs)) [
      | inl fresh ↦
          let (start, stored) = fresh_shape fresh h in
          let u = new_up_to_date c io a source_fp sink_fp s j' resource start stored in
          (u.0, u.1, u.2, u.3, λ j at. cc (fresh, at))
      | inr (j, at) ↦
          let named = IsKeyed-lookup s.jobs a.id j keyed at in
          let known : (prepare_known c io a source_fp sink_fp j s).0 ≡ ok j' =
            ground (arith, at, h) in
          let (u, cursor, records) = known_up_to_date c io a source_fp sink_fp s j' j named known in
          (
            u.0,
            u.1,
            u.2,
            u.3,
            λ k at'.
                let same : j ≡ k = cc (at, at') in
                subst (λ x. (j'.cursor ≡ x.cursor) × (j'.records ≡ x.records)) same
                  (cursor, records),
          )
    ]
  where
    fresh_shape :
        lookup a.id s.jobs ≡ none
        → (prepare_worker_job c io a source_fp sink_fp resource s).0 ≡ ok j'
        → ((a.checkpoint || ltb 0 a.records || ltb 0 a.batches) ≡ false)
          × ((then_job_at a.id (
                append c io
                  (accepted_job io.now a source_fp sink_fp resource)
                  "submitted"
                  "worker"
                  "Accepted locally approved transfer"
                  ""
                  s)).0
              ≡ ok j')
    fresh_shape fresh h' = ground (arith, fresh, h')
