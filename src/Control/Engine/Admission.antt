-- ===== src/Control/Engine/Admission.antt =====
-- What a submitted job is known to satisfy, and what an operator's action may change.
use vector_transfer.Base.{
  ◌≤◌, String, ◌≡◌, refl, ◌≢◌, ◌⊎◌, true, false, arith, ◌==◌, byte_length, pos, negsuc,
}
use vector_transfer.Base.Result.{Result, ok, err, ◌>>=◌}
use vector_transfer.Control.Job.{
  Job, Spec, queued, running, retry_wait, cancel_requested, succeeded, failed, canceled,
}
use vector_transfer.Control.Engine.Submit.{
  normalize, within, check_name, check_dimension, check_batch_size, check_max_attempts,
  check_max_restarts,
}
use vector_transfer.Control.Engine.Action.{action_change, cancel_change, resume_change}

-- The limits of an admitted job.
abbrev pub IsNormal : Spec → Spec → Type 0
IsNormal spec normal =
    ((normal.name == "") ≡ false)
    × (byte_length normal.name ≤ 160)
    × (within (pos 1) (pos 65536) normal.dimension ≡ true)
    × (within (pos 1) (pos 500) normal.batch_size ≡ true)
    × (within (pos 1) (pos 10) normal.max_attempts ≡ true)
    × (within (negsuc 0) (pos 10) normal.max_restarts ≡ true)
    × (normal.worker_id ≡ spec.worker_id)
    × (normal.source ≡ spec.source)
    × (normal.sink ≡ spec.sink)

name_shape :
    (spec a : Spec)
    → check_name spec ≡ ok a
    → ((a.name == "") ≡ false) × (byte_length a.name ≤ 160) × (a ≡ record spec { name = a.name })
unfolding check_name
name_shape spec a h = ground (arith, h)

dimension_shape :
    (spec a : Spec)
    → check_dimension spec ≡ ok a
    → (within (pos 1) (pos 65536) a.dimension ≡ true) × (a ≡ spec)
unfolding check_dimension
dimension_shape spec a h = ground (arith, h)

batch_shape :
    (spec a : Spec)
    → check_batch_size spec ≡ ok a
    → (within (pos 1) (pos 500) a.batch_size ≡ true)
      × (a ≡ record spec { batch_size = a.batch_size })
unfolding check_batch_size
batch_shape spec a h = ground (arith, h)

attempts_shape :
    (spec a : Spec)
    → check_max_attempts spec ≡ ok a
    → (within (pos 1) (pos 10) a.max_attempts ≡ true)
      × (a ≡ record spec { max_attempts = a.max_attempts })
unfolding check_max_attempts
attempts_shape spec a h = ground (arith, h)

restarts_shape :
    (spec a : Spec)
    → check_max_restarts spec ≡ ok a
    → (within (negsuc 0) (pos 10) a.max_restarts ≡ true)
      × (a ≡ record spec { max_restarts = a.max_restarts })
unfolding check_max_restarts
restarts_shape spec a h = ground (arith, h)

-- A step of a chain of results that ends in `ok` was `ok`.
pub bound_ok {ℓ κ} :
    {A : Type ℓ} {B : Type κ} (r : Result A) (f : A → Result B) (b : B)
    → (r >>= f) ≡ ok b
    → (a : A) × (r ≡ ok a) × (f a ≡ ok b)
bound_ok (ok a) f b h = (a, refl, h)
bound_ok (err e) f b h = cc

-- A spec that passes the limits of Submit has a nonempty name of at most 160 bytes, a dimension
-- from 1 to 65536, a batch size from 1 to 500, at most 10 attempts and 10 restarts, and the worker
-- and connections that were asked for.
pub normalize-IsNormal : (spec normal : Spec) → normalize spec ≡ ok normal → IsNormal spec normal
unfolding normalize
normalize-IsNormal spec normal h =
    let (d, before_d, last) = bound_ok _ check_max_restarts normal h in
    let (b, before_b, attempts) = bound_ok _ check_max_attempts d before_d in
    let (a, before_a, batch) = bound_ok _ check_batch_size b before_b in
    let (n, named, dimension) = bound_ok _ check_dimension a before_a in
    let s1 = name_shape spec n named in
    let s2 = dimension_shape n a dimension in
    let s3 = batch_shape a b batch in
    let s4 = attempts_shape b d attempts in
    let s5 = restarts_shape d normal last in ground (arith, s1, s2, s3, s4, s5)

-- Actions never touch what has been transferred, and a job's state changes only as follows: queued
-- and waiting jobs are canceled at once, running ones are asked to stop; failed, canceled and
-- waiting jobs are queued again. A job that succeeded takes no action.
pub action_transitions :
    (action : String) (j j' : Job)
    → action_change action j ≡ ok j'
    → (j'.id ≡ j.id)
      × (j'.cursor ≡ j.cursor)
      × (j'.records ≡ j.records)
      × (j'.batches ≡ j.batches)
      × (j.state ≢ succeeded)
      × (((action == "cancel") ≡ true)
            × ((((j.state ≡ queued) ⊎ (j.state ≡ retry_wait)) × (j'.state ≡ canceled))
                ⊎ (((j.state ≡ running) ⊎ (j.state ≡ cancel_requested))
                    × (j'.state ≡ cancel_requested)))
          ⊎ (((action == "resume") ≡ true)
              × (((j.state ≡ failed) ⊎ (j.state ≡ canceled) ⊎ (j.state ≡ retry_wait))
                  × (j'.state ≡ queued)
                  × (j'.restarts ≡ 0))))
unfolding action_change cancel_change resume_change
action_transitions action j j' h = ground (arith, h)
