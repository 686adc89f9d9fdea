-- ===== src/Control/Store/Shape.antt =====
-- How each operation changes the store.
use vector_transfer.Base.{
  String, ◌≡◌, refl, ◌⊎◌, inl, inr, Bool, true, false, Option, none, some, arith, ◌==◌,
  Option-cases,
}
use vector_transfer.Base.Result.{Result, ok, err}
use vector_transfer.Base.Dict.{lookup, values}
use vector_transfer.Control.Job.{Job, Spec, Owner}
use vector_transfer.Control.Journal.{Codec, Store, Io, append}
use vector_transfer.Control.Store.{
  then_job_at, with_flag, update, append_changed, create, new_job, zero_job,
}
use vector_transfer.Control.Store.Claiming.{claim, started, is_claimable, pick_oldest}

pub then_job_at_store : (i : String) (r : Result (Unit {0}) × Store) → (then_job_at i r).1 ≡ r.1
unfolding then_job_at
then_job_at_store i (ok _, s) = refl
then_job_at_store i (err e, s) = refl

pub with_flag_store : (b : Bool) (r : Result Job × Store) → (with_flag b r).1 ≡ r.1
unfolding with_flag
with_flag_store b (ok _, s) = refl
with_flag_store b (err e, s) = refl

module _ (c : Codec) (io : Io) (s : Store) where
  abbrev pub Updated :
      String → String → String → String → String → (Job → Result Job) → Store → Type 0
  Updated i kind actor text batch fn s' =
      (s' ≡ s)
      ⊎ ((j : Job) × (j' : Job) × (lookup i s.jobs ≡ some j)
          × (fn j ≡ ok j')
          × (s' ≡ (append c io j' kind actor text batch s).1))

  pub update_shape :
      (i kind actor text batch : String) (fn : Job → Result Job)
      → Updated i kind actor text batch fn (update c io i kind actor text batch fn s).1
  unfolding update append_changed
  update_shape i kind actor text batch fn = elim (Option-cases (lookup i s.jobs)) [
    | inl e ↦ rw (e, update) (inl refl)
    | inr (j, found) ↦ by_change j found (fn j) refl
  ]
    where
      by_change :
          (j : Job)
          → lookup i s.jobs ≡ some j
          → (r : Result Job) → fn j ≡ r
          → Updated i kind actor text batch fn (update c io i kind actor text batch fn s).1
      by_change j found (err e) changed = inl (ground (arith, found, changed))
      by_change j found (ok j') changed = inr (
        j,
        j',
        found,
        changed,
        ground
            (arith, found, changed, then_job_at_store i (append c io j' kind actor text batch s)),
      )

  pub create_shape :
      (i : Option String) (spec : Spec) (source_fp sink_fp resource key actor : String)
      (owner : Option Owner)
      → let s' = (create c io i spec source_fp sink_fp resource key actor owner s).1 in
        (s' ≡ s)
        ⊎ ((id : String) × (i ≡ some id)
            × (s'
                ≡ (append c io
                    (new_job io.now id spec source_fp sink_fp resource key actor owner)
                    "submitted"
                    actor
                    "Job submitted"
                    ""
                    s).1))
  unfolding create
  create_shape none spec source_fp sink_fp resource key actor owner = inl (ground arith)
  create_shape (some id) spec source_fp sink_fp resource key actor owner =
      let r =
        append c io (new_job io.now id spec source_fp sink_fp resource key actor owner) "submitted"
          actor "Job submitted" "" s in
      ground (arith, then_job_at_store id r, with_flag_store true (then_job_at id r))

  abbrev pub picked : Job
  picked = pick_oldest (is_claimable io.now (values s.jobs)) zero_job (values s.jobs)

  pub claim_shape :
      ((claim c io s).1 ≡ s)
      ⊎ (((picked.id == "") ≡ false)
          × ((claim c io s).1
              ≡ (append c io
                  (started picked)
                  "started"
                  "worker"
                  "Transfer execution started"
                  ""
                  s).1))
  unfolding claim
  claim_shape =
      let r = append c io (started picked) "started" "worker" "Transfer execution started" "" s in
      ground (arith, then_job_at_store picked.id r, with_flag_store true (then_job_at picked.id r))
