-- ===== src/Control/Store/Tracks.antt =====
-- What stays true of one job, whatever happens to the others.
use vector_transfer.Base.{
  ℕ, String, ◌≡◌, refl, sym, ap, ◌∙◌, subst, ◌≢◌, inl, inr, false, Option, some, ◌==◌, Bool-cases,
  ==_sound,
}
use vector_transfer.Base.Result.{Result, ok}
use vector_transfer.Base.Dict.{lookup, values, lookup-insert}
use vector_transfer.Control.Job.{Job, Spec, Owner}
use vector_transfer.Control.Journal.{Codec, Store, Io, append}
use vector_transfer.Control.Journal.Changes.{append_lem}
use vector_transfer.Control.Store.{update, create, new_job, zero_job}
use vector_transfer.Control.Store.Claiming.{claim, started, is_claimable}
use vector_transfer.Control.Store.Shape.{update_shape, create_shape, claim_shape, picked}
use vector_transfer.Control.Store.Keyed.{
  IsKeyed, IsKeyed-lookup, IsKeyed-In, append-IsKeyed, pick_oldest-In,
}

-- The store holds a job under `id`, and it satisfies `P`.
pub record Tracks (id : String) (P : Job → Type 0) (s : Store) : Type 0 where
  pub keyed : IsKeyed s.jobs
  pub job : Job
  pub at : lookup id s.jobs ≡ some job
  pub holds : P job

-- A change of a job that leaves its ID alone and keeps `P`, also when the job is stamped.
pub record Respects (P : Job → Type 0) (fn : Job → Result Job) : Type 0 where
  pub same_id : (j j' : Job) → fn j ≡ ok j' → j'.id ≡ j.id
  pub keeps : (now : ℕ) (j j' : Job) → P j → fn j ≡ ok j' → P (record j' { updated_at = now })

module _ {id : String} {P : Job → Type 0} where
  pub append-Tracks :
      (c : Codec) (io : Io) (j : Job) (kind actor text batch : String) (s : Store)
      → Tracks id P s
      → (j.id ≡ id → P (record j { updated_at = io.now }))
      → Tracks id P (append c io j kind actor text batch s).1
  append-Tracks c io j kind actor text batch s t p =
      let keyed = append-IsKeyed c io j kind actor text batch s t.keyed in
      elim (append_lem c io j kind actor text batch s) [
        | inr (e, failed, jobs) ↦ record {
          keyed = keyed;
          job = t.job;
          at = rw jobs t.at;
          holds = t.holds;
        }
        | inl (done, jobs, poison, clean) ↦ elim (Bool-cases (j.id == id)) [
          | inl same ↦ record {
            keyed = keyed;
            job = record j { updated_at = io.now };
            at = rw jobs (lookup-insert id j.id _ s.jobs ∙ rw same refl);
            holds = p (==_sound j.id id same);
          }
          | inr other ↦ record {
            keyed = keyed;
            job = t.job;
            at = rw jobs (lookup-insert id j.id _ s.jobs ∙ rw other t.at);
            holds = t.holds;
          }
        ]
      ]

module _ {id : String} {P : Job → Type 0} where
  -- An update takes `P` to `R`, if its function does and `P` says more than `R`.
  pub update-turns :
      {R : Job → Type 0} (c : Codec) (io : Io) (i kind actor text batch : String)
      (fn : Job → Result Job) (s : Store)
      → ((j : Job) → P j → R j)
      → ((j j' : Job) → fn j ≡ ok j' → j'.id ≡ j.id)
      → ((now : ℕ) (j j' : Job) → P j → fn j ≡ ok j' → R (record j' { updated_at = now }))
      → Tracks id P s
      → Tracks id R (update c io i kind actor text batch fn s).1
  update-turns {R} c io i kind actor text batch fn s weaken same_id turns t =
      elim (update_shape c io s i kind actor text batch fn) [
        | inl same ↦ subst (Tracks id R) (sym same) weak
        | inr (j, j', found, changed, shape) ↦ subst (Tracks id R) (sym shape) (
            append-Tracks c io j' kind actor text batch s weak (λ same.
              turns io.now j j' (subst P (tracked i j j' found (same_id j j' changed) same) t.holds)
                changed))
      ]
    where
      weak : Tracks id R s
      weak = record { keyed = t.keyed; job = t.job; at = t.at; holds = weaken t.job t.holds }

      tracked :
          (i : String) (j j' : Job)
          → lookup i s.jobs ≡ some j
          → j'.id ≡ j.id
          → j'.id ≡ id
          → t.job ≡ j
      tracked i j j' found kept same =
          let i_id : i ≡ id = sym (IsKeyed-lookup s.jobs i j t.keyed found) ∙ sym kept ∙ same in
          let at_id : lookup id s.jobs ≡ some j =
            subst (λ k. lookup k s.jobs ≡ some j) i_id found in
          cc (t.at, at_id)

  -- An update keeps what its function keeps.
  pub update-Tracks :
      (c : Codec) (io : Io) (i kind actor text batch : String) (fn : Job → Result Job) (s : Store)
      → Respects P fn
      → Tracks id P s
      → Tracks id P (update c io i kind actor text batch fn s).1
  update-Tracks c io i kind actor text batch fn s f t =
      update-turns c io i kind actor text batch fn s (λ j h. h) f.same_id f.keeps t

  -- A new job does not touch the others, if its ID is new.
  pub create-Tracks :
      (c : Codec) (io : Io) (i : Option String) (spec : Spec)
      (source_fp sink_fp resource key actor : String) (owner : Option Owner) (s : Store)
      → i ≢ some id
      → Tracks id P s
      → Tracks id P (create c io i spec source_fp sink_fp resource key actor owner s).1
  unfolding new_job
  create-Tracks c io i spec source_fp sink_fp resource key actor owner s new t =
      elim (create_shape c io s i spec source_fp sink_fp resource key actor owner) [
        | inl same ↦ subst (Tracks id P) (sym same) t
        | inr (k, drawn, shape) ↦ subst (Tracks id P) (sym shape) (
            append-Tracks c io (new_job io.now k spec source_fp sink_fp resource key actor owner)
              "submitted" actor "Job submitted" "" s t
              (λ same. absurd (new (drawn ∙ ap some same))))
      ]

  -- A claim starts a job, this one or another.
  pub claim-Tracks :
      (c : Codec) (io : Io) (s : Store)
      → Respects P (λ j. ok (started j))
      → Tracks id P s
      → Tracks id P (claim c io s).1
  claim-Tracks c io s f t = elim (claim_shape c io s) [
    | inl same ↦ subst (Tracks id P) (sym same) t
    | inr (named, shape) ↦ subst (Tracks id P) (sym shape) (
        append-Tracks c io (started j) "started" "worker" "Transfer execution started" "" s t
          (λ same. f.keeps io.now j (started j) (subst P (tracked named same) t.holds) refl))
  ]
    where
      j : Job
      j = picked c io s

      tracked : (j.id == "") ≡ false → (started j).id ≡ id → t.job ≡ j
      tracked named same =
          let j_id : j.id ≡ id = sym (f.same_id j (started j) refl) ∙ same in
          elim (pick_oldest-In (is_claimable io.now (values s.jobs)) zero_job (values s.jobs)) [
            | inl none_met ↦ cc
            | inr (i, good) ↦
                let at_id : lookup id s.jobs ≡ some j =
                  subst (λ k. lookup k s.jobs ≡ some j) j_id (IsKeyed-In s.jobs j t.keyed i) in
                cc (t.at, at_id)
          ]
