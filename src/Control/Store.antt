-- ===== src/Control/Store.antt =====
-- The operations of the job store, control/store.go: Health, Create, Get, List, Update; Recover, Claim
-- and Events have modules of their own. Each is one critical section of the store's mutex.
pub mod Recovery
pub mod Claiming
pub mod Shape
pub mod Keyed
pub mod Tracks
pub mod Recovered
pub mod Claims
pub mod Events
use vector_transfer.Base.{
  ℕ, zero, suc, ◌+◌, ◌-◌, ◌*◌, ◌/◌, ◌%◌, ◌^◌, ◌≤◌, ◌<◌, min, max, String, ◌≡◌, refl, sym, ap, ◌∙◌,
  subst, ◌≢◌, ◌↔◌, ◌⊎◌, inl, inr, Bool, true, false, not, ◌&&◌, ◌||◌, Option, none, some, List, [],
  ◌∷◌, ◌++◌, append-nil, append_assoc, arith, ◌==◌, eq_iff, ltb, leb, eqb, if◌then◌else◌, ltb→lt,
  ltb→le, leb→le, leb→lt, tests, Bool-cases, Option-cases, is_some, is_none, &&-eq_true, ||-eq_true,
  length, take, drop, any, all, count, All, In, length-append, take-append-drop, length-take-le,
  length-drop, any-In, all-In, ◌!=◌, ◌<>◌, byte_length, ==_refl, ==_sound, String-discrete, decimal,
  decimal_ℤ, ℤ, pos, negsuc, pos_part, neg_part, ltb_ℤ, eqb_ℤ, ◌≤ℤ◌, eqb_ℤ_sound, any-false,
  false-any, All-map, take-all, take-append_left, any-take,
}
use vector_transfer.Base.Result.{
  Error, not_found, conflict, forbidden, unavailable, unauthorized, canceled_context,
  journal_failed, vault_unavailable, workers_unavailable, message, Result, ok, err, ◌>>=◌, is_ok,
}
use vector_transfer.Base.Dict.{
  Dict, lookup, insert, delete, values, lookup-insert, lookup-delete, lookup-In, dict_laws,
}
use vector_transfer.Control.Job.{
  Job, State, queued, running, canceled, unset, starting, Owner, Spec, is_queued, is_retry_wait,
  is_cancel_requested, is_active, is_due, same_owner, same_spec,
}
use vector_transfer.Control.Journal.{Event, Entry, Codec, Store, Io, append}

abbrev pub zero_spec : Spec
zero_spec = record {
  worker_id = "";
  name = "";
  source = "";
  sink = "";
  dimension = pos 0;
  batch_size = pos 0;
  max_attempts = pos 0;
  max_restarts = pos 0;
}

-- `Job{}`.
abbrev pub zero_job : Job
zero_job = record {
  lease_id = "";
  lease_until = none;
  generation = 0;
  report_sequence = 0;
  owner = none;
  phase = unset;
  restarts = 0;
  next_run_at = none;
  last_checkpoint_at = none;
  id = "";
  spec = zero_spec;
  state = queued;
  created_at = 0;
  updated_at = 0;
  created_by = "";
  records = 0;
  batches = 0;
  retries = 0;
  runs = 0;
  cursor = "";
  source_exhausted = false;
  error = "";
  source_fingerprint = "";
  sink_fingerprint = "";
  sink_resource = "";
  idempotency_key = "";
}

-- `s.jobs[id]`, which is `Job{}` for an unknown ID.
abbrev pub job_at : String → Dict Job → Job
job_at id jobs = elim (lookup id jobs) [ none ↦ zero_job | some j ↦ j ]

-- `Health`.
unfoldable pub health : Store → Option Error
health s = s.poison

-- `if err := s.append(...); err != nil { return Job{}, err }; return s.jobs[id], nil`.
unfoldable pub then_job_at : String → Result (Unit {0}) × Store → Result Job × Store
then_job_at id (ok _, s) = (ok (job_at id s.jobs), s)
then_job_at id (err e, s) = (err e, s)

-- The same, with a flag beside the job.
unfoldable pub with_flag : Bool → Result Job × Store → Result (Job × Bool) × Store
with_flag flag (ok j, s) = (ok (j, flag), s)
with_flag flag (err e, s) = (err e, s)

-- The search of `Create` for an earlier submission.
unfoldable pub find_key : String → Option Owner → List Job → Option Job
find_key key owner [] = none
find_key key owner (j ∷ rest) =
    if j.idempotency_key == key && same_owner j.owner owner then some j else find_key key owner rest

unfoldable pub new_job :
    ℕ → String → Spec → String → String → String → String → String → Option Owner → Job
new_job now id spec source_fp sink_fp resource key actor owner = record zero_job {
  owner = owner;
  id = id;
  spec = spec;
  state = queued;
  created_at = now;
  created_by = actor;
  source_fingerprint = source_fp;
  sink_fingerprint = sink_fp;
  sink_resource = resource;
  idempotency_key = key;
}

-- What `Create` answers to a key that it knows.
unfoldable pub replay_submission : Spec → String → String → Job → Result (Job × Bool)
replay_submission spec source_fp sink_fp j =
    if not (same_spec j.spec spec)
      || j.source_fingerprint != source_fp
      || j.sink_fingerprint != sink_fp
    then err conflict
    else ok (j, false)

-- `Create`. `id` is the random ID in hexadecimal, `none` where reading random bytes fails.
unfoldable pub create :
    Codec
    → Io
    → Option String
    → Spec
    → String
    → String
    → String
    → String
    → String
    → Option Owner
    → Store
    → Result (Job × Bool) × Store
unfolding then_job_at with_flag find_key new_job replay_submission
create c io id spec source_fp sink_fp resource key actor owner s =
    let known : Option Job = if key != "" then find_key key owner (values s.jobs) else none in
    elim s.poison [
      | some failure ↦ (err failure, s)
      | none ↦ elim known [
        | some j ↦ (replay_submission spec source_fp sink_fp j, s)
        | none ↦ elim id [
          | none ↦ (err (message "random source failed"), s)
          | some i ↦
              let j = new_job io.now i spec source_fp sink_fp resource key actor owner in
              with_flag true (then_job_at i (append c io j "submitted" actor "Job submitted" "" s))
        ]
      ]
    ]

-- `Get`.
unfoldable pub get : String → Store → Result Job
get id s = elim (lookup id s.jobs) [ none ↦ err not_found | some j ↦ ok j ]

-- `List`: newest first.
unfoldable pub insert_newest : Job → List Job → List Job
insert_newest j [] = j ∷ []
insert_newest j (k ∷ rest) =
    if ltb j.created_at k.created_at then k ∷ insert_newest j rest else j ∷ k ∷ rest

unfoldable pub sort_newest : List Job → List Job
unfolding insert_newest
sort_newest [] = []
sort_newest (j ∷ rest) = insert_newest j (sort_newest rest)

unfoldable pub list : Store → List Job
unfolding sort_newest
list s = sort_newest (values s.jobs)

-- What `Update` does with the job that its function gave back.
unfoldable pub append_changed :
    Codec
    → Io
    → String
    → String
    → String
    → String
    → String
    → Result Job
    → Store
    → Result Job × Store
unfolding then_job_at
append_changed c io id kind actor text batch (err e) s = (err e, s)
append_changed c io id kind actor text batch (ok j) s =
    then_job_at id (append c io j kind actor text batch s)

-- `Update`.
unfoldable pub update :
    Codec
    → Io
    → String
    → String
    → String
    → String
    → String
    → (Job → Result Job)
    → Store
    → Result Job × Store
unfolding append_changed
update c io id kind actor text batch fn s = elim (lookup id s.jobs) [
  | none ↦ (err not_found, s)
  | some j ↦ append_changed c io id kind actor text batch (fn j) s
]
