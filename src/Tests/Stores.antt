-- ===== src/Tests/Stores.antt =====
-- The journal and the job store.
use vector_transfer.Base.{
  ℕ, ◌≤◌, ◌≡◌, refl, ◌⊎◌, true, false, ◌&&◌, ◌||◌, some, [], ◌∷◌, ◌==◌, length, All, pos, ltb_ℤ,
}
use vector_transfer.Base.Result.{ok}
use vector_transfer.Base.Dict.{lookup, insert}
use vector_transfer.Durable.{Calls, whole, replaced, write, write_atomic}
use vector_transfer.Control.Job.{Job, is_active, is_queued, is_retry_wait, is_due}
use vector_transfer.Control.Journal.{Store, Io, broken, append, replay, build_entry}
use vector_transfer.Control.Journal.Accept.{IsJournal, start, grow}
use vector_transfer.Control.Journal.Recovery.{append_crash}
use vector_transfer.Control.Store.Claiming.{claim, started}
use vector_transfer.Control.Store.Claims.{claim_eligible}
use vector_transfer.Control.Store.Events.{events, events_bounded}
use vector_transfer.Tests.Data.{
  second_job, one_entry, first_accepted, job, store_of, quiet, blank_codec, known_codec,
  known_codec-IsCodec, first_event,
}

-- The write breaks after the first byte.
abbrev crash : Io
crash = record { now = 5; write = broken 1 }

append_crash_example :
    let r =
      append known_codec crash second_job "submitted" "operator" "Job submitted" "" one_entry in
    let full =
      append known_codec quiet second_job "submitted" "operator" "Job submitted" "" one_entry in
    (t : Store) × (replay known_codec true r.1.file ≡ ok t)
    × IsJournal known_codec t
    × ((t ≡ one_entry) ⊎ (t ≡ full.1))
    × (r.0 ≡ ok tt → t ≡ r.1)
unfolding build_entry
append_crash_example =
    append_crash known_codec-IsCodec crash second_job "submitted" "operator" "Job submitted" ""
      one_entry (grow (1 ∷ []) (start refl) refl first_accepted) refl

abbrev claimed_job : Job
claimed_job = record (started job) { updated_at = 5 }

claim_eligible_example :
    (j : Job) × (lookup j.id (store_of job).jobs ≡ some j)
    × ((j.spec.worker_id == "") ≡ true)
    × ((is_queued j.state || (is_retry_wait j.state && is_due j.next_run_at 5)) ≡ true)
    × All (λ k. (is_active k.state && k.sink_resource == j.sink_resource) ≡ false) (job ∷ [])
    × (claimed_job ≡ record (started j) { updated_at = 5 })
unfolding claim append lookup insert
claim_eligible_example =
    claim_eligible blank_codec quiet (store_of job) claimed_job (refl, refl, tt) refl

events_bounded_example :
    (length (first_event ∷ []) ≤ 1)
    × All (λ e. ltb_ℤ (pos 0) (pos e.sequence) ≡ true) (first_event ∷ [])
unfolding events lookup known_codec
events_bounded_example =
    events_bounded known_codec "job-1" (pos 0) 1 true
      (record (store_of job) { file = 1 ∷ 10 ∷ 1 ∷ 10 ∷ 1 ∷ []; sequence = 2 }) (first_event ∷ [])
      refl

abbrev old : ℕ
old = 1

abbrev new : ℕ
new = 2

-- The sync of the temporary file fails.
abbrev unsynced : Calls
unsynced = record {
  marshaled = true;
  directory_made = true;
  temp_created = true;
  temp_written = true;
  temp_synced = false;
  temp_closed = true;
  renamed = true;
  directory_opened = true;
  directory_synced = true;
}

write_atomic_example :
    (replaced unsynced new (whole old)
      ≡ ((write unsynced new old).0, whole (write unsynced new old).1))
    × (((replaced unsynced new (whole old)).1 ≡ whole old)
        ⊎ ((replaced unsynced new (whole old)).1 ≡ whole new))
    × ((replaced unsynced new (whole old)).0 ≡ ok tt
        → (replaced unsynced new (whole old)).1 ≡ whole new)
    × (unsynced.renamed ≡ false → (replaced unsynced new (whole old)).1 ≡ whole old)
write_atomic_example = write_atomic unsynced new old
