-- ===== src/Control/Lease/Fencing.antt =====
-- Accepted reports and their sequence numbers.
use vector_transfer.Base.{
  ℕ, ◌+◌, ◌≤◌, ◌<◌, ◌≡◌, refl, ap, ◌∙◌, ◌⊎◌, inl, inr, true, false, none, some, List, arith, ◌==◌,
  eq_iff, if◌then◌else◌, All, ==_sound, pos_part,
}
use vector_transfer.Base.Result.{ok}
use vector_transfer.Control.Job.{
  Job, State, cancel_requested, canceled, is_active, is_ahead, is_cancel_requested,
}
use vector_transfer.Control.Workers.{Worker}
use vector_transfer.Control.Lease.Changes.{Change, changes, IsOther, changes-IsSpent}
use vector_transfer.Control.Lease.{WorkerReport, lease_duration, belongs_to}
use vector_transfer.Control.Lease.Report.{Parsed, reported, report_change, canceled_state}

-- The tests that an accepted report has passed.
abbrev Passed : ℕ → Worker → WorkerReport → Job → Type 0
Passed now w r j =
    (belongs_to w j ≡ true)
    × ((j.lease_id == r.lease_id) ≡ true)
    × (is_ahead j.lease_until now ≡ true)
    × (j.report_sequence < pos_part r.sequence)
    × (is_active j.state ≡ true)
    × (j.records ≤ pos_part r.records)
    × (j.batches ≤ pos_part r.batches)
    × (j.records < pos_part r.records → r.checkpoint ≡ true)

report-Passed :
    (now : ℕ) (w : Worker) (r : WorkerReport) (p : Parsed) (j j' : Job)
    → report_change now w r p j ≡ ok j'
    → Passed now w r j × (j' ≡ reported now r p j)
unfolding report_change
report-Passed now w r p j j' h = ground arith

module _ (now : ℕ) (w : Worker) (r : WorkerReport) (p : Parsed) (j : Job) where
  reported_state :
      let j' = reported now r p j in
      (is_cancel_requested j.state ≡ true → (j'.state ≡ cancel_requested) ⊎ (j'.state ≡ canceled))
      × (is_active j'.state ≡ true
          → (j'.lease_id ≡ j.lease_id) × (j'.lease_until ≡ some (now + lease_duration)))
      × (is_active j'.state ≡ false → (j'.lease_id ≡ "") × (j'.lease_until ≡ none))
  unfolding reported
  reported_state = (λ h. cancels j.state p.state h, λ h. rw h (refl, refl), λ h. rw h (refl, refl))
    where
      cancels :
          (old new : State)
          → is_cancel_requested old ≡ true
          → let s = if is_cancel_requested old then canceled_state new else new in
            (s ≡ cancel_requested) ⊎ (s ≡ canceled)
      cancels old new h = ground arith

  reported_checkpoint :
      j.records < pos_part r.records
      → r.checkpoint ≡ true
      → (reported now r p j).last_checkpoint_at ≡ some now
  unfolding reported
  reported_checkpoint h k = ground arith

  -- A report that is accepted comes from the worker that the job belongs to and names its lease,
  -- which has not run out. It raises the sequence number, lowers neither records nor batches, and
  -- sets the checkpoint time where it raises the records. A requested cancellation stays requested
  -- or becomes final. The lease is renewed where the job stays active and given up where it does not.
  pub report_accepted :
      (j' : Job)
      → report_change now w r p j ≡ ok j'
      → (belongs_to w j ≡ true)
        × (j.lease_id ≡ r.lease_id)
        × (is_ahead j.lease_until now ≡ true)
        × (j.report_sequence < j'.report_sequence)
        × (j.records ≤ j'.records)
        × (j.batches ≤ j'.batches)
        × (j.records < j'.records → j'.last_checkpoint_at ≡ some now)
        × (is_cancel_requested j.state ≡ true
            → (j'.state ≡ cancel_requested) ⊎ (j'.state ≡ canceled))
        × (is_active j'.state ≡ true
            → (j'.lease_id ≡ j.lease_id) × (j'.lease_until ≡ some (now + lease_duration)))
        × (is_active j'.state ≡ false → (j'.lease_id ≡ "") × (j'.lease_until ≡ none))
  report_accepted j' h =
      let (t, e) = report-Passed now w r p j j' h in
      let states = reported_state in
      rw e (
        t.0,
        ==_sound j.lease_id r.lease_id t.1,
        t.2,
        unfold reported in t.3,
        unfold reported in t.5,
        unfold reported in t.6,
        λ more. reported_checkpoint (unfold reported in more) (t.7 (unfold reported in more)),
        states.0,
        states.1,
        states.2,
      )

  -- Under one lease a report counts once: after an accepted report that names a nonempty lease ID, and
  -- after any later changes of the job by reports, by the operator's actions, by refusals and by leases
  -- under other IDs, no report that names that lease with the same or a smaller sequence number is
  -- accepted, from whichever worker and at whatever time.
  pub report_once :
      (j' j'' : Job) (now' : ℕ) (w' : Worker) (r' : WorkerReport) (p' : Parsed) (xs : List Change)
      → report_change now w r p j ≡ ok j'
      → (r.lease_id == "") ≡ false
      → All (IsOther r.lease_id (pos_part r.sequence)) xs
      → r'.lease_id ≡ r.lease_id
      → pos_part r'.sequence ≤ pos_part r.sequence
      → ¬ (report_change now' w' r' p' (changes xs j') ≡ ok j'')
  report_once j' j'' now' w' r' p' xs h named others same le again =
      let (t, e) = report-Passed now w r p j j' h in
      let (t', e') = report-Passed now' w' r' p' (changes xs j') j'' again in
      let seq : j'.report_sequence ≡ pos_part r.sequence =
        ap (λ (x : Job). x.report_sequence) e ∙ (unfold reported in refl) in
      let filled : ("" == r.lease_id) ≡ false =
        ground (arith, named, eq_iff r.lease_id "", eq_iff "" r.lease_id) in
      let spent =
        changes-IsSpent r.lease_id (pos_part r.sequence) filled xs j' others
          (inr (omega (arith, seq))) in
      elim spent [ inl free ↦ cc (t'.1, free, same) | inr done ↦ omega (arith, t'.3, done) ]
