-- ===== src/Control/Lease/Changes.antt =====
-- The changes that the store's operations make to one job of a customer worker, in any order.
use vector_transfer.Base.{
  ℕ, ◌≤◌, String, ◌≡◌, ◌⊎◌, inl, inr, false, List, [], ◌∷◌, arith, ◌==◌, All,
}
use vector_transfer.Base.Result.{Result, ok, err}
use vector_transfer.Control.Job.{Job}
use vector_transfer.Control.Engine.Action.{action_change, cancel_change, resume_change}
use vector_transfer.Control.Workers.{Worker}
use vector_transfer.Control.Lease.{WorkerReport, leased, refused}
use vector_transfer.Control.Lease.Report.{Parsed, reported, report_change}

-- A report, an operator's action, a lease of ClaimWorker, and its refusal by the worker's policy.
pub data Change : Type 0 where
  reports : ℕ → Worker → WorkerReport → Parsed → Change
  acts : String → Change
  leases : ℕ → String → Change
  refuses : Change

-- `Update` keeps the job where the change fails.
updated : Job → Result Job → Job
updated j (ok j') = j'
updated j (err e) = j

unfoldable pub change : Change → Job → Job
unfolding updated
change (reports now w r p) j = updated j (report_change now w r p j)
change (acts action) j = updated j (action_change action j)
change (leases now lease) j = leased now lease j
change refuses j = refused j

unfoldable pub changes : List Change → Job → Job
changes [] j = j
changes (x ∷ xs) j = changes xs (change x j)

module _ (lease : String) (n : ℕ) where
  -- The job is not under the lease, or has had a report with this sequence number or a later one.
  abbrev pub IsSpent : Job → Type 0
  IsSpent j = ((j.lease_id == lease) ≡ false) ⊎ (n ≤ j.report_sequence)

  -- The change leases the job under no such ID.
  abbrev pub IsOther : Change → Type 0
  IsOther (leases now other) = (other == lease) ≡ false
  IsOther other = Unit

  module _ (named : ("" == lease) ≡ false) where
    reported-IsSpent :
        (now : ℕ) (w : Worker) (r : WorkerReport) (p : Parsed) (j : Job)
        → IsSpent j
        → IsSpent (updated j (report_change now w r p j))
    unfolding updated report_change reported
    reported-IsSpent now w r p j (inl free) = ground (arith, named, free)
    reported-IsSpent now w r p j (inr done) = ground (arith, named, done)

    acted-IsSpent :
        (action : String) (j : Job) → IsSpent j → IsSpent (updated j (action_change action j))
    unfolding updated action_change cancel_change resume_change
    acted-IsSpent action j (inl free) = ground (arith, named, free)
    acted-IsSpent action j (inr done) = ground (arith, named, done)

    change-IsSpent : (x : Change) (j : Job) → IsOther x → IsSpent j → IsSpent (change x j)
    unfolding change leased refused
    change-IsSpent (reports now w r p) j other h = reported-IsSpent now w r p j h
    change-IsSpent (acts action) j other h = acted-IsSpent action j h
    change-IsSpent (leases now other) j fresh h = inl fresh
    change-IsSpent refuses j other h = inl named

    pub changes-IsSpent :
        (xs : List Change) (j : Job) → All IsOther xs → IsSpent j → IsSpent (changes xs j)
    unfolding changes
    changes-IsSpent [] j others h = h
    changes-IsSpent (x ∷ xs) j others h =
        changes-IsSpent xs (change x j) others.1 (change-IsSpent x j others.0 h)
