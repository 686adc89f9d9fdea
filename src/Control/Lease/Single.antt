-- ===== src/Control/Lease/Single.antt =====
-- What ClaimWorker does while a worker holds a lease.
use vector_transfer.Base.{
  ℕ, String, ◌≡◌, inl, inr, true, ◌&&◌, none, List, [], ◌∷◌, arith, Bool-cases, In,
}
use vector_transfer.Base.Result.{ok}
use vector_transfer.Base.Dict.{values}
use vector_transfer.Control.Job.{Job}
use vector_transfer.Control.Journal.{Codec, Store, Io}
use vector_transfer.Control.Workers.{Worker}
use vector_transfer.Control.Store.{zero_job}
use vector_transfer.Control.Lease.{claim_worker, pick_leasable, belongs_to, is_leased}

held :
    (w : Worker) (now : ℕ) (k : Job) (js : List Job)
    → In k js
    → belongs_to w k ≡ true
    → is_leased now k ≡ true
    → (picked : Job) → pick_leasable w now picked js ≡ none
unfolding pick_leasable
held w now k [] i mine active picked = absurd (i tt)
held w now k (j ∷ rest) (inl e) mine active picked = ground (arith, e, mine, active)
held w now k (j ∷ rest) (inr i) mine active picked =
    elim (Bool-cases (belongs_to w j && is_leased now j)) [
      | inl here ↦ ground (arith, here)
      | inr other ↦ rw (other, pick_leasable) (held w now k rest i mine active _)
    ]

-- While a job of the worker has a lease that has not run out, ClaimWorker gives the worker nothing
-- and leaves the store as it was, whichever jobs are waiting.
pub claim_worker_held :
    (c : Codec) (io : Io) (lease : String) (w : Worker) (s : Store) (k : Job)
    → s.poison ≡ none
    → In k (values s.jobs)
    → belongs_to w k ≡ true
    → is_leased io.now k ≡ true
    → claim_worker c io lease w s ≡ (ok none, s)
unfolding claim_worker
claim_worker_held c io lease w s k well i mine active =
    ground (arith, well, held w io.now k (values s.jobs) i mine active zero_job)
