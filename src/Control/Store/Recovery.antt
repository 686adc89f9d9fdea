-- ===== src/Control/Store/Recovery.antt =====
-- Recover of control/store.go: the jobs that a restart has interrupted.
use vector_transfer.Base.{
  ℕ, ◌+◌, String, Bool, true, false, ◌&&◌, List, [], ◌∷◌, ◌==◌, if◌then◌else◌,
}
use vector_transfer.Base.Result.{Result, ok, err}
use vector_transfer.Control.Job.{Job, queued, canceled, is_cancel_requested, is_active}
use vector_transfer.Control.Journal.{Codec, Store, Io}
use vector_transfer.Control.Store.{list, update}

-- The function that `Recover` passes to `Update`.
unfoldable pub recovered : Job → Job
recovered j =
    if is_cancel_requested j.state
    then record j { state = canceled }
    else record j { state = queued }

-- `j.Spec.WorkerID == "" && (j.State == "running" || j.State == "cancel_requested")`.
abbrev pub is_hosted_active : Job → Bool
is_hosted_active j = j.spec.worker_id == "" && is_active j.state

abbrev pub recovery_text : String
recovery_text = "Recovered interrupted job from its last acknowledged checkpoint"

-- The loop of `Recover`. Its n-th update meets the system as `ios n`.
unfoldable pub recover_loop : Codec → (ℕ → Io) → ℕ → List Job → Store → Result (Unit {0}) × Store
unfolding recovered
recover_loop c ios n [] s = (ok tt, s)
recover_loop c ios n (j ∷ rest) s = elim (is_hosted_active j) [
  | false ↦ recover_loop c ios n rest s
  | true ↦
      let (r, s') =
        update c (ios n) j.id "recovered" "worker" recovery_text "" (λ x. ok (recovered x)) s in
      elim r [ err e ↦ (err e, s') | ok _ ↦ recover_loop c ios (n + 1) rest s' ]
]

unfoldable pub recover : Codec → (ℕ → Io) → Store → Result (Unit {0}) × Store
unfolding recover_loop list
recover c ios s = recover_loop c ios 0 (list s) s
