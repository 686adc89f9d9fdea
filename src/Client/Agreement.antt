-- ===== src/Client/Agreement.antt =====
-- What a customer worker and the control plane agree on: sessions, and the policy for jobs.
use vector_transfer.Base.{
  String, ◌≡◌, ap, ◌≢◌, inl, inr, true, some, arith, eq_iff, Bool-cases, Option-cases, is_some,
}
use vector_transfer.Base.Result.{ok, Result-cases}
use vector_transfer.Base.Dict.{Dict, values}
use vector_transfer.Connector.{Binding}
use vector_transfer.Control.Job.{Job}
use vector_transfer.Control.Journal.{Codec, Store, Io}
use vector_transfer.Control.Store.{zero_job, health}
use vector_transfer.Control.Workers.{Worker}
use vector_transfer.Control.Workers.Manifest.{approved_connections}
use vector_transfer.Control.Lease.{
  WorkerAssignment, claim_worker, lease_job, pick_leasable, still_approved,
}
use vector_transfer.Control.Lease.Prepare.{prepare_worker_job}
use vector_transfer.Control.Connections.{binding_at}
use vector_transfer.Client.{Client}
use vector_transfer.Client.Run.{
  Start, rejects, returns, runs, valid_assignment, policy_allows, begin_execute, start_job,
}

lease_shape :
    (c : Codec) (io : Io) (lease : String) (w : Worker) (j : Job) (s : Store) (a : WorkerAssignment)
    → (lease_job c io lease w j s).0 ≡ ok (some a)
    → (still_approved w j ≡ true)
      × (a.spec ≡ j.spec)
      × (a.source_fingerprint ≡ j.source_fingerprint)
      × (a.sink_fingerprint ≡ j.sink_fingerprint)
unfolding lease_job
lease_shape c io lease w j s a h = ground (arith, h)

lease_allowed :
    (c : Codec) (io : Io) (lease : String) (w : Worker) (j : Job) (s : Store) (a : WorkerAssignment)
    → (lease_job c io lease w j s).0 ≡ ok (some a)
    → (policy_allows w.manifest a ≡ true)
unfolding still_approved policy_allows approved_connections
lease_allowed c io lease w j s a h =
    let (approved, specs, sources, sinks) = lease_shape c io lease w j s a h in
    rw (specs, sources, sinks) approved

claimed_allowed :
    (c : Codec) (io : Io) (lease : String) (w : Worker) (s : Store) (a : WorkerAssignment)
    → (claim_worker c io lease w s).0 ≡ ok (some a)
    → policy_allows w.manifest a ≡ true
unfolding claim_worker
claimed_allowed c io lease w s a h = elim (Option-cases s.poison) [
  | inr (e, poisoned) ↦ cc (rw (claim_worker, poisoned) at h)
  | inl sound ↦ elim (Option-cases (pick_leasable w io.now zero_job (values s.jobs))) [
    | inl held ↦ absurd (ground (arith, sound, held, h))
    | inr (j, picked) ↦ lease_allowed c io lease w j s a (rw (claim_worker, sound, picked) at h)
  ]
]

start-rejects :
    (c : Codec) (io : Io) (a : WorkerAssignment) (j : Job) (s : Store) (code : String)
    → (start_job c io a j s).0 ≢ rejects code
unfolding start_job
start-rejects c io a j s code h = ground (arith, h)

missing_differs : rejects "checkpoint_missing" ≢ rejects "policy"
missing_differs h = cc ((eq_iff "checkpoint_missing" "policy").1 (ap code_of h))
  where
    code_of : Start → String
    code_of (returns e) = ""
    code_of (rejects code) = code
    code_of (runs j started) = ""

-- A worker never rejects for policy a job that the control plane has leased to it by the manifest that
-- it runs with: the two policy tests agree.
pub leased_not_rejected :
    (c c' : Codec) (io io' io'' : Io) (lease : String) (w : Worker) (s local : Store)
    (a : WorkerAssignment) (client : Client) (registry : Dict Binding)
    → (claim_worker c io lease w s).0 ≡ ok (some a)
    → (begin_execute c' io' io'' client w.manifest registry a local).0 ≢ rejects "policy"
unfolding begin_execute
leased_not_rejected c c' io io' io'' lease w s local a client registry h =
    let allowed = claimed_allowed c io lease w s a h in
    let source = binding_at a.spec.source registry in
    let sink = binding_at a.spec.sink registry in
    let (prepared, local') =
      prepare_worker_job c' io' a source.fingerprint sink.fingerprint sink.resource local in
    λ rejected. elim (Bool-cases (valid_assignment a client.identity.id)) [
      | inr invalid ↦ cc (rw (begin_execute, invalid) at rejected)
      | inl valid ↦ elim (Result-cases prepared) [
        | inl (j, known) ↦
            start-rejects c' io'' a j local' "policy"
              (rw (begin_execute, valid, allowed, known) at rejected)
        | inr (e, lost) ↦ elim (Bool-cases (is_some (health local'))) [
          | inl broken ↦ cc (rw (begin_execute, valid, allowed, lost, broken) at rejected)
          | inr sound ↦
              missing_differs (rw (begin_execute, valid, allowed, lost, sound) at rejected)
        ]
      ]
    ]
