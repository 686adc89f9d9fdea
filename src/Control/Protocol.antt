-- ===== src/Control/Protocol.antt =====
-- The HTTP protocol of the customer workers, control/worker_api.go, and the statuses of errors, apiError
-- of control/api.go. A handler is given the request that `decode` has read.
use vector_transfer.Base.{
  ℕ, String, ◌⊎◌, inl, inr, Bool, true, false, Option, none, some, List, [], ◌∷◌, ◌==◌,
  if◌then◌else◌, is_none, ℤ, pos,
}
use vector_transfer.Base.Result.{
  Error, not_found, conflict, forbidden, unavailable, unauthorized, canceled_context,
  journal_failed, vault_unavailable, workers_unavailable, message, Result, ok, err, ◌>>=◌,
}
use vector_transfer.Durable.{Calls}
use vector_transfer.Account.{Reply, answered}
use vector_transfer.Control.Job.{is_cancel_requested}
use vector_transfer.Control.Journal.{Codec, Store, Io}
use vector_transfer.Control.Workers.{Workers, Worker, WorkerManifest, Crypto, enroll}
use vector_transfer.Control.Workers.Sessions.{issue_challenge, open_session, authenticate}
use vector_transfer.Control.Workers.Manifest.{publish, touch}
use vector_transfer.Control.Lease.{WorkerReport, WorkerAssignment, claim_worker}
use vector_transfer.Control.Lease.Report.{report_worker}

-- `apiError`. A journal's error is the one whose text contains "journal".
unfoldable pub error_status : Error → ℕ
error_status forbidden = 403
error_status not_found = 404
error_status conflict = 409
error_status workers_unavailable = 503
error_status vault_unavailable = 503
error_status journal_failed = 503
error_status unavailable = 400
error_status unauthorized = 400
error_status canceled_context = 400
error_status (message text) = 400

-- What a client gets of a result, through `apiError` or `respond(w, 200, …)`.
unfoldable pub answer {ℓ} : {A : Type ℓ} → Result A → Reply A
unfolding error_status
answer (ok a) = answered 200 (some a)
answer (err e) = answered (error_status e) none

-- The answer of POST /worker/v1/session.
pub record SessionReply : Type 0 where
  pub token : String
  pub expires_in : ℤ

-- POST /worker/v1/enroll.
unfoldable pub post_enroll :
    Crypto → Calls → ℕ → String → String → String → Workers → Reply Bool × Workers
post_enroll x calls now id token key w =
    let (r, w') = enroll x calls now id token key w in (answer (r >>= λ done. ok true), w')

-- POST /worker/v1/challenge.
unfoldable pub post_challenge : ℕ → String → String → Workers → Reply String × Workers
post_challenge now challenge id w =
    let (r, w') = issue_challenge now challenge id w in (answer r, w')

-- POST /worker/v1/session.
unfoldable pub post_session :
    Crypto → ℕ → String → String → String → String → Workers → Reply SessionReply × Workers
post_session x now token id challenge signature w =
    let (r, w') = open_session x now token id challenge signature w in
    (answer (r >>= λ t. ok (record { token = t; expires_in = pos 600 })), w')

-- The realm test of `auth`.
unfoldable pub serves_realm : String → Worker → Bool
serves_realm realm worker =
    if realm == ""
    then is_none worker.owner
    else elim worker.owner [ none ↦ false | some o ↦ o.realm == realm ]

-- `auth`: the worker of a request, or the status that it is refused with.
unfoldable pub caller : Crypto → String → ℕ → String → Workers → Worker ⊎ ℕ
unfolding serves_realm
caller x realm now token w = elim (authenticate x now token w) [
  | err e ↦ inr 401
  | ok worker ↦ if serves_realm realm worker then inl worker else inr (error_status forbidden)
]

-- POST /worker/v1/manifest.
unfoldable pub post_manifest :
    Crypto → Calls → String → ℕ → String → WorkerManifest → Workers → Reply Bool × Workers
post_manifest x calls realm now token m w = elim (caller x realm now token w) [
  | inr status ↦ (answered status none, w)
  | inl worker ↦
      let (r, w') = publish calls now worker.id m w in (answer (r >>= λ done. ok true), w')
]

-- One turn of the poll of POST /worker/v1/claim: the worker authenticates again.
unfoldable pub poll :
    Codec
    → Io
    → Crypto
    → String
    → String
    → Workers
    → Store
    → Option (Reply (Option WorkerAssignment)) × Store
poll c io x lease token w s = elim (authenticate x io.now token w) [
  | err e ↦ (some (answered 401 none), s)
  | ok current ↦
      let (r, s') = claim_worker c io lease current s in
      elim r [
        | err e ↦ (some (answer (err e)), s')
        | ok none ↦ (none, s')
        | ok (some a) ↦ (some (answered 200 (some (some a))), s')
      ]
]

-- The poll. Each turn has the state of the registry at that time, what other requests have done to the
-- store, and a lease ID; after the last one the deadline has passed.
pub record Turn : Type 0 where
  pub io : Io
  pub registry : Workers
  pub others : Store → Store
  pub lease : String

unfoldable pub poll_loop :
    Codec → Crypto → String → List Turn → Store → Reply (Option WorkerAssignment) × Store
unfolding poll
poll_loop c x token [] s = (answered 200 (some none), s)
poll_loop c x token (t ∷ rest) s =
    let (found, s') = poll c t.io x t.lease token t.registry (t.others s) in
    elim found [ some reply ↦ (reply, s') | none ↦ poll_loop c x token rest s' ]

-- POST /worker/v1/claim.
unfoldable pub post_claim :
    Codec
    → Crypto
    → Calls
    → String
    → ℕ
    → String
    → List Turn
    → Workers
    → Store
    → Reply (Option WorkerAssignment) × Workers × Store
post_claim c x calls realm now token turns w s = elim (caller x realm now token w) [
  | inr status ↦ (answered status none, w, s)
  | inl worker ↦
      let (touched, w') = touch calls now worker.id w in
      elim touched [
        | err e ↦ (answer (err e), w', s)
        | ok _ ↦ let (reply, s') = poll_loop c x token turns s in (reply, w', s')
      ]
]

-- The answer of POST /worker/v1/jobs/{id}/progress.
pub record ProgressReply : Type 0 where
  pub cancel_requested : Bool
  pub lease_until : Option ℕ

-- POST /worker/v1/jobs/{id}/progress.
unfoldable pub post_progress :
    Codec
    → Io
    → Crypto
    → Calls
    → String
    → String
    → String
    → WorkerReport
    → Workers
    → Store
    → Reply ProgressReply × Workers × Store
post_progress c io x calls realm token id r w s = elim (caller x realm io.now token w) [
  | inr status ↦ (answered status none, w, s)
  | inl worker ↦
      let (reported, s') = report_worker c io worker id r s in
      elim reported [
        | err e ↦ (answer (err e), w, s')
        | ok j ↦
            let (touched, w') = touch calls io.now worker.id w in
            (
              answer (
                  touched >>= λ done. ok (record {
                    cancel_requested = is_cancel_requested j.state;
                    lease_until = j.lease_until;
                  })),
              w',
              s',
            )
      ]
]
