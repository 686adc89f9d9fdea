-- ===== src/Control/Routes/Guards.antt =====
-- The guards of the API and the health of the service, control/api.go, and the routes of workers,
-- control/worker_api.go.
use vector_transfer.Base.{
  ℕ, String, ◌⊎◌, inl, inr, Bool, true, not, ◌&&◌, ◌||◌, Option, none, some, List, ◌==◌,
  if◌then◌else◌, is_some, ◌!=◌, ◌<>◌,
}
use vector_transfer.Base.Result.{
  Error, forbidden, unavailable, workers_unavailable, Result, ok, err, ◌>>=◌,
}
use vector_transfer.Durable.{Calls}
use vector_transfer.Account.{Reply, answered, Principal, Url}
use vector_transfer.Control.Job.{Owner}
use vector_transfer.Control.Journal.{Store}
use vector_transfer.Control.Store.{health}
use vector_transfer.Control.Workers
use vector_transfer.Control.Workers.{Workers, Crypto, Worker}
use vector_transfer.Control.Views.{WorkerView, worker_view, list_workers}
use vector_transfer.Control.Protocol.{answer}

-- GET /healthz.
unfoldable pub get_health : Store → Option Error → Option Error → ℕ
get_health s vault workers =
    if is_some (health s) || is_some vault || is_some workers then 503 else 200

-- The guard of /v1/ for a service with accounts: the owner of a request, or the status that refuses it.
unfoldable pub account_owner : String → Result Principal → Owner ⊎ ℕ
account_owner realm (err unavailable) = inr 503
account_owner realm (err other) = inr 401
account_owner realm (ok p) =
    if p.profile.subject == "" || p.owner_id == ""
    then inr 401
    else inl (record { id = p.owner_id; subject = p.profile.subject; realm = realm })

-- The guard of /v1/ for a service without accounts: the status that refuses a request. `is_loopback` is
-- the test of net.ParseIP, and `host` the request's host without a port.
unfoldable pub operator_guard :
    (String → Option Url) → (String → Bool) → String → String → String → String → String → Option ℕ
operator_guard parse_url is_loopback token authorization request_host host origin =
    let foreign : Bool = elim (parse_url origin) [
      | none ↦ true
      | some u ↦ u.host != request_host || (u.scheme != "http" && u.scheme != "https")
    ] in
    if token != "" && authorization != "Bearer " <> token
    then some 401
    else if token == "" && host != "localhost" && not (is_loopback host)
    then some 403
    else if origin != "" && foreign
    then some 403
    else none

module _ (before : String → String → Bool) where
  -- GET /v1/workers; `none` for a service without workers.
  unfoldable pub get_workers : ℕ → Option Owner → Option Workers → Reply (Option (List WorkerView))
  get_workers now owner none = answered 200 (some none)
  get_workers now owner (some w) =
      if is_some w.poison
      then answer (err workers_unavailable)
      else answered 200 (some (some (list_workers before now owner w)))

-- POST /v1/workers: the worker and its enrollment token.
unfoldable pub post_worker :
    Crypto
    → Calls
    → ℕ
    → String
    → String
    → Option Owner
    → String
    → Option Workers
    → Reply (WorkerView × String) × Option Workers
unfolding worker_view
post_worker x calls now token id owner name none = (answer (err forbidden), none)
post_worker x calls now token id owner name (some w) =
    let (r, w') = Workers.create x calls now token id owner name w in
    (
      elim r [
        | err e ↦ answer (err e)
        | ok (e, enrollment) ↦ answered 201 (some (worker_view now e, enrollment))
      ],
      some w',
    )

-- POST /v1/workers/{id}/revoke.
unfoldable pub revoke_worker :
    Calls → Option Owner → String → Option Workers → Reply Bool × Option Workers
revoke_worker calls owner id none = (answer (err forbidden), none)
revoke_worker calls owner id (some w) =
    let (r, w') = Workers.revoke calls id owner w in (answer (r >>= λ done. ok true), some w')
