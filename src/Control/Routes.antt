-- ===== src/Control/Routes.antt =====
-- The routes of the API, control/api.go and control/worker_api.go: what each handler does with a request
-- that `decode` has read. `owner` is the account of the request, if the service has accounts.
pub mod Guards
pub mod Jobs
pub mod Shown
pub mod Pages
use vector_transfer.Base.{
  ℕ, zero, suc, ◌+◌, ◌-◌, ◌*◌, ◌/◌, ◌%◌, ◌^◌, ◌≤◌, ◌<◌, min, max, String, ◌≡◌, refl, sym, ap, ◌∙◌,
  subst, ◌≢◌, ◌↔◌, ◌⊎◌, inl, inr, Bool, true, false, not, ◌&&◌, ◌||◌, Option, none, some, List, [],
  ◌∷◌, ◌++◌, append-nil, append_assoc, arith, ◌==◌, eq_iff, ltb, leb, eqb, if◌then◌else◌, ltb→lt,
  ltb→le, leb→le, leb→lt, tests, Bool-cases, Option-cases, is_some, is_none, &&-eq_true, ||-eq_true,
  length, take, drop, any, all, count, All, In, length-append, take-append-drop, length-take-le,
  length-drop, any-In, all-In, ◌!=◌, ◌<>◌, byte_length, ==_refl, ==_sound, String-discrete, decimal,
  decimal_ℤ, ℤ, pos, negsuc, pos_part, neg_part, ltb_ℤ, eqb_ℤ, ◌≤ℤ◌, eqb_ℤ_sound, any-false,
  false-any, All-map, take-all, take-append_left, any-take, codes, trim_space, cut_prefix,
  trim_right_code,
}
use vector_transfer.Base.Result.{
  Error, not_found, conflict, forbidden, unavailable, unauthorized, canceled_context,
  journal_failed, vault_unavailable, workers_unavailable, message, Result, ok, err, ◌>>=◌, is_ok,
  Result-cases, bind_parts,
}
use vector_transfer.Base.Dict.{
  Dict, lookup, insert, delete, values, lookup-insert, lookup-delete, lookup-In, dict_laws,
}
use vector_transfer.Durable.{Calls}
use vector_transfer.Connector.{Binding}
use vector_transfer.Connector.Access.{allows_read, allows_write}
use vector_transfer.Account.{Reply, answered, Principal, Url}
use vector_transfer.Control.Job.{
  Job, Spec, Owner, State, same_owner, is_queued, is_running, is_retry_wait, is_cancel_requested,
  state_name,
}
use vector_transfer.Control.Journal.{Codec, Store, Io, Event}
use vector_transfer.Control.Store.{list, health}
use vector_transfer.Control.Store.Events.{events}
use vector_transfer.Control.Workers
use vector_transfer.Control.Workers.{Workers, Crypto, Worker}
use vector_transfer.Control.Engine.{Engine, authorized}
use vector_transfer.Control.Engine.Submit.{submit}
use vector_transfer.Control.Engine.Action.{act}
use vector_transfer.Control.Connections
use vector_transfer.Control.Connections.{Connections, Definition, Provider, Sealing, Removal}
use vector_transfer.Control.Views.{
  public_job, owned_job, principal, query_int, WorkerView, worker_view, list_workers,
}
use vector_transfer.Control.Protocol.{answer, error_status}

-- A connection as the API shows it.
abbrev pub hidden : Binding → Binding
hidden b = record b { fingerprint = ""; resource = "" }

-- GET /v1/connections, of the connections of the engine.
abbrev pub granted_to : Option Owner → Binding → Binding
granted_to none b = b
granted_to (some o) b = record b {
  can_read = allows_read b o.subject;
  can_write = allows_write b o.subject;
}

unfoldable pub show_connections : Option Owner → List Binding → List Binding
show_connections owner [] = []
show_connections owner (b ∷ rest) =
    let shown = show_connections owner rest in
    let mine = granted_to owner b in
    if mine.can_read || mine.can_write then hidden mine ∷ shown else shown

-- A job that has not ended and uses the connection.
abbrev pub uses : Owner → String → Job → Bool
uses o id j =
    same_owner j.owner (some o)
    && (j.spec.source == id || j.spec.sink == id)
    && (is_queued j.state
        || is_running j.state
        || is_retry_wait j.state
        || is_cancel_requested j.state)

module _ {C K : Type 0} where
  -- POST /v1/connections: the status and the connection.
  unfoldable pub post_connection :
      Provider C K
      → Sealing
      → ℕ
      → Option Owner
      → Definition C K
      → String
      → Option (Connections C K)
      → Reply Binding × Option (Connections C K)
  post_connection p sealing now none d key v = (answer (err forbidden), v)
  post_connection p sealing now (some o) d key none = (answer (err forbidden), none)
  post_connection p sealing now (some o) d key (some v) =
      let (r, v') = Connections.create p sealing now o d key v in
      (
        elim r [
          | err e ↦ answer (err e)
          | ok (b, created) ↦ answered (if created then 201 else 200) (some (hidden b))
        ],
        some v',
      )

  -- PUT /v1/connections/{id}/credentials.
  unfoldable pub put_credentials :
      Provider C K
      → Sealing
      → Option Owner
      → String
      → K
      → Option (Connections C K)
      → Reply Binding × Option (Connections C K)
  put_credentials p sealing none id k v = (answer (err forbidden), v)
  put_credentials p sealing (some o) id k none = (answer (err forbidden), none)
  put_credentials p sealing (some o) id k (some v) =
      let (r, v') = Connections.rotate p sealing o id k v in
      (answer (r >>= λ b. ok (hidden b)), some v')

  -- DELETE /v1/connections/{id}. The list of the jobs and the removal are critical sections of two
  -- mutexes; `meanwhile` is what other requests make of the vault in between.
  unfoldable pub delete_connection :
      Removal
      → (Connections C K → Connections C K)
      → Option Owner
      → String
      → Store
      → Option (Connections C K)
      → Reply Bool × Option (Connections C K)
  unfolding list
  delete_connection io meanwhile none id s v = (answer (err forbidden), v)
  delete_connection io meanwhile (some o) id s none = (answer (err forbidden), none)
  delete_connection io meanwhile (some o) id s (some v) =
      let (r, v') = Connections.remove io o id (meanwhile v) in
      if any (uses o id) (list s)
      then (answer (err (message "cancel active jobs before removing this connection")), some v)
      else (answer (r >>= λ done. ok true), some v')
