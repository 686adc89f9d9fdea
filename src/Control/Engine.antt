-- ===== src/Control/Engine.antt =====
-- The transfer engine, control/engine.go: its connections and the authorization of jobs.
pub mod Submit
pub mod Action
pub mod Execute
pub mod Admission
pub mod Granted
use vector_transfer.Base.{
  ℕ, zero, suc, ◌+◌, ◌-◌, ◌*◌, ◌/◌, ◌%◌, ◌^◌, ◌≤◌, ◌<◌, min, max, String, ◌≡◌, refl, sym, ap, ◌∙◌,
  subst, ◌≢◌, ◌↔◌, ◌⊎◌, inl, inr, Bool, true, false, not, ◌&&◌, ◌||◌, Option, none, some, List, [],
  ◌∷◌, ◌++◌, append-nil, append_assoc, arith, ◌==◌, eq_iff, ltb, leb, eqb, if◌then◌else◌, ltb→lt,
  ltb→le, leb→le, leb→lt, tests, Bool-cases, Option-cases, is_some, is_none, &&-eq_true, ||-eq_true,
  length, take, drop, any, all, count, All, In, length-append, take-append-drop, length-take-le,
  length-drop, any-In, all-In, ◌!=◌, ◌<>◌, byte_length, ==_refl, ==_sound, String-discrete, decimal,
  decimal_ℤ, ℤ, pos, negsuc, pos_part, neg_part, ltb_ℤ, eqb_ℤ, ◌≤ℤ◌, eqb_ℤ_sound, any-false,
  false-any, All-map, take-all, take-append_left, any-take, codes, trim_space,
}
use vector_transfer.Base.Result.{
  Error, not_found, conflict, forbidden, unavailable, unauthorized, canceled_context,
  journal_failed, vault_unavailable, workers_unavailable, message, Result, ok, err, ◌>>=◌, is_ok,
}
use vector_transfer.Base.Dict.{
  Dict, lookup, insert, delete, values, lookup-insert, lookup-delete, lookup-In, dict_laws,
}
use vector_transfer.Connector.{Binding}
use vector_transfer.Connector.Access.{allows_read, allows_write}
use vector_transfer.Control.Job.{
  Job, Spec, Owner, State, queued, running, retry_wait, cancel_requested, succeeded, failed,
  canceled, unset, is_failed, is_canceled, is_retry_wait,
}
use vector_transfer.Control.Journal.{Codec, Store, Io}
use vector_transfer.Control.Store.{create, update}
use vector_transfer.Control.Workers
use vector_transfer.Control.Workers.{Workers}
use vector_transfer.Control.Workers.Manifest.{approved_connections}

-- `Engine`, without its store. `personal` is the lookup of the users' own connections.
pub record Engine : Type 0 where
  pub hosted_disabled : Bool
  pub registry : Dict Binding
  pub account_realm : String
  pub personal : String → Option Binding
  pub workers : Option Workers

-- `connection`.
unfoldable pub connection : Engine → String → Option Binding
connection e name = elim (lookup name e.registry) [ some b ↦ some b | none ↦ e.personal name ]

-- The grants of a connection that may be missing, which is then `Binding{}` and grants nothing.
abbrev pub may_read : Option Binding → String → Bool
may_read none subject = false
may_read (some b) subject = allows_read b subject

abbrev pub may_write : Option Binding → String → Bool
may_write none subject = false
may_write (some b) subject = allows_write b subject

-- The fingerprints of the worker's approved connections are the job's.
abbrev pub worker_authorizes : Result Workers.Worker → Job → Bool
worker_authorizes (err _) j = false
worker_authorizes (ok w) j = elim (approved_connections w j.spec) [
  | err _ ↦ false
  | ok (src, dst) ↦ src.fingerprint == j.source_fingerprint && dst.fingerprint == j.sink_fingerprint
]

abbrev pub owner_realm_is : String → Option Owner → Bool
owner_realm_is realm none = false
owner_realm_is realm (some o) = o.realm == realm

-- `authorized`.
unfoldable pub authorized : Engine → Job → Bool
unfolding connection
authorized e j =
    if j.spec.worker_id != ""
    then elim e.workers [
      | none ↦ false
      | some w ↦
          (e.account_realm == "" || owner_realm_is e.account_realm j.owner)
          && worker_authorizes (Workers.get j.spec.worker_id j.owner w) j
    ]
    else if e.account_realm == ""
    then is_none j.owner
    else elim j.owner [
      | none ↦ false
      | some o ↦
          o.realm == e.account_realm
          && may_read (connection e j.spec.source) o.subject
          && may_write (connection e j.spec.sink) o.subject
    ]
