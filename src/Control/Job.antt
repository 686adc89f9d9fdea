-- ===== src/Control/Job.antt =====
-- The job record of control/store.go: Spec, Owner, Job.
use vector_transfer.Base.{
  ℕ, String, Bool, true, false, not, ◌&&◌, ◌||◌, Option, none, some, ◌==◌, ltb, is_none, ℤ, eqb_ℤ,
}

pub record Spec : Type 0 where
  pub worker_id : String
  pub name : String
  pub source : String
  pub sink : String
  pub dimension : ℤ
  pub batch_size : ℤ
  pub max_attempts : ℤ
  pub max_restarts : ℤ

pub record Owner : Type 0 where
  pub id : String
  pub subject : String
  pub realm : String

-- The texts of Job.State.
pub data State : Type 0 where
  queued running retry_wait cancel_requested succeeded failed canceled : State

-- The texts of Job.Phase; `unset` is the empty one.
pub data Phase : Type 0 where
  unset starting read write backoff checkpointed waiting : Phase

pub record Job : Type 0 where
  pub lease_id : String
  pub lease_until : Option ℕ
  pub generation : ℕ
  pub report_sequence : ℕ
  pub owner : Option Owner
  pub phase : Phase
  pub restarts : ℕ
  pub next_run_at : Option ℕ
  pub last_checkpoint_at : Option ℕ
  pub id : String
  pub spec : Spec
  pub state : State
  pub created_at : ℕ
  pub updated_at : ℕ
  pub created_by : String
  pub records : ℕ
  pub batches : ℕ
  pub retries : ℕ
  pub runs : ℕ
  pub cursor : String
  pub source_exhausted : Bool
  pub error : String
  pub source_fingerprint : String
  pub sink_fingerprint : String
  pub sink_resource : String
  pub idempotency_key : String

-- The text of a state.
unfoldable pub state_name : State → String
state_name queued = "queued"
state_name running = "running"
state_name retry_wait = "retry_wait"
state_name cancel_requested = "cancel_requested"
state_name succeeded = "succeeded"
state_name failed = "failed"
state_name canceled = "canceled"

-- The text of a phase.
unfoldable pub phase_name : Phase → String
phase_name unset = ""
phase_name starting = "starting"
phase_name read = "read"
phase_name write = "write"
phase_name backoff = "backoff"
phase_name checkpointed = "checkpointed"
phase_name waiting = "waiting"

-- The comparisons of a state with a text that the source makes.
abbrev pub is_queued : State → Bool
is_queued s = elim s [ queued ↦ true | _ ↦ false ]

abbrev pub is_running : State → Bool
is_running s = elim s [ running ↦ true | _ ↦ false ]

abbrev pub is_retry_wait : State → Bool
is_retry_wait s = elim s [ retry_wait ↦ true | _ ↦ false ]

abbrev pub is_cancel_requested : State → Bool
is_cancel_requested s = elim s [ cancel_requested ↦ true | _ ↦ false ]

abbrev pub is_failed : State → Bool
is_failed s = elim s [ failed ↦ true | _ ↦ false ]

abbrev pub is_canceled : State → Bool
is_canceled s = elim s [ canceled ↦ true | _ ↦ false ]

-- `State == "running" || State == "cancel_requested"`.
abbrev pub is_active : State → Bool
is_active s = is_running s || is_cancel_requested s

-- `sameOwner`.
unfoldable pub same_owner : Option Owner → Option Owner → Bool
same_owner none b = is_none b
same_owner (some a) none = false
same_owner (some a) (some b) = a.id == b.id && a.subject == b.subject && a.realm == b.realm

-- `==` of two Spec values.
unfoldable pub same_spec : Spec → Spec → Bool
same_spec a b =
    a.worker_id == b.worker_id
    && a.name == b.name
    && a.source == b.source
    && a.sink == b.sink
    && eqb_ℤ a.dimension b.dimension
    && eqb_ℤ a.batch_size b.batch_size
    && eqb_ℤ a.max_attempts b.max_attempts
    && eqb_ℤ a.max_restarts b.max_restarts

-- `t != nil && !t.After(now)`: a time that is set and not in the future.
abbrev pub is_due : Option ℕ → ℕ → Bool
is_due none now = false
is_due (some t) now = not (ltb now t)

-- `t != nil && t.After(now)`.
abbrev pub is_ahead : Option ℕ → ℕ → Bool
is_ahead none now = false
is_ahead (some t) now = ltb now t

-- Times are nanoseconds since the epoch.
abbrev pub second : ℕ
second = 1000000000
