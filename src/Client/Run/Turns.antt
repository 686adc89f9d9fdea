-- ===== src/Client/Run/Turns.antt =====
-- The turns of execute in worker/worker.go.
use vector_transfer.Base.{
  ℕ, ◌+◌, String, Bool, true, false, not, Option, none, some, List, [], ◌∷◌, ◌++◌, if◌then◌else◌,
}
use vector_transfer.Base.Result.{canceled_context, message, Result, ok, err, ◌>>=◌}
use vector_transfer.Base.Dict.{Dict}
use vector_transfer.Connector.{Binding}
use vector_transfer.Account.{Reply}
use vector_transfer.Control.Job.{Job, is_active}
use vector_transfer.Control.Journal.{Codec, Store, Io}
use vector_transfer.Control.Store.{get}
use vector_transfer.Control.Workers.{WorkerManifest}
use vector_transfer.Control.Engine.Action.{act}
use vector_transfer.Control.Lease.{WorkerReport, WorkerAssignment}
use vector_transfer.Control.Protocol.{ProgressReply}
use vector_transfer.Client.{Client, Local, Plane, call}
use vector_transfer.Client.Run.{rejection, report_of, returns, rejects, runs, begin_execute}

-- What ends a wait of the loop: the executor's result, the ticker, or a canceled context.
pub data Wake : Type 0 where
  joins : Result (Unit {0}) → Wake
  ticks : Wake
  stops : Wake

-- What happens to one turn of the loop. `others` is what the executor has done to the store; `expired`
-- tells that the lease timer has fired or the context was canceled during the turn.
pub record Tick : Type 0 where
  pub wake : Wake
  pub others : Store → Store
  pub io : Io
  pub plane : Plane
  pub reply : WorkerReport → String → Reply ProgressReply
  pub expired : Bool

-- What one turn does: the report that it makes, the result if it ends the loop, and the state.
pub record Turn : Type 0 where
  pub made : Option WorkerReport
  pub ended : Option (Result (Unit {0}))
  pub client : Client
  pub store : Store

abbrev pub ends : Option WorkerReport → Result (Unit {0}) → Client → Store → Turn
ends made r client s = record { made = made; ended = some r; client = client; store = s }

-- The end of a turn whose report has been accepted.
unfoldable pub after_report :
    Codec → Tick → Bool → WorkerReport → Bool → Job → Client → Store → Turn
after_report c t finished r cancel current client s =
    let (acted, s') = act c t.io current.id "cancel" "control-plane" s in
    let done = if cancel then acted else ok current in
    let s'' = if cancel then s' else s in
    if not (is_active current.state) then ends (some r) (ok tt) client s else elim done [
      | err e ↦ ends (some r) (err e) client s''
      | ok _ ↦
          if t.expired
          then ends (some r) (err (message "execution lease expired")) client s''
          else record {
            made = some r;
            ended = if finished then some (ok tt) else none;
            client = client;
            store = s'';
          }
    ]

unfoldable pub report_turn :
    Codec → Local → WorkerAssignment → String → Tick → Bool → ℕ → Client → Store → Turn
unfolding report_of after_report
report_turn c l a id t finished sequence client s = elim (get id s) [
  | err e ↦ ends none (err e) client s
  | ok current ↦
      let r = report_of sequence t.io.now a current in
      let (answer, client') = call l t.plane (t.reply r) client in
      elim answer [
        | err e ↦ ends (some r) (err e) client' s
        | ok p ↦ after_report c t finished r p.cancel_requested current client' s
      ]
]

-- The `select` of the loop.
unfoldable pub woken :
    Codec → Local → WorkerAssignment → String → Wake → Tick → ℕ → Client → Store → Turn
unfolding report_turn
woken c l a id stops t sequence client s = ends none (err canceled_context) client (t.others s)
woken c l a id ticks t sequence client s = report_turn c l a id t false sequence client (t.others s)
woken c l a id (joins (err e)) t sequence client s = ends none (err e) client (t.others s)
woken c l a id (joins (ok _)) t sequence client s =
    report_turn c l a id t true sequence client (t.others s)

-- One turn of the loop of `execute`.
unfoldable pub turn : Codec → Local → WorkerAssignment → String → Tick → ℕ → Client → Store → Turn
unfolding woken
turn c l a id t sequence client s = woken c l a id t.wake t sequence client s

abbrev pub made_in : Option WorkerReport → List WorkerReport
made_in none = []
made_in (some r) = r ∷ []

-- The loop after `sequence` reports: the reports that it makes, its result if one of the turns ends it,
-- and the state.
unfoldable pub report_loop :
    Codec
    → Local
    → WorkerAssignment
    → String
    → List Tick
    → ℕ
    → Client
    → Store
    → List WorkerReport × Option (Result (Unit {0})) × Client × Store
unfolding turn
report_loop c l a id [] sequence client s = ([], none, client, s)
report_loop c l a id (t ∷ rest) sequence client s =
    let u = turn c l a id t (sequence + 1) client s in
    let (made, ended, client', s') = report_loop c l a id rest (sequence + 1) u.client u.store in
    let first = made_in u.made in
    elim u.ended [
      | some r ↦ (first, some r, u.client, u.store)
      | none ↦ (first ++ made, ended, client', s')
    ]

-- `execute`: `plane` and `reply` answer the report of a rejected assignment.
unfoldable pub execute :
    Codec
    → Io
    → Io
    → Local
    → Plane
    → (WorkerReport → String → Reply ProgressReply)
    → List Tick
    → WorkerManifest
    → Dict Binding
    → WorkerAssignment
    → Client
    → Store
    → List WorkerReport × Option (Result (Unit {0})) × Client × Store
unfolding begin_execute report_loop rejection
execute c io io' l plane reply turns m registry a client s =
    let (start, s') = begin_execute c io io' client m registry a s in
    elim start [
      | returns e ↦ ([], some (err e), client, s')
      | rejects code ↦
          let r = rejection a code in
          let (answer, client') = call l plane (reply r) client in
          (r ∷ [], some (answer >>= λ p. ok tt), client', s')
      | runs j started ↦ report_loop c l a j.id turns 0 client s'
    ]
