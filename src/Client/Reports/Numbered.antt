-- ===== src/Client/Reports/Numbered.antt =====
-- The sequence of the reports that a customer worker makes.
use vector_transfer.Base.{
  ℕ, ◌+◌, String, ◌≡◌, refl, ◌⊎◌, inl, inr, Bool, true, false, Option, none, some, List, [], ◌∷◌,
  arith, Bool-cases, Option-cases, pos,
}
use vector_transfer.Base.Result.{canceled_context, Result, ok, err, Result-cases}
use vector_transfer.Control.Job.{
  Job, State, queued, running, retry_wait, cancel_requested, succeeded, failed, canceled, is_active,
  state_name,
}
use vector_transfer.Base.Dict.{Dict}
use vector_transfer.Connector.{Binding}
use vector_transfer.Account.{Reply}
use vector_transfer.Control.Protocol.{ProgressReply}
use vector_transfer.Control.Journal.{Codec, Store, Io}
use vector_transfer.Control.Workers.{WorkerManifest}
use vector_transfer.Control.Lease.{WorkerReport, WorkerAssignment}
use vector_transfer.Control.Store.{get}
use vector_transfer.Client.{Client, Local, Plane, call}
use vector_transfer.Client.Run.{Start, report_of, begin_execute, runs, returns, rejects}
use vector_transfer.Client.Run.Turns.{
  Wake, woken, Tick, Turn, turn, report_loop, report_turn, after_report, made_in, ends, stops,
  ticks, joins, execute,
}

-- The sequence numbers of reports.
abbrev pub IsNumbered : WorkerAssignment → ℕ → List WorkerReport → Type 0
IsNumbered a n [] = Unit
IsNumbered a n (r ∷ rest) =
    (r.sequence ≡ pos (n + 1))
    × (r.lease_id ≡ a.lease_id)
    × ((rest ≡ []) ⊎ (r.state ≡ "running") ⊎ (r.state ≡ "cancel_requested"))
    × IsNumbered a (n + 1) rest

-- What a turn reports, and that it goes on only after reporting a job that is active.
abbrev HasReported : WorkerAssignment → ℕ → Turn → Type 0
HasReported a sequence u =
    ((r : WorkerReport) → u.made ≡ some r → (r.sequence ≡ pos sequence) × (r.lease_id ≡ a.lease_id))
    × (u.ended ≡ none
        → (r : WorkerReport) × (u.made ≡ some r)
          × ((r.state ≡ "running") ⊎ (r.state ≡ "cancel_requested")))

active_name :
    (s : State)
    → is_active s ≡ true
    → (state_name s ≡ "running") ⊎ (state_name s ≡ "cancel_requested")
unfolding state_name
active_name running h = inl refl
active_name cancel_requested h = inr refl
active_name queued h = cc
active_name retry_wait h = cc
active_name succeeded h = cc
active_name failed h = cc
active_name canceled h = cc

ends_silent :
    (a : WorkerAssignment) (n : ℕ) (r : Result (Unit {0})) (client : Client) (s : Store)
    → HasReported a n (ends none r client s)
ends_silent a n r client s = (λ x h. cc, λ h. cc)

ends_reported :
    (a : WorkerAssignment) (n now : ℕ) (j : Job) (r : Result (Unit {0})) (client : Client)
    (s : Store)
    → HasReported a n (ends (some (report_of n now a j)) r client s)
unfolding report_of
ends_reported a n now j r client s = (λ x h. ground (arith, h), λ h. cc)

after-HasReported :
    (c : Codec) (t : Tick) (finished : Bool) (a : WorkerAssignment) (sequence : ℕ) (cancel : Bool)
    (j : Job) (client : Client) (s : Store)
    → HasReported a sequence
        (after_report c t finished (report_of sequence t.io.now a j) cancel j client s)
unfolding after_report report_of
after-HasReported c t finished a sequence cancel j client s =
    elim (Bool-cases (is_active j.state)) [
      | inr idle ↦ (λ r h. ground (arith, idle, h), λ h. absurd (ground (arith, idle, h)))
      | inl busy ↦ (
        λ r h. ground (arith, busy, h),
        λ h. (report_of sequence t.io.now a j, ground (arith, busy, h), active_name j.state busy),
      )
    ]

module _ (c : Codec) (l : Local) (a : WorkerAssignment) (id : String) where
  report_turn-HasReported :
      (t : Tick) (finished : Bool) (sequence : ℕ) (client : Client) (s : Store)
      → HasReported a sequence (report_turn c l a id t finished sequence client s)
  unfolding report_turn
  report_turn-HasReported t finished sequence client s = elim (Result-cases (get id s)) [
    | inr (e, lost) ↦ rw (report_turn, lost) (ends_silent a sequence (err e) client s)
    | inl (j, found) ↦
        let r = report_of sequence t.io.now a j in
        let client' = (call l t.plane (t.reply r) client).1 in
        elim (Result-cases (call l t.plane (t.reply r) client).0) [
          | inr (e, lost) ↦
              rw (report_turn, found, lost) (ends_reported a sequence t.io.now j (err e) client' s)
          | inl (p, answered_) ↦
              rw (report_turn, found, answered_)
                (after-HasReported c t finished a sequence p.cancel_requested j client' s)
        ]
  ]

  woken-HasReported :
      (w : Wake) (t : Tick) (sequence : ℕ) (client : Client) (s : Store)
      → HasReported a sequence (woken c l a id w t sequence client s)
  unfolding woken
  woken-HasReported stops t sequence client s =
      ends_silent a sequence (err canceled_context) client (t.others s)
  woken-HasReported ticks t sequence client s =
      report_turn-HasReported t false sequence client (t.others s)
  woken-HasReported (joins (err e)) t sequence client s =
      ends_silent a sequence (err e) client (t.others s)
  woken-HasReported (joins (ok _)) t sequence client s =
      report_turn-HasReported t true sequence client (t.others s)

  turn-HasReported :
      (t : Tick) (sequence : ℕ) (client : Client) (s : Store)
      → HasReported a sequence (turn c l a id t sequence client s)
  unfolding turn
  turn-HasReported t sequence client s = woken-HasReported t.wake t sequence client s

  loop-IsNumbered :
      (turns : List Tick) (n : ℕ) (client : Client) (s : Store)
      → IsNumbered a n (report_loop c l a id turns n client s).0
  unfolding report_loop
  loop-IsNumbered [] n client s = tt
  loop-IsNumbered (t ∷ rest) n client s =
      let u = turn c l a id t (n + 1) client s in
      let (named, goes_on) = turn-HasReported t (n + 1) client s in
      let later = loop-IsNumbered rest (n + 1) u.client u.store in
      elim (Option-cases u.ended) [
        | inr (r, over) ↦ rw (report_loop, over) (one_report u.made named)
        | inl on ↦
            let (r, made, busy) = goes_on on in
            rw (report_loop, on, made) ((named r made).0, (named r made).1, inr busy, later)
      ]
    where
      one_report :
          (made : Option WorkerReport)
          → ((r : WorkerReport)
              → made ≡ some r
              → (r.sequence ≡ pos (n + 1)) × (r.lease_id ≡ a.lease_id))
          → IsNumbered a n (made_in made)
      one_report none named = tt
      one_report (some r) named = ((named r refl).0, (named r refl).1, inl refl, tt)

-- The reports that execute makes for an assignment, over any turns of its loop and whatever the executor
-- does meanwhile, are numbered 1, 2, 3 and so on without a gap, all carry the assignment's lease, and
-- every one but the last is of a job that is running or asked to cancel.
pub execute-IsNumbered :
    (c : Codec) (io io' : Io) (l : Local) (p : Plane)
    (reply : WorkerReport → String → Reply ProgressReply) (turns : List Tick) (m : WorkerManifest)
    (registry : Dict Binding) (a : WorkerAssignment) (client : Client) (s : Store)
    → IsNumbered a 0 (execute c io io' l p reply turns m registry a client s).0
unfolding execute
execute-IsNumbered c io io' l p reply turns m registry a client s =
    by_start (begin_execute c io io' client m registry a s).0 refl
  where
    by_start :
        (start : Start)
        → (begin_execute c io io' client m registry a s).0 ≡ start
        → IsNumbered a 0 (execute c io io' l p reply turns m registry a client s).0
    by_start (returns e) h = rw (execute, h) tt
    by_start (rejects code) h = rw (execute, h) (refl, refl, inl refl, tt)
    by_start (runs j started) h =
        rw (execute, h)
          (loop-IsNumbered c l a j.id turns 0 client
            (begin_execute c io io' client m registry a s).1)
