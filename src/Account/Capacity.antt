-- ===== src/Account/Capacity.antt =====
-- The number of transactions and sessions.
use vector_transfer.Base.{
  ℕ, ◌+◌, ◌*◌, ◌≤◌, String, inl, inr, Option, none, some, List, [], ◌∷◌, arith, Option-cases,
  length,
}
use vector_transfer.Base.Dict.{Dict, insert, delete}
use vector_transfer.Account.{Config, Web, Request, Tokens, Principal, digest}
use vector_transfer.Account.Sessions.{
  Service, Session, Transaction, login, prune, live_transactions, live_sessions, take_transaction,
  open_session, find_session, use_session, close_session, drop_session, forget, capacity,
}
use vector_transfer.Account.Sessions.Handlers.{
  Step, logs_in, takes, opens, finds, uses, closes, drops, step, steps,
}

module _ {ℓ} {V : Type ℓ} where
  length-delete : (k : String) (m : Dict V) → length (delete k m) ≤ length m
  unfolding delete
  length-delete k [] = omega arith
  length-delete k ((j, v) ∷ m) = ground (arith, length-delete k m)

  length-insert : (k : String) (v : V) (m : Dict V) → length (insert k v m) ≤ length m + 1
  unfolding insert
  length-insert k v [] = omega arith
  length-insert k v ((j, w) ∷ m) = ground (arith, length-insert k v m)

length-live_transactions :
    (now : ℕ) (m : Dict Transaction) → length (live_transactions now m) ≤ length m
unfolding live_transactions
length-live_transactions now [] = omega arith
length-live_transactions now ((k, t) ∷ m) = ground (arith, length-live_transactions now m)

length-live_sessions :
    (now : ℕ) (cell : ℕ → Session) (m : Dict ℕ) → length (live_sessions now cell m) ≤ length m
unfolding live_sessions
length-live_sessions now cell [] = omega arith
length-live_sessions now cell ((k, ref) ∷ m) = ground (arith, length-live_sessions now cell m)

length-forget : (web : Web) (id : Option String) (m : Dict ℕ) → length (forget web id m) ≤ length m
length-forget web none m = omega arith
length-forget web (some id) m = length-delete (digest web id) m

-- No more transactions and no more sessions than the capacity.
abbrev pub IsWithin : Service → Type 0
IsWithin s = (length s.transactions ≤ capacity) × (length s.sessions ≤ capacity)

module _ (web : Web) (cfg : Config) where
  prune-IsWithin : (now : ℕ) (s : Service) → IsWithin s → IsWithin (prune now s)
  unfolding prune
  prune-IsWithin now s h = omega (
    arith,
    h,
    length-live_transactions now s.transactions,
    length-live_sessions now s.cell s.sessions,
  )

  login-IsWithin :
      (now : ℕ) (state browser verifier : String) (r : Request) (s : Service)
      → IsWithin s
      → IsWithin (login web cfg now state browser verifier r s).1
  unfolding login
  login-IsWithin now state browser verifier r s h =
      let pruned = prune-IsWithin now s h in
      let t : Transaction = record {
        verifier = verifier;
        state = state;
        expires = now + 300 * 1000000000;
      } in
      ground (
        arith,
        h,
        pruned,
        length-insert (digest web browser) t (live_transactions now s.transactions),
      )

  open-IsWithin :
      (now : ℕ) (id csrf : String) (r : Request) (tok : Tokens) (who : Principal) (s : Service)
      → IsWithin s
      → IsWithin (open_session web now id csrf r tok who s).1
  unfolding open_session
  open-IsWithin now id csrf r tok who s h =
      let pruned = prune-IsWithin now s h in
      let kept = forget web r.session_cookie (live_sessions now s.cell s.sessions) in
      ground (
        arith,
        h,
        pruned,
        length-insert (digest web id) s.next kept,
        length-forget web r.session_cookie (live_sessions now s.cell s.sessions),
      )

  step-IsWithin : (x : Step) (s : Service) → IsWithin s → IsWithin (step web cfg x s)
  unfolding step take_transaction find_session use_session close_session drop_session
  step-IsWithin (logs_in now state browser verifier r) s h =
      login-IsWithin now state browser verifier r s h
  step-IsWithin (takes now r) s h = elim (Option-cases r.login_cookie) [
    | inl nothing ↦ ground (arith, h, nothing)
    | inr (b, there) ↦ ground (arith, h, there, length-delete (digest web b) s.transactions)
  ]
  step-IsWithin (opens now id csrf r tok who) s h = open-IsWithin now id csrf r tok who s h
  step-IsWithin (finds now r) s h = elim (Option-cases r.session_cookie) [
    | inl nothing ↦ ground (arith, h, nothing)
    | inr (b, there) ↦ ground (arith, h, there, length-delete (digest web b) s.sessions)
  ]
  step-IsWithin (uses now p r k) s h = ground (arith, h)
  step-IsWithin (closes r k) s h = ground (arith, h)
  step-IsWithin (drops r) s h = omega (arith, h, length-forget web r.session_cookie s.sessions)

  -- However many requests are served, and in whichever order their critical sections interleave, the
  -- service never holds more than 10000 transactions or more than 10000 sessions, if it did not at
  -- the start.
  pub steps_bounded :
      (xs : List Step) (s : Service)
      → (length s.transactions ≤ 10000) × (length s.sessions ≤ 10000)
      → let s' = steps web cfg xs s in
        (length s'.transactions ≤ 10000) × (length s'.sessions ≤ 10000)
  unfolding steps
  steps_bounded [] s h = h
  steps_bounded (x ∷ xs) s h = steps_bounded xs (step web cfg x s) (step-IsWithin x s h)
