-- ===== src/Account/Flow/Logins.antt =====
-- What the service's other requests leave of a login in progress.
use vector_transfer.Base.{
  ℕ, ◌+◌, ◌*◌, ◌<◌, String, ◌≡◌, inl, inr, Bool, false, Option, none, some, List, [], ◌∷◌, arith,
  ◌==◌, Bool-cases, Option-cases, All,
}
use vector_transfer.Base.Dict.{Dict, lookup, lookup-insert, lookup-delete}
use vector_transfer.Account.{Config, Web, Request, digest}
use vector_transfer.Control.Job.{second}
use vector_transfer.Account.Sessions.{
  Service, Transaction, login, live_transactions, take_transaction, open_session, find_session,
  use_session, close_session, drop_session,
}
use vector_transfer.Account.Sessions.Handlers.{
  Step, logs_in, takes, opens, finds, uses, closes, drops, step, steps,
}

live_transactions-some :
    (now : ℕ) (k : String) (t : Transaction) (m : Dict Transaction)
    → lookup k m ≡ some t
    → now < t.expires
    → lookup k (live_transactions now m) ≡ some t
unfolding live_transactions lookup
live_transactions-some now k t [] h timely = h
live_transactions-some now k t ((j, t') ∷ m) h timely =
    let later = live_transactions-some now k t m in
    elim (Bool-cases (j == k)) [
      | inl here ↦ ground (arith, here, h, timely)
      | inr there ↦ ground (arith, there, h, timely, later)
    ]

module _ (web : Web) (cfg : Config) where
  -- The cookie has this digest.
  abbrev pub names : Option String → String → Bool
  names none d = false
  names (some c) d = digest web c == d

  module _ (d : String) (t : Transaction) where
    -- The step neither names the login nor draws a cookie of its digest, and comes while it is open.
    abbrev pub IsAside : Step → Type 0
    IsAside (logs_in now state browser verifier r) =
        ((digest web browser == d) ≡ false) × (now < t.expires)
    IsAside (takes now r) = names r.login_cookie d ≡ false
    IsAside (opens now id csrf r tok who) = now < t.expires
    IsAside other = Unit

    abbrev IsStarted : Service → Type 0
    IsStarted s = lookup d s.transactions ≡ some t

    login-IsStarted :
        (now : ℕ) (state browser verifier : String) (r : Request) (s : Service)
        → (digest web browser == d) ≡ false
        → now < t.expires
        → IsStarted s
        → IsStarted (login web cfg now state browser verifier r s).1
    unfolding login
    login-IsStarted now state browser verifier r s other timely h = ground (
      arith,
      h,
      other,
      live_transactions-some now d t s.transactions h timely,
      lookup-insert d (digest web browser)
          (record { verifier = verifier; state = state; expires = now + 300 * second })
          (live_transactions now s.transactions),
    )

    take-IsStarted :
        (now : ℕ) (r : Request) (s : Service)
        → names r.login_cookie d ≡ false
        → IsStarted s
        → IsStarted (take_transaction web cfg now r s).1
    unfolding take_transaction
    take-IsStarted now r s other h = elim (Option-cases r.login_cookie) [
      | inl nothing ↦ ground (arith, h, nothing)
      | inr (b, there) ↦
          ground (arith, h, there, other, lookup-delete d (digest web b) s.transactions)
    ]

    step-IsStarted :
        (x : Step) (s : Service) → IsAside x → IsStarted s → IsStarted (step web cfg x s)
    unfolding step open_session find_session use_session close_session drop_session
    step-IsStarted (logs_in now state browser verifier r) s aside h =
        login-IsStarted now state browser verifier r s aside.0 aside.1 h
    step-IsStarted (takes now r) s aside h = take-IsStarted now r s aside h
    step-IsStarted (opens now id csrf r tok who) s aside h =
        ground (arith, h, live_transactions-some now d t s.transactions h aside)
    step-IsStarted (finds now r) s aside h = ground (arith, h)
    step-IsStarted (uses now p r k) s aside h = ground (arith, h)
    step-IsStarted (closes r k) s aside h = ground (arith, h)
    step-IsStarted (drops r) s aside h = h

    pub steps-IsStarted :
        (xs : List Step) (s : Service)
        → All IsAside xs
        → IsStarted s
        → IsStarted (steps web cfg xs s)
    unfolding steps
    steps-IsStarted [] s aside h = h
    steps-IsStarted (x ∷ xs) s aside h =
        steps-IsStarted xs (step web cfg x s) aside.1 (step-IsStarted x s aside.0 h)
