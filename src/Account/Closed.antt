-- ===== src/Account/Closed.antt =====
-- Sessions that have been closed, whoever still holds them.
use vector_transfer.Base.{ℕ, ◌<◌, ◌≡◌, subst, inl, inr, true, List, [], ◌∷◌, arith, eqb, Bool-cases}
use vector_transfer.Base.Result.{unauthorized, ok, err}
use vector_transfer.Account.{Config, Web, Request}
use vector_transfer.Account.Sessions.{
  Service, Provider, login, take_transaction, open_session, find_session, use_session,
  close_session, drop_session,
}
use vector_transfer.Account.Sessions.Handlers.{
  Step, logs_in, takes, opens, finds, uses, closes, drops, step, steps,
}

-- The session is allocated and closed.
abbrev pub IsClosed : ℕ → Service → Type 0
IsClosed ref s = (ref < s.next) × ((s.cell ref).closed ≡ true)

module _ (web : Web) (cfg : Config) (ref : ℕ) where
  use-IsClosed :
      (now : ℕ) (p : Provider) (r : Request) (k : ℕ) (s : Service)
      → IsClosed ref s
      → IsClosed ref (use_session web cfg now p r k s).1
  unfolding use_session
  use-IsClosed now p r k s h = elim (Bool-cases (eqb ref k)) [
    | inl same ↦
        let k_closed : (s.cell k).closed ≡ true =
          subst (λ i. (s.cell i).closed ≡ true) (ground (arith, same)) h.1 in
        rw (use_session, k_closed) h
    | inr other ↦ ground (arith, other, h)
  ]

  step-IsClosed : (x : Step) (s : Service) → IsClosed ref s → IsClosed ref (step web cfg x s)
  unfolding step login take_transaction open_session find_session close_session drop_session
  step-IsClosed (logs_in now state browser verifier r) s h = ground (arith, h)
  step-IsClosed (takes now r) s h = ground (arith, h)
  step-IsClosed (opens now id csrf r tok who) s h = ground (arith, h)
  step-IsClosed (finds now r) s h = ground (arith, h)
  step-IsClosed (uses now p r k) s h = use-IsClosed now p r k s h
  step-IsClosed (closes r k) s h = ground (arith, h)
  step-IsClosed (drops r) s h = h

  steps-IsClosed :
      (xs : List Step) (s : Service) → IsClosed ref s → IsClosed ref (steps web cfg xs s)
  unfolding steps
  steps-IsClosed [] s h = h
  steps-IsClosed (x ∷ xs) s h = steps-IsClosed xs (step web cfg x s) (step-IsClosed x s h)

  refused_if_closed :
      (now : ℕ) (p : Provider) (r : Request) (s : Service)
      → IsClosed ref s
      → (use_session web cfg now p r ref s).0 ≡ err unauthorized
  unfolding use_session
  refused_if_closed now p r s h = ground (arith, h)

  -- Once the section of logout that closes a session has succeeded, the part of Authenticate under
  -- the session's mutex answers unauthorized for that session, for every request that has found the
  -- session before, whatever else the service does in between and whatever the provider answers.
  pub logout_final :
      (r r' : Request) (s : Service) (later : List Step) (now : ℕ) (p : Provider)
      → ref < s.next
      → (close_session r ref s).0 ≡ ok tt
      → (use_session web cfg now p r' ref (steps web cfg later (close_session r ref s).1)).0
        ≡ err unauthorized
  unfolding close_session
  logout_final r r' s later now p allocated closed =
      refused_if_closed now p r' _ (steps-IsClosed later _ (ground (arith, allocated, closed)))
