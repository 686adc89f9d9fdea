-- ===== src/Account/Once.antt =====
-- The login cookie in the callback.
use vector_transfer.Base.{
  ℕ, ◌+◌, ◌*◌, String, ◌≡◌, refl, inl, inr, true, false, none, some, List, [], ◌∷◌, arith, ◌==◌,
  Option-cases, All, ==_refl,
}
use vector_transfer.Base.Result.{unauthorized, err}
use vector_transfer.Base.Dict.{Dict, lookup, lookup-insert, lookup-delete}
use vector_transfer.Account.{Config, Web, Request, digest, same_origin}
use vector_transfer.Account.Sessions.{
  Service, Transaction, Provider, login, live_transactions, take_transaction, open_session,
  find_session, use_session, close_session, drop_session,
}
use vector_transfer.Account.Sessions.Handlers.{
  Step, logs_in, takes, opens, finds, uses, closes, drops, step, steps, callback,
}

module _ (web : Web) (cfg : Config) (browser : String) where
  -- No transaction is stored for the cookie.
  abbrev IsTaken : Service → Type 0
  IsTaken s = lookup (digest web browser) s.transactions ≡ none

  -- The step is no login that draws a cookie with the same digest.
  abbrev pub IsOther : Step → Type 0
  IsOther (logs_in now state browser' verifier r) =
      (digest web browser' == digest web browser) ≡ false
  IsOther other = Unit

  live-IsTaken :
      (now : ℕ) (m : Dict Transaction)
      → lookup (digest web browser) m ≡ none
      → lookup (digest web browser) (live_transactions now m) ≡ none
  unfolding live_transactions lookup
  live-IsTaken now [] h = h
  live-IsTaken now ((k, t) ∷ m) h = ground (arith, h, live-IsTaken now m)

  step-IsTaken : (x : Step) (s : Service) → IsOther x → IsTaken s → IsTaken (step web cfg x s)
  unfolding step login take_transaction open_session find_session use_session close_session
      drop_session
  step-IsTaken (logs_in now state browser' verifier r) s other h = ground (
    arith,
    h,
    other,
    live-IsTaken now s.transactions h,
    lookup-insert (digest web browser) (digest web browser')
        (record { verifier = verifier; state = state; expires = now + 300 * 1000000000 })
        (live_transactions now s.transactions),
  )
  step-IsTaken (takes now r) s other h = elim (Option-cases r.login_cookie) [
    | inl nothing ↦ ground (arith, h, nothing)
    | inr (b, there) ↦
        ground (arith, h, there, lookup-delete (digest web browser) (digest web b) s.transactions)
  ]
  step-IsTaken (opens now id csrf r tok who) s other h =
      ground (arith, h, live-IsTaken now s.transactions h)
  step-IsTaken (finds now r) s other h = ground (arith, h)
  step-IsTaken (uses now p r k) s other h = ground (arith, h)
  step-IsTaken (closes r k) s other h = ground (arith, h)
  step-IsTaken (drops r) s other h = h

  steps-IsTaken :
      (xs : List Step) (s : Service) → All IsOther xs → IsTaken s → IsTaken (steps web cfg xs s)
  unfolding steps
  steps-IsTaken [] s others h = h
  steps-IsTaken (x ∷ xs) s others h =
      steps-IsTaken xs (step web cfg x s) others.1 (step-IsTaken x s others.0 h)

  take_lem :
      (now : ℕ) (r : Request) (s : Service)
      → same_origin web cfg r ≡ true
      → r.login_cookie ≡ some browser
      → IsTaken (take_transaction web cfg now r s).1
  unfolding take_transaction
  take_lem now r s same cookie = ground (
    arith,
    same,
    cookie,
    lookup-delete (digest web browser) (digest web browser) s.transactions,
    ==_refl (digest web browser),
  )

  taken_refused :
      (now : ℕ) (r : Request) (s : Service)
      → r.login_cookie ≡ some browser
      → IsTaken s
      → (take_transaction web cfg now r s).0 ≡ err unauthorized
  unfolding take_transaction
  taken_refused now r s cookie h = ground (arith, cookie, h)

  -- A login cookie serves one callback: after a callback from the service's origin has named it, and
  -- whatever became of that callback, every later one with the cookie is unauthorized, as long as no
  -- login draws a cookie with the same digest.
  pub callback_once :
      (now now' later : ℕ) (r r' : Request) (p : Provider) (id csrf : String) (s : Service)
      (meanwhile others : List Step)
      → same_origin web cfg r ≡ true
      → r.login_cookie ≡ some browser
      → r'.login_cookie ≡ some browser
      → All IsOther meanwhile
      → (callback web cfg now' later p id csrf r' others
          (steps web cfg meanwhile (take_transaction web cfg now r s).1)).0
        ≡ err unauthorized
  unfolding callback
  callback_once now now' later r r' p id csrf s meanwhile others same cookie cookie' fresh =
      let s' = steps web cfg meanwhile (take_transaction web cfg now r s).1 in
      let taken : IsTaken s' = steps-IsTaken meanwhile _ fresh (take_lem now r s same cookie) in
      let no_transaction = taken_refused now' r' s' cookie' taken in
      rw (callback, no_transaction) refl
