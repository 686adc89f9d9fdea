-- ===== src/Account/Flow/SignIn.antt =====
-- A sign-in from its start to the first request with the session.
use vector_transfer.Base.{
  ℕ, ◌+◌, ◌*◌, ◌≤◌, ◌<◌, String, ◌≡◌, sym, ap, ◌∙◌, true, false, some, List, arith, ◌==◌, eq_iff,
  length, All, ==_refl, pos_part,
}
use vector_transfer.Base.Result.{Result, ok}
use vector_transfer.Base.Dict.{lookup, lookup-insert}
use vector_transfer.Account.{
  Config, Web, Request, Tokens, Principal, digest, same_origin, is_read, exchange, principal,
}
use vector_transfer.Control.Job.{second}
use vector_transfer.Account.Sessions.{
  Service, Session, Transaction, Provider, login, prune, live_transactions, live_sessions,
  take_transaction, open_session, find_session, use_session, forget, capacity, sign_in, sends,
}
use vector_transfer.Account.Sessions.Handlers.{Step, steps, authenticate, callback}
use vector_transfer.Account.Flow.Logins.{IsAside, steps-IsStarted}
use vector_transfer.Account.Flow.Kept.{IsApart, steps-IsHeld}

module _ (web : Web) (cfg : Config) where
  -- The transaction that login stores, and the session that the callback makes.
  abbrev pub new_login : ℕ → String → String → Transaction
  new_login now state verifier = record {
    verifier = verifier;
    state = state;
    expires = now + 300 * second;
  }

  abbrev pub new_session : ℕ → String → Tokens → Principal → Session
  new_session now csrf tok who = record {
    access = tok.access;
    refresh = tok.refresh;
    csrf = csrf;
    expires = now + pos_part tok.expires_in * second;
    deadline = now + 28800 * second;
    subject = who.profile.subject;
    closed = false;
  }

  -- The service when the callback makes the session, after a login, the requests `before` the callback, its
  -- first section, and the requests `during` it.
  abbrev pub service_after :
      ℕ
      → ℕ
      → String
      → String
      → String
      → Request
      → Request
      → List Step
      → List Step
      → Service
      → Service
  service_after t0 t1 state browser verifier r0 r1 before during s =
      steps web cfg during
        (take_transaction web cfg t1 r1
          (steps web cfg before (login web cfg t0 state browser verifier r0 s).1)).1

  -- The parts of a sign-in.
  login_stored :
      (now : ℕ) (state browser verifier : String) (r : Request) (s : Service)
      → (login web cfg now state browser verifier r s).0 ≡ sends browser state verifier
      → lookup (digest web browser) (login web cfg now state browser verifier r s).1.transactions
        ≡ some (record { verifier = verifier; state = state; expires = now + 300 * second })
  unfolding login
  login_stored now state browser verifier r s h =
      let t : Transaction = record {
        verifier = verifier;
        state = state;
        expires = now + 300 * second;
      } in
      ground (
        arith,
        h,
        ==_refl (digest web browser),
        lookup-insert (digest web browser) (digest web browser) t
            (live_transactions now s.transactions),
      )

  take_stored :
      (now : ℕ) (browser : String) (r : Request) (s : Service) (t : Transaction)
      → lookup (digest web browser) s.transactions ≡ some t
      → same_origin web cfg r ≡ true
      → r.login_cookie ≡ some browser
      → now ≤ t.expires
      → t.state ≡ r.state
      → (r.login_code == "") ≡ false
      → (r.login_error == "") ≡ true
      → (take_transaction web cfg now r s).0 ≡ ok t
  unfolding take_transaction
  take_stored now browser r s t at same cookie timely state code clean =
      ground (arith, at, same, cookie, timely, eq_iff t.state r.state, state, code, clean)

  open_stored :
      (now : ℕ) (id csrf : String) (r : Request) (tok : Tokens) (who : Principal) (s : Service)
      → length (prune now s).sessions < capacity
      → let result = open_session web now id csrf r tok who s in
        (result.0 ≡ ok id)
        × (s.next < result.1.next)
        × (lookup (digest web id) result.1.sessions ≡ some s.next)
        × (result.1.cell s.next ≡ new_session now csrf tok who)
  unfolding open_session
  open_stored now id csrf r tok who s room =
      let kept = forget web r.session_cookie (live_sessions now s.cell s.sessions) in
      ground (
        arith,
        room,
        ==_refl (digest web id),
        lookup-insert (digest web id) (digest web id) s.next kept,
      )

  find_stored :
      (now : ℕ) (id : String) (r : Request) (s : Service) (ref : ℕ)
      → r.session_cookie ≡ some id
      → lookup (digest web id) s.sessions ≡ some ref
      → now < (s.cell ref).deadline
      → find_session web now r s ≡ (some ref, s)
  unfolding find_session
  find_stored now id r s ref cookie at alive = ground (arith, cookie, at, alive)

  use_stored :
      (now : ℕ) (p : Provider) (r : Request) (ref : ℕ) (s : Service) (who : Principal)
      → (s.cell ref).closed ≡ false
      → is_read r ≡ true
      → now + 30 * second < (s.cell ref).expires
      → (s.cell ref).subject ≡ who.profile.subject
      → principal web cfg (p.me (s.cell ref).access) ≡ ok who
      → (use_session web cfg now p r ref s).0 ≡ ok who
  unfolding use_session
  use_stored now p r ref s who x_open reads fresh same_subject seen = ground (
    arith,
    x_open,
    reads,
    fresh,
    seen,
    eq_iff who.profile.subject (s.cell ref).subject,
    same_subject,
  )

  -- A sign-in works. If login has sent a browser to the provider, the browser comes back to the same
  -- origin within five minutes with its cookie, the state and a code, the provider and the account API
  -- answer soundly, and fewer than 10000 sessions are live, then the callback sets a session cookie, and
  -- Authenticate accepts a GET request with that cookie as the principal that the API has named, for
  -- eight hours while the access token has more than 30 seconds left. Other requests may be served at any
  -- point: those before the callback may neither name the login's cookie nor draw one of its digest, and
  -- come within the five minutes; those after it come within the eight hours, neither close the session,
  -- name its cookie in a callback or a logout, nor draw an ID of its digest, and use it only
  -- while its token is that fresh and the account API names its subject.
  pub sign_in_works :
      (t0 t1 t2 t3 t4 : ℕ) (p : Provider) (state browser verifier id csrf : String)
      (r0 r1 r2 : Request) (s : Service) (tok : Tokens) (who : Principal)
      (before during between inside : List Step)
      → (login web cfg t0 state browser verifier r0 s).0 ≡ sends browser state verifier
      → All (IsAside web cfg (digest web browser) (new_login t0 state verifier)) before
      → same_origin web cfg r1 ≡ true
      → r1.login_cookie ≡ some browser
      → r1.state ≡ state
      → (r1.login_code == "") ≡ false
      → (r1.login_error == "") ≡ true
      → t1 ≤ t0 + 300 * second
      → exchange web (p.redeem r1.login_code verifier) ≡ ok tok
      → principal web cfg (p.me tok.access) ≡ ok who
      → length
          (prune t2 (service_after t0 t1 state browser verifier r0 r1 before during s)).sessions
        < capacity
      → All
          (IsApart web cfg
            (digest web id)
            (service_after t0 t1 state browser verifier r0 r1 before during s).next
            (new_session t2 csrf tok who))
          between
      → All
          (IsApart web cfg
            (digest web id)
            (service_after t0 t1 state browser verifier r0 r1 before during s).next
            (new_session t2 csrf tok who))
          inside
      → same_origin web cfg r2 ≡ true
      → r2.authorization ≡ ""
      → r2.session_cookie ≡ some id
      → is_read r2 ≡ true
      → t3 < t2 + 28800 * second
      → t4 + 30 * second < t2 + pos_part tok.expires_in * second
      → let after_login = (login web cfg t0 state browser verifier r0 s).1 in
        let signed_in =
          callback web cfg t1 t2 p id csrf r1 during (steps web cfg before after_login) in
        (signed_in.0 ≡ ok id)
        × ((authenticate web cfg t3 t4 p r2 inside (steps web cfg between signed_in.1)).0 ≡ ok who)
  unfolding callback authenticate sign_in
  sign_in_works t0 t1 t2 t3 t4 p state browser verifier id csrf r0 r1 r2 s tok who before during
        between inside sent aside same1 cookie1 state1 code1 clean1 timely redeemed named room
        apart1 apart2 same2 no_header cookie2 reads alive fresh =
      let s0 = steps web cfg before (login web cfg t0 state browser verifier r0 s).1 in
      let t = new_login t0 state verifier in
      let x = new_session t2 csrf tok who in
      let taken =
        take_stored t1 browser r1 s0 t
          (steps-IsStarted web cfg (digest web browser) t before _ aside
            (login_stored t0 state browser verifier r0 s sent))
          same1 cookie1 timely (sym state1) code1 clean1 in
      let s2 = service_after t0 t1 state browser verifier r0 r1 before during s in
      let opened = open_stored t2 id csrf r1 tok who s2 room in
      let s3 = (open_session web t2 id csrf r1 tok who s2).1 in
      let s4 = steps web cfg between s3 in
      let s5 = steps web cfg inside s4 in
      let held4 =
        steps-IsHeld web cfg (digest web id) s2.next x between s3 apart1
          (opened.1, opened.2, opened.3) in
      let held5 = steps-IsHeld web cfg (digest web id) s2.next x inside s4 apart2 held4 in
      let found =
        find_stored t3 id r2 s4 s2.next cookie2 held4.1
          (rw (ap (λ (y : Session). y.deadline) held4.2) alive) in
      let used =
        use_stored t4 p r2 s2.next s5 who (ap (λ (y : Session). y.closed) held5.2) reads
          (rw (ap (λ (y : Session). y.expires) held5.2) fresh)
          (ap (λ (y : Session). y.subject) held5.2)
          (ap (λ (y : Session). principal web cfg (p.me y.access)) held5.2 ∙ named) in
      let header = (eq_iff r2.authorization "").1 no_header in
      let called : callback web cfg t1 t2 p id csrf r1 during s0
          ≡ open_session web t2 id csrf r1 tok who s2 =
        ground (arith, taken, redeemed, named) in
      let authenticated : (authenticate web cfg t3 t4 p r2 inside s4).0
          ≡ (use_session web cfg t4 p r2 s2.next s5).0 =
        ground (arith, same2, header, found) in
      (
        ap (λ (q : Result String × Service). q.0) called ∙ opened.0,
        ap
              (λ (q : Result String × Service).
                (authenticate web cfg t3 t4 p r2 inside (steps web cfg between q.1)).0)
              called
            ∙ authenticated
            ∙ used,
      )
