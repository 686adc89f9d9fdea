-- ===== src/Account/Sessions.antt =====
-- The sign-in and the sessions of accountauth/session.go. Each function is one critical section, under
-- the service's mutex or a session's; between two of them other requests may be served.
pub mod Handlers
use vector_transfer.Base.{
  ℕ, ◌+◌, ◌*◌, String, Bool, true, false, not, ◌&&◌, ◌||◌, Option, none, some, List, [], ◌∷◌, ◌==◌,
  ltb, leb, eqb, if◌then◌else◌, length, ◌!=◌, byte_length, pos_part, cut_prefix,
}
use vector_transfer.Base.Result.{unavailable, unauthorized, Result, ok, err, ◌>>=◌}
use vector_transfer.Base.Dict.{Dict, lookup, insert, delete}
use vector_transfer.Control.Job.{second}
use vector_transfer.Account.{
  Config, Web, Request, Reply, Tokens, Profile, Principal, digest, same_origin, is_read, exchange,
  principal,
}

-- `transaction` and `session`.
pub record Transaction : Type 0 where
  pub verifier : String
  pub state : String
  pub expires : ℕ

pub record Session : Type 0 where
  pub access : String
  pub refresh : String
  pub csrf : String
  pub expires : ℕ
  pub deadline : ℕ
  pub subject : String
  pub closed : Bool

-- `Service`. A `*session` is a number, under which `cell` holds the session; those from `next` on have
-- not been allocated. A request may hold one that the map has lost.
pub record Service : Type 0 where
  pub transactions : Dict Transaction
  pub sessions : Dict ℕ
  pub cell : ℕ → Session
  pub next : ℕ

-- The answers of the identity provider and of the account API: to a code with its verifier, to a refresh
-- token, and to an access token.
pub record Provider : Type 0 where
  pub redeem : String → String → Reply Tokens
  pub renew : String → Reply Tokens
  pub me : String → Reply Profile

abbrev pub set_cell : ℕ → Session → (ℕ → Session) → ℕ → Session
set_cell ref x cell k = if eqb k ref then x else cell k

abbrev pub capacity : ℕ
capacity = 10000

-- `pruneLocked`.
unfoldable pub live_transactions : ℕ → Dict Transaction → Dict Transaction
live_transactions now [] = []
live_transactions now ((k, t) ∷ rest) =
    let kept = live_transactions now rest in if ltb now t.expires then (k, t) ∷ kept else kept

unfoldable pub live_sessions : ℕ → (ℕ → Session) → Dict ℕ → Dict ℕ
live_sessions now cell [] = []
live_sessions now cell ((k, ref) ∷ rest) =
    let kept = live_sessions now cell rest in
    if ltb now (cell ref).deadline then (k, ref) ∷ kept else kept

unfoldable pub prune : ℕ → Service → Service
prune now s = record s {
  transactions = live_transactions now s.transactions;
  sessions = live_sessions now s.cell s.sessions;
}

-- What `login` answers: a status, or the login cookie with the parameters for the provider.
pub data LoginReply : Type 0 where
  refused : ℕ → LoginReply
  sends : String → String → String → LoginReply

-- `login`, with its three random texts.
unfoldable pub login :
    Web → Config → ℕ → String → String → String → Request → Service → LoginReply × Service
unfolding prune digest
login web cfg now state browser verifier r s =
    let s' = prune now s in
    if not (same_origin web cfg r)
    then (refused 403, s)
    else if leb capacity (length s'.transactions) || leb capacity (length s'.sessions)
    then (refused 503, s')
    else (
      sends browser state verifier,
      record s' {
        transactions =
            insert (digest web browser)
              (record { verifier = verifier; state = state; expires = now + 300 * second })
              s'.transactions;
      },
    )

-- The first part of `callback`: the transaction that the login cookie names is used up.
unfoldable pub take_transaction :
    Web → Config → ℕ → Request → Service → Result Transaction × Service
unfolding digest
take_transaction web cfg now r s =
    if not (same_origin web cfg r) then (err unauthorized, s) else elim r.login_cookie [
      | none ↦ (err unauthorized, s)
      | some browser ↦
          let s' = record s { transactions = delete (digest web browser) s.transactions } in
          elim (lookup (digest web browser) s.transactions) [
            | none ↦ (err unauthorized, s')
            | some t ↦
                if ltb t.expires now
                  || t.state != r.state
                  || r.login_code == ""
                  || r.login_error != ""
                then (err unauthorized, s')
                else (ok t, s')
          ]
    ]

-- What `callback` asks the provider and the account API.
unfoldable pub sign_in :
    Web → Config → Provider → Request → Transaction → Result (Tokens × Principal)
sign_in web cfg p r t = exchange web (p.redeem r.login_code t.verifier) >>= λ tok.
    principal web cfg (p.me tok.access) >>= λ who. ok (tok, who)

abbrev pub forget : Web → Option String → Dict ℕ → Dict ℕ
forget web none sessions = sessions
forget web (some id) sessions = delete (digest web id) sessions

-- The last part of `callback`: a new session, under a random ID.
unfoldable pub open_session :
    Web → ℕ → String → String → Request → Tokens → Principal → Service → Result String × Service
unfolding prune digest
open_session web now id csrf r tok who s =
    let s' = prune now s in
    let x : Session = record {
      access = tok.access;
      refresh = tok.refresh;
      csrf = csrf;
      expires = now + pos_part tok.expires_in * second;
      deadline = now + 28800 * second;
      subject = who.profile.subject;
      closed = false;
    } in
    if leb capacity (length s'.sessions) then (err unavailable, s') else (
      ok id,
      record s' {
        sessions = insert (digest web id) s.next (forget web r.session_cookie s'.sessions);
        cell = set_cell s.next x s.cell;
        next = s.next + 1;
      },
    )

-- `lookup`: the session that the cookie names.
unfoldable pub find_session : Web → ℕ → Request → Service → Option ℕ × Service
unfolding digest
find_session web now r s = elim r.session_cookie [
  | none ↦ (none, s)
  | some id ↦ elim (lookup (digest web id) s.sessions) [
    | none ↦ (none, s)
    | some ref ↦
        if not (ltb now (s.cell ref).deadline)
        then (none, record s { sessions = delete (digest web id) s.sessions })
        else (some ref, s)
  ]
]

-- The access token's renewal in `Authenticate`: the session afterwards.
unfoldable pub renewed : Web → ℕ → Provider → Session → Result Session
renewed web now p x =
    if ltb (now + 30 * second) x.expires
    then ok x
    else if x.refresh == ""
    then err unauthorized
    else exchange web (p.renew x.refresh) >>= λ tok. ok (record x {
      access = tok.access;
      refresh = if tok.refresh != "" then tok.refresh else x.refresh;
      expires = now + pos_part tok.expires_in * second;
    })

-- The end of `Authenticate`: the profile must be of the session's subject.
unfoldable pub confirm :
    Web → Config → Provider → ℕ → Session → Service → Result Principal × Service
confirm web cfg p ref x s = elim (principal web cfg (p.me x.access)) [
  | err e ↦ (err e, record s { cell = set_cell ref x s.cell })
  | ok who ↦
      if who.profile.subject != x.subject
      then (err unauthorized, record s { cell = set_cell ref (record x { closed = true }) s.cell })
      else (ok who, record s { cell = set_cell ref x s.cell })
]

abbrev pub is_forged : Config → Request → Session → Bool
is_forged cfg r x = not (is_read r) && (r.origin != cfg.public_url || r.csrf_token != x.csrf)

-- The part of `Authenticate` under the session's mutex.
unfoldable pub use_session :
    Web → Config → ℕ → Provider → Request → ℕ → Service → Result Principal × Service
unfolding renewed confirm
use_session web cfg now p r ref s =
    let x = s.cell ref in
    if x.closed
    then (err unauthorized, s)
    else if is_forged cfg r x
    then (err unauthorized, s)
    else elim (renewed web now p x) [ err e ↦ (err e, s) | ok y ↦ confirm web cfg p ref y s ]

-- The bearer token of an `Authorization` header.
unfoldable pub bearer_token : String → Option String
bearer_token header = if ltb 16384 (byte_length header) then none else cut_prefix "Bearer " header

-- The part of `logout` under the session's mutex.
unfoldable pub close_session : Request → ℕ → Service → Result (Unit {0}) × Service
close_session r ref s =
    let x = s.cell ref in
    if r.csrf_token != x.csrf then (err unauthorized, s) else (
      ok tt,
      record s {
        cell = set_cell ref (record x { closed = true; access = ""; refresh = "" }) s.cell;
      },
    )

-- The end of `logout`.
unfoldable pub drop_session : Web → Request → Service → Service
drop_session web r s = record s { sessions = forget web r.session_cookie s.sessions }
