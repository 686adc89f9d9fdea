-- ===== src/Account/Sessions/Handlers.antt =====
-- The handlers of accountauth/session.go, as their critical sections with what other requests do in
-- between.
use vector_transfer.Base.{ℕ, String, not, ◌||◌, none, some, List, [], ◌∷◌, if◌then◌else◌, ◌!=◌}
use vector_transfer.Base.Result.{unauthorized, Result, ok, err}
use vector_transfer.Account.{Config, Web, Request, Tokens, Principal, same_origin, principal}
use vector_transfer.Account.Sessions.{
  Service, Provider, login, take_transaction, sign_in, open_session, find_session, use_session,
  bearer_token, close_session, drop_session,
}

-- One of the critical sections, with what its request brings.
pub data Step : Type 0 where
  logs_in : ℕ → String → String → String → Request → Step
  takes : ℕ → Request → Step
  opens : ℕ → String → String → Request → Tokens → Principal → Step
  finds : ℕ → Request → Step
  uses : ℕ → Provider → Request → ℕ → Step
  closes : Request → ℕ → Step
  drops : Request → Step

unfoldable pub step : Web → Config → Step → Service → Service
step web cfg (logs_in now state browser verifier r) s =
    (login web cfg now state browser verifier r s).1
step web cfg (takes now r) s = (take_transaction web cfg now r s).1
step web cfg (opens now id csrf r tok who) s = (open_session web now id csrf r tok who s).1
step web cfg (finds now r) s = (find_session web now r s).1
step web cfg (uses now p r ref) s = (use_session web cfg now p r ref s).1
step web cfg (closes r ref) s = (close_session r ref s).1
step web cfg (drops r) s = drop_session web r s

unfoldable pub steps : Web → Config → List Step → Service → Service
unfolding step
steps web cfg [] s = s
steps web cfg (x ∷ rest) s = steps web cfg rest (step web cfg x s)

-- `callback`: `meanwhile` is what other requests do while the provider is asked. The answer is the new
-- session cookie.
unfoldable pub callback :
    Web
    → Config
    → ℕ
    → ℕ
    → Provider
    → String
    → String
    → Request
    → List Step
    → Service
    → Result String × Service
callback web cfg now later p id csrf r meanwhile s =
    let (taken, s1) = take_transaction web cfg now r s in
    let s2 = steps web cfg meanwhile s1 in
    elim taken [
      | err e ↦ (err e, s1)
      | ok t ↦ elim (sign_in web cfg p r t) [
        | err e ↦ (err e, s2)
        | ok (tok, who) ↦ open_session web later id csrf r tok who s2
      ]
    ]

-- `Authenticate`: `meanwhile` is what other requests do between the two critical sections.
unfoldable pub authenticate :
    Web → Config → ℕ → ℕ → Provider → Request → List Step → Service → Result Principal × Service
authenticate web cfg now later p r meanwhile s =
    let (found, s1) = find_session web now r s in
    if not (same_origin web cfg r)
    then (err unauthorized, s)
    else if r.authorization != ""
    then elim (bearer_token r.authorization) [
      | none ↦ (err unauthorized, s)
      | some token ↦ (principal web cfg (p.me token), s)
    ]
    else elim found [
      | none ↦ (err unauthorized, s1)
      | some ref ↦ use_session web cfg later p r ref (steps web cfg meanwhile s1)
    ]

-- `logout`: `between` and `meanwhile` are what other requests do between its critical sections.
unfoldable pub logout :
    Web → Config → ℕ → Request → List Step → List Step → Service → Result (Unit {0}) × Service
logout web cfg now r between meanwhile s =
    let (found, s1) = find_session web now r s in
    let s2 = steps web cfg between s1 in
    elim found [
      | none ↦ (err unauthorized, s1)
      | some ref ↦
          let (closed, s3) = close_session r ref s2 in
          if not (same_origin web cfg r) || r.origin != cfg.public_url || r.authorization != ""
          then (err unauthorized, s1)
          else elim closed [
            | err e ↦ (err e, s3)
            | ok _ ↦ (ok tt, drop_session web r (steps web cfg meanwhile s3))
          ]
    ]
