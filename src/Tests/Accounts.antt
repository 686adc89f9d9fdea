-- ===== src/Tests/Accounts.antt =====
-- A sign-in, a session and its end in the account service.
use vector_transfer.Base.{
  ◌*◌, ◌≡◌, refl, ◌↔◌, ◌⊎◌, inr, true, false, none, some, List, [], ◌∷◌, arith, ◌==◌, eqb,
  if◌then◌else◌, pos, codes,
}
use vector_transfer.Base.Result.{Error, unavailable, unauthorized, ok, err}
use vector_transfer.Base.Dict.{lookup, insert}
use vector_transfer.Control.Job.{second}
use vector_transfer.Account.{
  Config, Url, Web, Request, answered, Tokens, Profile, Principal, digest, same_origin, exchange,
  principal, owner_id,
}
use vector_transfer.Account.Sessions.{
  Service, Session, Provider, login, prune, live_transactions, live_sessions, take_transaction,
  use_session, close_session,
}
use vector_transfer.Account.Sessions.Handlers.{
  Step, logs_in, takes, finds, uses, step, steps, authenticate, callback,
}
use vector_transfer.Account.Closed.{logout_final}
use vector_transfer.Account.Once.{callback_once}
use vector_transfer.Account.Capacity.{IsWithin, steps_bounded}
use vector_transfer.Account.Flow.SignIn.{sign_in_works}
use vector_transfer.Account.Answers.{IsDown, Names, principal_iff}

abbrev public_url : Url
public_url = record {
  scheme = "https";
  host = "app.test";
  has_user = false;
  raw_query = "";
  fragment = "";
  path = "";
}

-- Two digests: of texts that start with a "b", and of all others.
abbrev web : Web
web = record {
  parse_url = λ v. some public_url;
  equal_fold = λ a b. a == b;
  sha256_hex = λ bytes. elim bytes [ [] ↦ "d0" | x ∷ rest ↦ if eqb x b'b' then "d1" else "d2" ];
}

abbrev cfg : Config
cfg = record {
  public_url = "https://app.test";
  account_url = "https://account.test";
  api_url = "https://api.test";
  cognito_url = "https://id.test";
  client_id = "client";
}

abbrev visit : Request
visit = record {
  method = "GET";
  host = "app.test";
  origin = "";
  authorization = "";
  csrf_token = "";
  session_cookie = none;
  login_cookie = none;
  state = "";
  login_code = "";
  login_error = "";
  over_tls = true;
  forwarded_proto = "";
}

abbrev returning : Request
returning = record visit { login_cookie = some "browser"; state = "state"; login_code = "code" }

abbrev signed_in_visit : Request
signed_in_visit = record visit { session_cookie = some "id" }

abbrev leaving : Request
leaving = record signed_in_visit {
  method = "POST";
  origin = "https://app.test";
  csrf_token = "csrf";
}

abbrev token : Tokens
token = record {
  access = "access";
  refresh = "refresh";
  expires_in = pos 3600;
  token_type = "Bearer";
}

abbrev profile : Profile
profile = record { subject = "alice"; email = ""; email_verified = false }

abbrev alice : Principal
alice = record { profile = profile; owner_id = "d2" }

abbrev provider : Provider
provider = record {
  redeem = λ code verifier. answered 200 (some token);
  renew = λ refresh. answered 200 (some token);
  me = λ access. answered 200 (some profile);
}

abbrev blank_session : Session
blank_session = record {
  access = "";
  refresh = "";
  csrf = "";
  expires = 0;
  deadline = 0;
  subject = "";
  closed = true;
}

abbrev idle : Service
idle = record { transactions = []; sessions = []; cell = λ k. blank_session; next = 0 }

abbrev open_cell : Session
open_cell = record {
  access = "access";
  refresh = "refresh";
  csrf = "csrf";
  expires = 3600 * second;
  deadline = 28800 * second;
  subject = "alice";
  closed = false;
}

abbrev busy : Service
busy = record { transactions = []; sessions = ("d2", 0) ∷ []; cell = λ k. open_cell; next = 1 }

logout_final_example :
    (use_session web cfg 9 provider signed_in_visit 0
      (steps web cfg (logs_in 7 "s" "browser" "v" visit ∷ []) (close_session leaving 0 busy).1)).0
    ≡ err unauthorized
unfolding close_session
logout_final_example =
    logout_final web cfg 0 leaving signed_in_visit busy (logs_in 7 "s" "browser" "v" visit ∷ []) 9
      provider (omega arith) refl

callback_once_example :
    (callback web cfg 8 9 provider "id" "csrf" returning [] (
      steps web cfg
        (finds 7 visit ∷ [])
        (take_transaction web cfg 6 returning
          (login web cfg 5 "state" "browser" "v" visit idle).1).1)).0
    ≡ err unauthorized
unfolding same_origin
callback_once_example =
    callback_once web cfg "browser" 6 8 9 returning returning provider "id" "csrf"
      (login web cfg 5 "state" "browser" "v" visit idle).1 (finds 7 visit ∷ []) [] refl refl refl
      (tt, tt)

steps_bounded_example :
    IsWithin (steps web cfg (logs_in 5 "state" "browser" "v" visit ∷ takes 6 returning ∷ []) busy)
steps_bounded_example =
    steps_bounded web cfg (logs_in 5 "state" "browser" "v" visit ∷ takes 6 returning ∷ []) busy
      (omega arith, omega arith)

-- Another visitor's login comes before the callback, and another request with the session after it.
abbrev other_login : List Step
other_login = logs_in 0 "state-2" "other" "v-2" visit ∷ []

abbrev other_use : List Step
other_use = uses 3 provider signed_in_visit 0 ∷ []

sign_in_works_example :
    let after_login = (login web cfg 0 "state" "browser" "v" visit idle).1 in
    let signed_in =
      callback web cfg 1 2 provider "id" "csrf" returning []
        (steps web cfg other_login after_login) in
    (signed_in.0 ≡ ok "id")
    × ((authenticate web cfg 3 4 provider signed_in_visit []
          (steps web cfg other_use signed_in.1)).0
        ≡ ok alice)
unfolding login same_origin exchange principal prune take_transaction live_transactions
    live_sessions codes lookup insert steps step digest
sign_in_works_example =
    sign_in_works web cfg 0 1 2 3 4 provider "state" "browser" "v" "id" "csrf" visit returning
      signed_in_visit idle token alice other_login [] other_use [] refl ((refl, omega arith), tt)
      refl refl refl refl refl (omega arith) refl refl (omega arith)
      (inr (omega arith, (alice, refl, refl)), tt) tt refl refl refl refl (omega arith)
      (omega arith)

principal_iff_example :
    ((principal web cfg (answered 429 (some profile)) ≡ err unavailable)
      ↔ IsDown (answered 429 (some profile)))
    × ((principal web cfg (answered 429 (some profile)) ≡ ok alice) ↔ (
        Names (answered 429 (some profile)) profile × (alice.owner_id ≡ owner_id web cfg "alice")))
    × ((e : Error)
        → principal web cfg (answered 429 (some profile)) ≡ err e
        → (e ≡ unavailable) ⊎ (e ≡ unauthorized))
principal_iff_example = principal_iff web cfg (answered 429 (some profile)) alice
