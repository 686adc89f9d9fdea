-- ===== src/Client.antt =====
-- The customer worker, worker/worker.go: its identity, its requests to the control plane and its
-- configuration.
pub mod Enroll
pub mod Rounds
pub mod Run
pub mod Reports
pub mod Agreement
pub mod SignOn
use vector_transfer.Base.{
  ℕ, zero, suc, ◌+◌, ◌-◌, ◌*◌, ◌/◌, ◌%◌, ◌^◌, ◌≤◌, ◌<◌, min, max, String, ◌≡◌, refl, sym, ap, ◌∙◌,
  subst, ◌≢◌, ◌↔◌, ◌⊎◌, inl, inr, Bool, true, false, not, ◌&&◌, ◌||◌, Option, none, some, List, [],
  ◌∷◌, ◌++◌, append-nil, append_assoc, arith, ◌==◌, eq_iff, ltb, leb, eqb, if◌then◌else◌, ltb→lt,
  ltb→le, leb→le, leb→lt, tests, Bool-cases, Option-cases, is_some, is_none, &&-eq_true, ||-eq_true,
  length, take, drop, any, all, count, All, In, length-append, take-append-drop, length-take-le,
  length-drop, any-In, all-In, ◌!=◌, ◌<>◌, byte_length, ==_refl, ==_sound, String-discrete, decimal,
  decimal_ℤ, ℤ, pos, negsuc, pos_part, neg_part, ltb_ℤ, eqb_ℤ, ◌≤ℤ◌, eqb_ℤ_sound, any-false,
  false-any, All-map, take-all, take-append_left, any-take, codes, trim_space, cut_prefix,
  trim_right_code,
}
use vector_transfer.Base.Result.{
  Error, not_found, conflict, forbidden, unavailable, unauthorized, canceled_context,
  journal_failed, vault_unavailable, workers_unavailable, message, Result, ok, err, ◌>>=◌, is_ok,
  Result-cases,
}
use vector_transfer.Base.Dict.{
  Dict, lookup, insert, delete, values, lookup-insert, lookup-delete, lookup-In, dict_laws,
}
use vector_transfer.Durable.{Calls, write}
use vector_transfer.Connector.{Binding}
use vector_transfer.Account.{Url, Reply, unreachable, answered}
use vector_transfer.Control.Job.{second}
use vector_transfer.Control.Workers.{WorkerConnection, WorkerPair, WorkerManifest}
use vector_transfer.Control.Workers.Sessions.{session_proof}
use vector_transfer.Control.Workers.Manifest.{validate_manifest}
use vector_transfer.Control.Views.{list_registry}
use vector_transfer.Control.Protocol.{SessionReply}

-- `Identity`.
pub record Identity : Type 0 where
  pub id : String
  pub url : String
  pub seed : List ℕ
  pub enrolled : Bool

-- `Client`. `file` is what identity.json holds.
pub record Client : Type 0 where
  pub file : Option Identity
  pub identity : Identity
  pub token : String
  pub token_until : ℕ

abbrev pub zero_identity : Identity
zero_identity = record { id = ""; url = ""; seed = []; enrolled = false }

-- url.Parse with Hostname, the loopback test of net.ParseIP, ed25519 and HMAC-SHA-256 under a seed,
-- encoding/base64, and Go's order of texts.
pub record Local : Type 0 where
  pub parse_url : String → Option Url
  pub hostname : Url → String
  pub is_loopback : String → Bool
  pub public_key : List ℕ → List ℕ
  pub sign : List ℕ → String → List ℕ
  pub encode64 : List ℕ → String
  pub hmac_hex : List ℕ → String → String
  pub before : String → String → Bool

-- ed25519.SeedSize.
abbrev pub seed_size : ℕ
seed_size = 32

-- `Open`, once the lock is held: what identity.json decodes to, and whether others may read the file.
-- `missing` is a file that does not exist.
pub data IdentityFile : Type 0 where
  missing : IdentityFile
  unreadable : IdentityFile
  holds : Identity → Bool → IdentityFile

abbrev invalid_identity : Error
invalid_identity = message "invalid worker identity; restore its original data directory"

unfoldable pub open_client : IdentityFile → Result Client
open_client missing =
    ok (record { file = none; identity = zero_identity; token = ""; token_until = 0 })
open_client unreadable = err invalid_identity
open_client (holds i others_may_read) =
    if not (eqb (length i.seed) seed_size) || not (eqb (byte_length i.id) 32)
    then err invalid_identity
    else if others_may_read
    then err (message "worker identity must have mode 0600")
    else ok (record { file = some i; identity = i; token = ""; token_until = 0 })

-- `ValidateURL`.
unfoldable pub validate_url : Local → String → Bool → Result String
validate_url l raw allow_local_http = elim (l.parse_url raw) [
  | none ↦ err (message "control plane must be an HTTPS origin")
  | some u ↦
      let is_local = l.hostname u == "localhost" || l.is_loopback (l.hostname u) in
      if u.host == ""
        || u.has_user
        || u.raw_query != ""
        || u.fragment != ""
        || (u.path != "" && u.path != "/")
      then err (message "control plane must be an HTTPS origin")
      else if u.scheme != "https" && not (allow_local_http && u.scheme == "http" && is_local)
      then err (
          message
            "control plane requires HTTPS; local development requires explicit loopback opt-in")
      else ok (trim_right_code b'/' raw)
]

-- The end of `call`, of what the control plane answers.
unfoldable pub receive {ℓ} : {A : Type ℓ} → Reply A → Client → Result A × Client
receive unreachable c = (err (message "control plane connection unavailable"), c)
receive (answered status body) c =
    if not (eqb status 200)
    then (
      err (message "control plane rejected worker request"),
      if eqb status 401 then record c { token = "" } else c,
    )
    else elim body [
      | none ↦ (err (message "invalid control plane response"), c)
      | some a ↦ (ok a, c)
    ]

-- What the control plane answers to a client that needs a session, with the times before and after: a
-- challenge, and a session for a challenge and a signature.
pub record Plane : Type 0 where
  pub now : ℕ
  pub later : ℕ
  pub challenge : Reply String
  pub opened : String → String → Reply SessionReply

abbrev pub signature : Local → Client → String → String
signature l c challenge =
    l.encode64 (l.sign c.identity.seed (session_proof c.identity.id challenge))

-- The client after the answer to its session request.
unfoldable pub keep_session : ℕ → Result SessionReply × Client → Result (Unit {0}) × Client
keep_session later (err e, c) = (err e, c)
keep_session later (ok s, c) =
    if not (eqb (byte_length s.token) 64)
      || ltb_ℤ s.expires_in (pos 60)
      || ltb_ℤ (pos 600) s.expires_in
    then (err (message "invalid worker session"), c)
    else (
      ok tt,
      record c { token = s.token; token_until = later + (pos_part s.expires_in - 30) * second },
    )

-- `session`.
unfoldable pub session : Local → Plane → Client → Result (Unit {0}) × Client
unfolding receive keep_session
session l p c =
    if c.token != "" && ltb p.now c.token_until
    then (ok tt, c)
    else let (r, c') = receive p.challenge c in
      elim r [
        | err e ↦ (err e, c')
        | ok challenge ↦
            if not (eqb (byte_length challenge) 64)
            then (err (message "invalid authentication challenge"), c')
            else keep_session p.later (receive (p.opened challenge (signature l c' challenge)) c')
      ]

-- `call` with authentication: `reply` is the answer to a request with this token.
unfoldable pub call {ℓ} :
    {A : Type ℓ} → Local → Plane → (String → Reply A) → Client → Result A × Client
unfolding session receive
call l p reply c =
    let (r, c') = session l p c in
    elim r [ err e ↦ (err e, c') | ok _ ↦ receive (reply c'.token) c' ]

-- hex.DecodeString succeeds.
is_hex_code : ℕ → Bool
is_hex_code x =
    (leb b'0' x && leb x b'9') || (leb b'a' x && leb x b'f') || (leb b'A' x && leb x b'F')

unfoldable pub is_hex : String → Bool
unfolding is_hex_code codes
is_hex s = all is_hex_code (codes s) && eqb (length (codes s) % 2) 0
