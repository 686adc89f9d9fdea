-- ===== src/Control/Workers.antt =====
-- The registry of customer workers, control/workers.go: registration, enrollment, sessions,
-- manifests. Each operation is one critical section of the registry's mutex.
pub mod Sessions
pub mod Manifest
pub mod Steps
pub mod Kept
pub mod Grants
pub mod Once
pub mod Open
use vector_transfer.Base.{
  ℕ, zero, suc, ◌+◌, ◌-◌, ◌*◌, ◌/◌, ◌%◌, ◌^◌, ◌≤◌, ◌<◌, min, max, String, ◌≡◌, refl, sym, ap, ◌∙◌,
  subst, ◌≢◌, ◌↔◌, ◌⊎◌, inl, inr, Bool, true, false, not, ◌&&◌, ◌||◌, Option, none, some, List, [],
  ◌∷◌, ◌++◌, append-nil, append_assoc, arith, ◌==◌, eq_iff, ltb, leb, eqb, if◌then◌else◌, ltb→lt,
  ltb→le, leb→le, leb→lt, tests, Bool-cases, Option-cases, is_some, is_none, &&-eq_true, ||-eq_true,
  length, take, drop, any, all, count, All, In, length-append, take-append-drop, length-take-le,
  length-drop, any-In, all-In, ◌!=◌, ◌<>◌, byte_length, ==_refl, ==_sound, String-discrete, decimal,
  decimal_ℤ, ℤ, pos, negsuc, pos_part, neg_part, ltb_ℤ, eqb_ℤ, ◌≤ℤ◌, eqb_ℤ_sound, any-false,
  false-any, All-map, take-all, take-append_left, any-take, codes,
}
use vector_transfer.Base.Result.{
  Error, not_found, conflict, forbidden, unavailable, unauthorized, canceled_context,
  journal_failed, vault_unavailable, workers_unavailable, message, Result, ok, err, ◌>>=◌, is_ok,
}
use vector_transfer.Base.Dict.{
  Dict, lookup, insert, delete, values, lookup-insert, lookup-delete, lookup-In, dict_laws,
}
use vector_transfer.Durable.{Calls, write}
use vector_transfer.Control.Job.{Owner, Spec, same_owner, second}

-- `WorkerConnection`, `WorkerPair`, `WorkerManifest`, `Worker`.
pub record WorkerConnection : Type 0 where
  pub name : String
  pub kind : String
  pub can_read : Bool
  pub can_write : Bool
  pub fingerprint : String
  pub resource : String

pub record WorkerPair : Type 0 where
  pub source : String
  pub sink : String
  pub dimension : ℤ

pub record WorkerManifest : Type 0 where
  pub connections : List WorkerConnection
  pub pairs : List WorkerPair

pub record Worker : Type 0 where
  pub id : String
  pub name : String
  pub owner : Option Owner
  pub public_key : String
  pub enrollment_hash : String
  pub enrollment_until : ℕ
  pub created_at : ℕ
  pub last_seen : Option ℕ
  pub revoked : Bool
  pub manifest : WorkerManifest

-- `workerSession` and `workerChallenge`.
pub record Grant : Type 0 where
  pub worker_id : String
  pub until : ℕ

-- `Workers`. `disk` is what workers.json holds.
pub record Workers : Type 0 where
  pub disk : Dict Worker
  pub entries : Dict Worker
  pub challenges : Dict Grant
  pub sessions : Dict Grant
  pub poison : Option Error

-- encoding/base64, crypto/ed25519, and the hexadecimal SHA-256 of `tokenDigest`.
pub record Crypto : Type 0 where
  pub decode64 : String → Option (List ℕ)
  pub verify : List ℕ → String → List ℕ → Bool
  pub token_digest : String → String

-- The regular expressions `[A-Za-z0-9_.-]{1,128}` and `[a-f0-9]{64}`, anchored at both ends.
abbrev pub is_between : ℕ → ℕ → ℕ → Bool
is_between lo hi x = leb lo x && leb x hi

is_name_code : ℕ → Bool
is_name_code x =
    is_between b'A' b'Z' x
    || is_between b'a' b'z' x
    || is_between b'0' b'9' x
    || eqb x b'_'
    || eqb x b'.'
    || eqb x b'-'

unfoldable pub is_worker_name : String → Bool
unfolding is_name_code codes
is_worker_name s = all is_name_code (codes s) && is_between 1 128 (length (codes s))

unfoldable pub is_digest : String → Bool
unfolding codes
is_digest s =
    all (λ x. is_between b'a' b'f' x || is_between b'0' b'9' x) (codes s)
    && eqb (length (codes s)) 64

-- `save`.
after_write : Result (Unit {0}) → Dict Worker → Workers → Result (Unit {0}) × Workers
after_write (ok _) disk w = (ok tt, record w { disk = disk })
after_write (err e) disk w = (err workers_unavailable, record w { disk = disk; poison = some e })

unfoldable pub save : Calls → Workers → Result (Unit {0}) × Workers
unfolding after_write write
save calls w = elim w.poison [
  | some e ↦ (err workers_unavailable, w)
  | none ↦ let (r, disk) = write calls w.entries w.disk in after_write r disk w
]

abbrev pub zero_worker : Worker
zero_worker = record {
  id = "";
  name = "";
  owner = none;
  public_key = "";
  enrollment_hash = "";
  enrollment_until = 0;
  created_at = 0;
  last_seen = none;
  revoked = false;
  manifest = record { connections = []; pairs = [] };
}

-- `Create`. `token` and `id` are the random texts. The result is the new worker and its token.
unfoldable pub create :
    Crypto
    → Calls
    → ℕ
    → String
    → String
    → Option Owner
    → String
    → Workers
    → Result (Worker × String) × Workers
unfolding save is_worker_name
create x calls now token id owner name w =
    let e : Worker = record zero_worker {
      id = id;
      name = name;
      owner = owner;
      created_at = now;
      enrollment_until = now + 600 * second;
      enrollment_hash = x.token_digest token;
    } in
    let mine =
      count (λ (o : Worker). same_owner o.owner owner && not o.revoked) (values w.entries) in
    let (r, w') = save calls (record w { entries = insert id e w.entries }) in
    if not (is_worker_name name)
    then (
      err (message "worker name must use 1–128 letters, digits, dots, underscores or hyphens"),
      w,
    )
    else if leb 20 mine || leb 1000 (length w.entries)
    then (err (message "worker registration limit reached"), w)
    else (elim r [ ok _ ↦ ok (e, id <> "." <> token) | err f ↦ err f ], w')

-- `Get`.
unfoldable pub get : String → Option Owner → Workers → Result Worker
get id owner w = elim w.poison [
  | some _ ↦ err workers_unavailable
  | none ↦ elim (lookup id w.entries) [
    | none ↦ err not_found
    | some e ↦
        if not (same_owner e.owner owner)
        then err not_found
        else if e.revoked
        then err forbidden
        else ok e
  ]
]

-- `Revoke`.
unfoldable pub revoke : Calls → String → Option Owner → Workers → Result (Unit {0}) × Workers
unfolding save
revoke calls id owner w = elim (lookup id w.entries) [
  | none ↦ (err not_found, w)
  | some e ↦
      if not (same_owner e.owner owner)
      then (err not_found, w)
      else save calls (record w {
        entries = insert id (record e { revoked = true; enrollment_hash = "" }) w.entries;
      })
]

-- ed25519.PublicKeySize.
abbrev pub public_key_size : ℕ
public_key_size = 32

abbrev pub is_public_key : Option (List ℕ) → Bool
is_public_key none = false
is_public_key (some bytes) = eqb (length bytes) public_key_size

-- `Enroll`.
unfoldable pub enroll :
    Crypto → Calls → ℕ → String → String → String → Workers → Result (Unit {0}) × Workers
unfolding save
enroll x calls now id token key w = elim w.poison [
  | some _ ↦ (err workers_unavailable, w)
  | none ↦ elim (lookup id w.entries) [
    | none ↦ (err forbidden, w)
    | some e ↦
        if e.revoked || not (is_public_key (x.decode64 key))
        then (err forbidden, w)
        else if e.public_key == key
        then (ok tt, w)
        else if e.public_key != ""
            || ltb e.enrollment_until now
            || x.token_digest token != e.enrollment_hash
        then (err forbidden, w)
        else save calls (record w {
          entries = insert id (record e { public_key = key; enrollment_hash = "" }) w.entries;
        })
  ]
]
