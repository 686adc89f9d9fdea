-- ===== src/Tests/Customers.antt =====
-- The registry of workers and the users' own connections.
use vector_transfer.Base.{
  ℕ, String, ◌≡◌, refl, ◌≢◌, true, false, none, some, List, [], ◌∷◌, ◌==◌, eq_iff, codes,
  trim_space,
}
use vector_transfer.Base.Result.{forbidden, ok, err}
use vector_transfer.Base.Dict.{lookup, insert}
use vector_transfer.Connector.{Binding}
use vector_transfer.Durable.{Calls, write}
use vector_transfer.Control.Job.{Owner, same_owner}
use vector_transfer.Control.Workers.{
  Workers, Worker, Crypto, Grant, zero_worker, get, revoke, enroll, save,
}
use vector_transfer.Control.Workers.Sessions.{issue_challenge, open_session, authenticate}
use vector_transfer.Control.Workers.Manifest.{touch}
use vector_transfer.Control.Workers.Steps.{Step, touches, asks, step, steps}
use vector_transfer.Control.Workers.Once.{challenge_once, enroll_once, revoked_refused}
use vector_transfer.Control.Connections
use vector_transfer.Control.Connections.{Connections, Entry, Definition, Provider, Sealing, create}
use vector_transfer.Control.Connections.Private.{
  Request, creating, handle_all, IsPrivateTo, connections_private,
}
use vector_transfer.Control.Connections.Retries.{create_retry}
use vector_transfer.Tests.Data.{binding}

-- A stand-in for the cryptography: every key decodes to 32 bytes, and every signature verifies.
abbrev key_bytes : List ℕ
key_bytes =
    1 ∷ 1 ∷ 1 ∷ 1 ∷ 1 ∷ 1 ∷ 1 ∷ 1 ∷ 1 ∷ 1 ∷ 1 ∷ 1 ∷ 1 ∷ 1 ∷ 1 ∷ 1 ∷ 1 ∷ 1 ∷ 1 ∷ 1 ∷ 1 ∷ 1 ∷ 1 ∷ 1
    ∷ 1 ∷ 1 ∷ 1 ∷ 1 ∷ 1 ∷ 1 ∷ 1 ∷ 1 ∷ []

abbrev crypto : Crypto
crypto = record { decode64 = λ s. some key_bytes; verify = λ k p s. true; token_digest = λ t. t }

abbrev all_well : Calls
all_well = record {
  marshaled = true;
  directory_made = true;
  temp_created = true;
  temp_written = true;
  temp_synced = true;
  temp_closed = true;
  renamed = true;
  directory_opened = true;
  directory_synced = true;
}

abbrev worker : Worker
worker = record zero_worker {
  id = "w-1";
  name = "edge";
  enrollment_hash = "token";
  enrollment_until = 600;
}

abbrev registry : Workers
registry = record {
  disk = [];
  entries = ("w-1", worker) ∷ [];
  challenges = ("c-1", record { worker_id = "w-1"; until = 60 }) ∷ [];
  sessions = ("t-1", record { worker_id = "w-1"; until = 60 }) ∷ [];
  poison = none;
}

==_differs : (a b : String) → (a == b) ≡ false → a ≢ b
==_differs a b h e = cc ((eq_iff a b).1 e, h)

-- A new challenge is issued, and the worker is seen, in between.
abbrev later_steps : List Step
later_steps = asks 5 "c-9" "w-1" ∷ touches all_well 5 "w-1" ∷ []

challenge_once_example :
    (open_session crypto 6 "t-3" "w-1" "c-1" "sig"
      (steps crypto later_steps (open_session crypto 5 "t-2" "w-1" "c-1" "sig" registry).1)).0
    ≡ err forbidden
unfolding open_session steps step issue_challenge touch save write lookup insert
challenge_once_example =
    challenge_once crypto 5 6 "t-2" "t-3" "w-1" "w-1" "c-1" "sig" "sig" registry later_steps refl
      (refl, (tt, tt)) refl

enroll_once_example :
    (enroll crypto all_well 6 "w-1" "token" "key-2"
      (steps crypto later_steps (enroll crypto all_well 5 "w-1" "token" "key-1" registry).1)).0
    ≡ err forbidden
unfolding enroll steps step issue_challenge touch save write lookup insert
enroll_once_example =
    enroll_once crypto all_well all_well 5 6 "w-1" "token" "token" "key-1" "key-2" registry
      later_steps (==_differs "key-1" "" refl) (==_differs "key-2" "key-1" refl) refl (tt, (tt, tt))
      refl

revoked_refused_example :
    let w' = (revoke all_well "w-1" none registry).1 in
    ((e : Worker) × (lookup "w-1" w'.disk ≡ some e) × (e.revoked ≡ true))
    × ((calls' : Calls) (now : ℕ) (token key : String)
        → (enroll crypto calls' now "w-1" token key w').0 ≡ err forbidden)
    × ((now : ℕ) (token challenge signature : String)
        → (open_session crypto now token "w-1" challenge signature w').0 ≡ err forbidden)
    × ((now : ℕ) (token : String) (g : Grant)
        → lookup (crypto.token_digest token) w'.sessions ≡ some g
        → g.worker_id ≡ "w-1"
        → authenticate crypto now token w' ≡ err forbidden)
    × (get "w-1" none w' ≡ err forbidden)
unfolding revoke lookup same_owner
revoked_refused_example = revoked_refused all_well "w-1" none registry crypto refl

-- Connections whose configuration is a text and whose credentials are a number.
abbrev provider : Provider String ℕ
provider = record {
  open_personal = λ c k. ok (binding c "fp" (some k) (some k));
  fingerprint = λ parts. "fingerprint";
  encode = λ d. codes d.label;
  mac = λ bytes. "00112233445566778899aabbccddeeff00112233445566778899aabbccddeeff";
}

abbrev sealing : Sealing
sealing = record {
  marshaled = true;
  nonce_drawn = true;
  temp_created = true;
  temp_written = true;
  temp_synced = true;
  temp_closed = true;
  renamed = true;
  directory_opened = true;
  directory_synced = true;
}

abbrev alice : Owner
alice = record { id = "u-1"; subject = "alice"; realm = "main" }

abbrev wanted : Definition String ℕ
wanted = record { label = "lake"; direction = "source"; config = "demo"; credentials = 7 }

abbrev requests : List (Request String ℕ)
requests = creating sealing 5 alice wanted "key" ∷ []

abbrev empty_vault : Connections String ℕ
empty_vault = record { realm = "main"; files = []; entries = []; bindings = []; poison = none }

abbrev lake_id : String
lake_id = "personal-00112233445566778899aabbccddeeff"

abbrev lake : Binding
lake = record (binding lake_id "fingerprint" (some 7) none) {
  label = "lake";
  personal = true;
  read_subjects = "alice" ∷ [];
}

connections_private_example :
    (entry : Entry String ℕ) × (lookup lake_id (handle_all provider requests empty_vault).entries
      ≡ some entry)
    × (entry.id ≡ lake_id)
    × (entry.owner.realm ≡ (handle_all provider requests empty_vault).realm)
    × IsPrivateTo entry.owner lake
unfolding create Connections.get lookup Connections.install Connections.personal_binding trim_space
    Connections.keep Connections.persist insert Connections.connection_id Connections.prefix
    Connections.restrict
connections_private_example = connections_private provider "main" requests lake_id lake refl

create_retry_example :
    create provider sealing 6 alice wanted "key"
      (create provider sealing 5 alice wanted "key" empty_vault).1
    ≡ (ok (lake, false), (create provider sealing 5 alice wanted "key" empty_vault).1)
unfolding create lookup Connections.install Connections.personal_binding trim_space Connections.keep
    Connections.persist Connections.restrict Connections.connection_id Connections.prefix
create_retry_example =
    create_retry provider sealing 5 alice wanted "key" empty_vault lake sealing 6 refl
