-- ===== src/Tests/Clients.antt =====
-- A customer worker: its sessions, its reports and the jobs that it is given.
use vector_transfer.Base.{
  ℕ, ◌+◌, ◌*◌, ◌<◌, String, ◌≡◌, refl, true, false, none, some, List, [], ◌∷◌, arith, ◌==◌, eqb,
  if◌then◌else◌, length, pos,
}
use vector_transfer.Base.Result.{ok}
use vector_transfer.Base.Dict.{lookup, insert}
use vector_transfer.Account.{unreachable, answered}
use vector_transfer.Control.Job.{Job, running, is_cancel_requested, state_name, phase_name, second}
use vector_transfer.Control.Journal.{append}
use vector_transfer.Control.Workers.{Worker, Workers, WorkerManifest, Crypto, zero_worker, save}
use vector_transfer.Durable.{Calls, write}
use vector_transfer.Control.Workers.Steps.{Step, asks, touches, step, steps}
use vector_transfer.Control.Workers.Sessions.{
  issue_challenge, open_session, authenticate, keep_live,
}
use vector_transfer.Control.Workers.Manifest.{touch, approved_connections}
use vector_transfer.Control.Protocol.{post_challenge, post_session}
use vector_transfer.Control.Lease.{WorkerAssignment, claim_worker}
use vector_transfer.Control.Lease.Report.{Parsed, parse_report, report_change, reported}
use vector_transfer.Client.{Client, Local, Plane, session, signature}
use vector_transfer.Client.Run.{report_of, begin_execute, rejects}
use vector_transfer.Client.Run.Turns.{Tick, ticks, execute}
use vector_transfer.Client.Reports.{report_roundtrip, report_mirrored}
use vector_transfer.Client.Reports.Numbered.{IsNumbered, execute-IsNumbered}
use vector_transfer.Client.Agreement.{leased_not_rejected}
use vector_transfer.Client.SignOn.{registry_plane, asked_registry, session_accepted}
use vector_transfer.Control.Job.{same_owner}
use vector_transfer.Tests.Data.{spec, job, store_of, quiet, blank_codec}

abbrev text64 : String
text64 = "0123456789abcdef0123456789abcdef0123456789abcdef0123456789abcdef"

abbrev key_bytes : List ℕ
key_bytes =
    1 ∷ 1 ∷ 1 ∷ 1 ∷ 1 ∷ 1 ∷ 1 ∷ 1 ∷ 1 ∷ 1 ∷ 1 ∷ 1 ∷ 1 ∷ 1 ∷ 1 ∷ 1 ∷ 1 ∷ 1 ∷ 1 ∷ 1 ∷ 1 ∷ 1 ∷ 1 ∷ 1
    ∷ 1 ∷ 1 ∷ 1 ∷ 1 ∷ 1 ∷ 1 ∷ 1 ∷ 1 ∷ []

-- A stand-in for the cryptography: one key, and one signature.
abbrev crypto : Crypto
crypto = record {
  decode64 = λ s. if s == "key" then some key_bytes else some [];
  verify = λ k p s. eqb (length s) 0;
  token_digest = λ t. t;
}

abbrev local : Local
local = record {
  parse_url = λ s. none;
  hostname = λ u. "";
  is_loopback = λ s. false;
  public_key = λ seed. key_bytes;
  sign = λ seed text. [];
  encode64 = λ bytes. if eqb (length bytes) 0 then "signature" else "key";
  hmac_hex = λ seed s. s;
  before = λ a b. false;
}

abbrev client : Client
client = record {
  file = none;
  identity = record { id = "w-1"; url = "https://plane.test"; seed = []; enrolled = true };
  token = "";
  token_until = 0;
}

abbrev worker : Worker
worker = record zero_worker { id = "w-1"; name = "edge"; public_key = "key" }

abbrev registry : Workers
registry = record {
  disk = [];
  entries = ("w-1", worker) ∷ [];
  challenges = [];
  sessions = [];
  poison = none;
}

-- A stranger asks for a challenge before the proof, and the worker is seen after it.
abbrev before_proof : List Step
before_proof = asks 6 "c-9" "w-9" ∷ []

abbrev all_well : Calls
all_well = record {
  marshaled = true;
  directory_made = true;
  temp_created = true;
  temp_written = true;
  temp_synced = true;
  temp_closed = true;
  renamed = true;
  directory_opened = true;
  directory_synced = true;
}

abbrev after_proof : List Step
after_proof = touches all_well 7 "w-1" ∷ []

session_accepted_example :
    let asked = (post_challenge 5 text64 "w-1" registry).0 in
    let w1 = asked_registry crypto "w-1" text64 5 before_proof registry in
    let (r, c') = session local (registry_plane crypto text64 "w-1" 4 6 7 (asked, w1)) client in
    let w2 =
      steps crypto after_proof
        (post_session crypto 6 text64 "w-1" text64 (signature local client text64) w1).1 in
    (r ≡ ok tt)
    × (c'.token ≡ text64)
    × ((t : ℕ)
        → t < c'.token_until
        → (e' : Worker) × (authenticate crypto t c'.token w2 ≡ ok e')
          × (lookup "w-1" w2.entries ≡ some e')
          × (e'.public_key ≡ worker.public_key))
unfolding lookup keep_live steps step post_challenge post_session issue_challenge open_session touch
    save write insert
session_accepted_example =
    session_accepted crypto local client registry worker text64 text64 4 5 6 7 before_proof
      after_proof ((λ seed. refl), (λ seed text. refl), (λ seed. refl), (λ seed text. refl)) refl
      refl refl refl refl refl (omega arith) refl refl (omega arith) (omega arith) (tt, tt) (tt, tt)
      ((refl, refl, omega arith), tt) (tt, tt) refl refl

abbrev id32 : String
id32 = "0123456789abcdef0123456789abcdef"

abbrev job32 : Job
job32 = record job { id = id32 }

abbrev work : WorkerAssignment
work = record {
  id = id32;
  spec = record spec { worker_id = "w-1" };
  lease_id = text64;
  lease_until = 100;
  generation = 0;
  records = 0;
  batches = 0;
  checkpoint = false;
  source_fingerprint = "fs";
  sink_fingerprint = "fd";
  cancel_requested = false;
}

abbrev local_job : Job
local_job = record job32 { state = running; records = 3; batches = 1; last_checkpoint_at = some 4 }

abbrev held_job : Job
held_job = record job32 {
  spec = record spec { worker_id = "w-1" };
  state = running;
  lease_id = text64;
  lease_until = some 100;
}

abbrev parsed : Parsed
parsed = record { state = running; phase = local_job.phase; failure = "" }

report_roundtrip_example : parse_report (report_of 1 5 work local_job) ≡ ok parsed
report_roundtrip_example = report_roundtrip 1 5 work local_job (omega arith) (omega arith)

abbrev held_after : Job
held_after = reported 6 (report_of 1 5 work local_job) parsed held_job

report_mirrored_example :
    (held_after.records ≡ 3)
    × (held_after.batches ≡ 1)
    × (held_after.retries ≡ 0)
    × (held_after.restarts ≡ 0)
    × (held_after.phase ≡ local_job.phase)
    × (held_after.report_sequence ≡ 1)
    × (is_cancel_requested held_job.state ≡ false → held_after.state ≡ local_job.state)
unfolding parse_report report_of report_change reported state_name phase_name same_owner
report_mirrored_example =
    report_mirrored 1 5 6 work worker local_job held_job held_after parsed refl (omega arith)
      (omega arith) refl

abbrev plane : Plane
plane = record { now = 5; later = 5; challenge = unreachable; opened = λ ch sig. unreachable }

abbrev signed_in : Client
signed_in = record client { token = text64; token_until = 100 }

abbrev tick : Tick
tick = record {
  wake = ticks;
  others = λ s. store_of local_job;
  io = quiet;
  plane = plane;
  reply =
      λ r token. answered 200 (some (record { cancel_requested = false; lease_until = some 100 }));
  expired = false;
}

abbrev manifest : WorkerManifest
manifest = record {
  connections =
      record {
        name = "src";
        kind = "demo";
        can_read = true;
        can_write = false;
        fingerprint = "fs";
        resource = "rs";
      }
      ∷ record {
        name = "dst";
        kind = "demo";
        can_read = false;
        can_write = true;
        fingerprint = "fd";
        resource = "rd";
      }
      ∷ [];
  pairs = record { source = "src"; sink = "dst"; dimension = pos 1 } ∷ [];
}

execute-IsNumbered_example :
    IsNumbered work 0
      (execute blank_codec quiet quiet local plane tick.reply
        (tick ∷ tick ∷ [])
        manifest
        []
        work
        signed_in
        (store_of job32)).0
execute-IsNumbered_example =
    execute-IsNumbered blank_codec quiet quiet local plane tick.reply (tick ∷ tick ∷ []) manifest []
      work signed_in (store_of job32)

abbrev queued_job : Job
queued_job = record job32 { spec = record spec { worker_id = "w-1" } }

abbrev trusted : Worker
trusted = record worker { manifest = manifest }

abbrev given : WorkerAssignment
given = record work { lease_until = 5 + 60 * second }

leased_not_rejected_example : ¬ (
    (begin_execute blank_codec quiet quiet signed_in manifest [] given (store_of job32)).0
    ≡ rejects "policy")
unfolding claim_worker append lookup insert approved_connections same_owner
leased_not_rejected_example =
    leased_not_rejected blank_codec blank_codec quiet quiet quiet text64 trusted
      (store_of queued_job) (store_of job32) given signed_in [] refl
