-- ===== src/Tests/Endpoints.antt =====
-- Endpoints of users, documents, routes of the API and the recovery of a store.
use vector_transfer.Base.{
  ℕ, String, ◌≡◌, refl, true, false, none, some, List, [], ◌∷◌, arith, ◌==◌, ltb, eqb,
  if◌then◌else◌, In, pos,
}
use vector_transfer.Base.Result.{message, Result, ok, err}
use vector_transfer.Base.Dict.{Dict, lookup, insert}
use vector_transfer.Connector.{Record, Binding}
use vector_transfer.Connector.Personal.{
  Net, PersonalConfig, PersonalCredentials, public_address, is_additional, first_refusal,
}
use vector_transfer.Connector.Personal.Validate.{validate, validate_first}
use vector_transfer.Connector.Personal.Dial.{resolved_public_dial, dial_public}
use vector_transfer.Connector.Personal.Accepted.{IsPublicEndpoint, HasSecret, personal_public}
use vector_transfer.Connector.Personal.Documents.{
  Json, Value, raw_json, id_value, vector_value, text_key, sent, record_document, document_record,
  decode_id,
}
use vector_transfer.Connector.Personal.Documents.Roundtrip.{compacted_at, document_roundtrip}
use vector_transfer.Control.Job.{Job, Owner, running, same_owner}
use vector_transfer.Control.Journal.{append}
use vector_transfer.Control.Store.{list, update}
use vector_transfer.Control.Store.Recovery.{recover, is_hosted_active}
use vector_transfer.Control.Store.Recovered.{IsSameCheckpoint, recover_clears}
use vector_transfer.Control.Routes.Jobs.{get_jobs, JobsReply, page_of, filter_jobs}
use vector_transfer.Control.Routes.Shown.{jobs_private, IsPrivatePage}
use vector_transfer.Control.Routes.Pages.{pages, pages_complete}
use vector_transfer.Control.Views.{public_job}
use vector_transfer.Tests.Data.{binding, job, store_of, quiet, blank_codec}

-- Addresses are numbers, and those under 10 are private.
abbrev net : Net ℕ
net = record {
  parse_url = λ s. some (record {
    scheme = "https";
    host = "db.test";
    has_user = false;
    raw_query = "";
    fragment = "";
    path = "";
  });
  hostname = λ u. u.host;
  equal_fold = λ a b. a == b;
  to_lower = λ s. s;
  has_suffix = λ s t. false;
  matches = λ pattern s. true;
  parse_addr = λ s. none;
  unmap = λ ip. ip;
  is_global_unicast = λ ip. true;
  is_private = λ ip. ltb ip 10;
  is_loopback = λ ip. false;
  is_link_local_unicast = λ ip. false;
  prefix_contains = λ prefix ip. false;
}

abbrev answers : List ℕ
answers = 20 ∷ 30 ∷ []

-- Only the second address can be reached.
abbrev dials : ℕ → Result ℕ
dials ip = if eqb ip 30 then ok 1 else err (message "refused")

dial_public_example :
    let dialed = (resolved_public_dial net (some "db.test") (λ h. ok answers) dials).1 in
    ((ip : ℕ)
      → In ip dialed
      → (h : String) × (ips : List ℕ) × (some "db.test" ≡ some h)
        × (ok answers ≡ ok ips)
        × In ip ips
        × (public_address net ip ≡ true))
    × ((h : String) (ips : List ℕ) (bad : ℕ)
        → some "db.test" ≡ some h
        → ok answers ≡ ok ips
        → In bad ips
        → public_address net bad ≡ false
        → dialed ≡ [])
dial_public_example = dial_public net (some "db.test") (λ h. ok answers) dials

abbrev config : PersonalConfig
config = record {
  kind = "polign";
  endpoint = "https://db.test";
  collection = "docs";
  namespace_ = "";
  region = "";
  bucket = "";
  index = "";
  distance_metric = "";
  id_type = "";
  database = "";
  auth_database = "";
  tenant = "";
  vector_field = "";
  id_field = "";
  metadata_field = "";
  key_prefix = "";
}

abbrev secret : PersonalCredentials
secret = record {
  api_key = "key";
  access_key_id = "";
  secret_access_key = "";
  session_token = "";
  username = "";
  password = "";
}

personal_public_example : IsPublicEndpoint net config × HasSecret net secret
unfolding validate is_additional validate_first first_refusal
personal_public_example = personal_public net config secret refl refl

-- `<` is escaped, as encoding/json does.
abbrev json : Json
json = record {
  as_string = λ s. some s;
  as_number = λ s. none;
  as_vector = λ s. some (7 ∷ []);
  is_int64 = λ s. false;
  is_uint64 = λ s. false;
  of_vector = λ v. some "[7]";
  of_id = λ id. some "p";
  compacted = λ s. if s == "\"<\"" then some "\"\\u003c\"" else some s;
}

abbrev fields : PersonalConfig
fields = record config { id_field = "id"; vector_field = "vector" }

abbrev point : Record
point = record { id = "p"; values = 7 ∷ []; metadata = ("tag", "\"<\"") ∷ [] }

abbrev document : Dict Value
document =
    ("tag", raw_json "\"<\"")
    ∷ ("id", id_value (text_key "p"))
    ∷ ("vector", vector_value (7 ∷ []))
    ∷ []

abbrev wire : Dict String
wire = ("tag", "\"\\u003c\"") ∷ ("id", "p") ∷ ("vector", "[7]") ∷ []

document_roundtrip_example :
    (r' : Record) × (document_record json fields wire ≡ ok r')
    × (r'.id ≡ "p")
    × (r'.values ≡ 7 ∷ [])
    × ((k : String) → lookup k r'.metadata ≡ compacted_at json (lookup k point.metadata))
unfolding record_document insert decode_id sent
document_roundtrip_example =
    document_roundtrip json fields point (text_key "p") document wire "p" "[7]" refl refl refl refl
      refl refl refl refl

abbrev interrupted : Job
interrupted = record job { state = running; cursor = "4"; records = 4 }

recover_clears_example :
    (j : Job) × (lookup "job-1" (recover blank_codec (λ n. quiet) (store_of interrupted)).1.jobs
      ≡ some j)
    × IsSameCheckpoint interrupted j
    × (is_hosted_active j ≡ false)
unfolding recover lookup insert append update
recover_clears_example =
    recover_clears blank_codec (λ n. quiet) (store_of interrupted) "job-1" interrupted
      (refl, refl, tt) refl refl

abbrev listed : JobsReply
listed = record { jobs = public_job job ∷ []; total = 1 }

jobs_private_example : IsPrivatePage none "queued" (store_of job) listed
unfolding get_jobs filter_jobs list page_of same_owner
jobs_private_example =
    jobs_private (λ s. some (pos 1)) none "1" "" "queued" (store_of job) listed refl

abbrev three_jobs : List Job
three_jobs = job ∷ interrupted ∷ job ∷ []

pages_complete_example : pages 2 2 0 three_jobs ≡ three_jobs
pages_complete_example = pages_complete 2 2 three_jobs (omega arith)

-- A connection that alice may read.
abbrev granted : Binding
granted = record (binding "src" "fs" (some 0) none) { read_subjects = "alice" ∷ [] }

abbrev alice : Owner
alice = record { id = "u-1"; subject = "alice"; realm = "main" }
