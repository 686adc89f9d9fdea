-- ===== src/Tests/Data.antt =====
-- The test data: a job, its connections, its source's pages, and a codec.
use vector_transfer.Base.{
  ℕ, String, ◌≡◌, refl, sym, ap, subst, Bool, true, false, Option, none, some, List, [], ◌∷◌, ◌++◌,
  arith, ◌==◌, eqb, if◌then◌else◌, is_some, any, String-discrete, ℤ, pos,
}
use native.Mathlib.Decide.{ℕ_discrete}
use vector_transfer.Connector.{Record, Page, Binding}
use vector_transfer.Control.Job.{Job, Spec, Owner, State, Phase, running}
use vector_transfer.Control.Journal.{
  Codec, Entry, Event, Store, Io, written, empty_store, entry_hash, commit, accept, is_linked,
  build_entry, newline,
}
use vector_transfer.Control.Journal.Accept.{IsCodec}
use vector_transfer.Base.Result.{ok}
use vector_transfer.Base.Dict.{insert}
use vector_transfer.Control.Store.{zero_job, zero_spec}
use vector_transfer.Control.Engine.{Engine}
use vector_transfer.Control.Engine.Execute.{Moment}

abbrev pub spec : Spec
spec = record zero_spec {
  name = "nightly";
  source = "src";
  sink = "dst";
  dimension = pos 1;
  batch_size = pos 2;
  max_attempts = pos 5;
  max_restarts = pos 3;
}

abbrev pub job : Job
job = record zero_job {
  id = "job-1";
  spec = spec;
  source_fingerprint = "fs";
  sink_fingerprint = "fd";
  sink_resource = "rd";
}

abbrev pub running_job : Job
running_job = record job { state = running; runs = 1 }

abbrev pub store_of : Job → Store
store_of j = record empty_store { jobs = (j.id, j) ∷ [] }

abbrev pub point : String → Record
point i = record { id = i; values = 1065353216 ∷ []; metadata = [] }

-- Two pages of one record each.
abbrev pub pages : String → ℤ → Page
pages cursor limit =
    if cursor == ""
    then record { records = point "a" ∷ []; next = "1"; done = false }
    else record { records = point "b" ∷ []; next = "2"; done = true }

abbrev pub binding : String → String → Option ℕ → Option ℕ → Binding
binding name fingerprint src dst = record {
  label = "";
  personal = false;
  read_subjects = [];
  write_subjects = [];
  name = name;
  kind = "demo";
  description = "";
  fingerprint = fingerprint;
  resource = "";
  can_read = is_some src;
  can_write = is_some dst;
  source = src;
  sink = dst;
}

abbrev pub engine : Engine
engine = record {
  hosted_disabled = false;
  registry =
      ("src", binding "src" "fs" (some 0) none) ∷ ("dst", binding "dst" "fd" none (some 1)) ∷ [];
  account_realm = "";
  personal = λ n. none;
  workers = none;
}

abbrev pub quiet : Io
quiet = record { now = 5; write = written }

abbrev pub quiet_moment : Moment
quiet_moment = record {
  requests = [];
  io = quiet;
  stopped = false;
  engine = engine;
  read_fault = none;
  write_fault = none;
  encodes = true;
}

-- A codec that writes every entry as an empty line.
abbrev pub blank_codec : Codec
blank_codec = record { marshal = λ e. some []; unmarshal = λ b. none; digest = λ b. "" }

-- A codec that knows the first two entries of a journal.
abbrev pub first_event : Event
first_event = record {
  sequence = 1;
  at = 5;
  job_id = "job-1";
  kind = "submitted";
  actor = "operator";
  text = "Job submitted";
  records = 0;
  batch_sha256 = "";
  previous_hash = "";
  hash = "";
}

abbrev pub first_entry : Entry
first_entry = record { event = first_event; job = record job { updated_at = 5 } }

abbrev pub second_job : Job
second_job = record job { id = "job-2" }

abbrev pub second_entry : Entry
second_entry = record {
  event = record first_event { sequence = 2; job_id = "job-2" };
  job = record second_job { updated_at = 5 };
}

ℤ-discrete : Discrete ℤ
ℤ-discrete = hlevel ℕ_discrete

Owner-discrete : Discrete Owner
Owner-discrete = hlevel String-discrete

Spec-discrete : Discrete Spec
Spec-discrete = hlevel (String-discrete, ℤ-discrete)

State-discrete : Discrete State
State-discrete = hlevel

Phase-discrete : Discrete Phase
Phase-discrete = hlevel

Option-discrete {ℓ} : {A : Type ℓ} → Discrete A → Discrete (Option A)
Option-discrete d = hlevel d

pub Job-discrete : Discrete Job
Job-discrete = hlevel (
  String-discrete,
  ℕ_discrete,
  Spec-discrete,
  State-discrete,
  Phase-discrete,
  Option-discrete Owner-discrete,
  Option-discrete ℕ_discrete,
)

pub Event-discrete : Discrete Event
Event-discrete = hlevel (String-discrete, ℕ_discrete)

pub Entry-discrete : Discrete Entry
Entry-discrete = hlevel (Event-discrete, Job-discrete)

unfoldable pub encode_known :
    {e : Entry} → Dec (e ≡ first_entry) → Dec (e ≡ second_entry) → Option (List ℕ)
encode_known (yes p) d = some (1 ∷ [])
encode_known (no p) (yes q) = some (2 ∷ [])
encode_known (no p) (no q) = none

abbrev pub decode_known : List ℕ → Option Entry
decode_known [] = none
decode_known (x ∷ rest) = if eqb x 2 then some second_entry else some first_entry

unfoldable pub known_codec : Codec
known_codec = record {
  marshal = λ e. encode_known (Entry-discrete e first_entry) (Entry-discrete e second_entry);
  unmarshal = decode_known;
  digest = λ b. "";
}

-- Every text of the examples is valid UTF-8.
abbrev pub valid_text : String → Bool
valid_text t = true

pub known_codec-IsCodec : IsCodec valid_text known_codec
unfolding known_codec encode_known
known_codec-IsCodec = record {
  one_line = λ e b h. plain e b (Entry-discrete e first_entry) (Entry-discrete e second_entry) h;
  reads = λ e b u h. same e b (Entry-discrete e first_entry) (Entry-discrete e second_entry) h;
}
  where
    plain :
        (e : Entry) (b : List ℕ) (d : Dec (e ≡ first_entry)) (d' : Dec (e ≡ second_entry))
        → encode_known d d' ≡ some b
        → any (λ x. eqb x 10) b ≡ false
    plain e b (yes p) d' h =
        let line : 1 ∷ [] ≡ b = cc h in subst (λ l. any (λ x. eqb x 10) l ≡ false) line refl
    plain e b (no p) (yes q) h =
        let line : 2 ∷ [] ≡ b = cc h in subst (λ l. any (λ x. eqb x 10) l ≡ false) line refl
    plain e b (no p) (no q) h = cc

    same :
        (e : Entry) (b : List ℕ) (d : Dec (e ≡ first_entry)) (d' : Dec (e ≡ second_entry))
        → encode_known d d' ≡ some b
        → decode_known (b ++ 10 ∷ []) ≡ some e
    same e b (yes p) d' h =
        let line : 1 ∷ [] ≡ b = cc h in
        subst (λ l. decode_known (l ++ 10 ∷ []) ≡ some e) line (ap some (sym p))
    same e b (no p) (yes q) h =
        let line : 2 ∷ [] ≡ b = cc h in
        subst (λ l. decode_known (l ++ 10 ∷ []) ≡ some e) line (ap some (sym q))
    same e b (no p) (no q) h = cc

known_hash : (e : Entry) → entry_hash known_codec e ≡ ""
unfolding entry_hash
known_hash e = known (known_codec.marshal (record e { event = record e.event { hash = "" } }))
  where
    known :
        (b : Option (List ℕ))
        → (elim b [ none ↦ known_codec.digest [] | some l ↦ known_codec.digest l ]) ≡ ""
    known none = unfold known_codec in refl
    known (some l) = unfold known_codec in refl

-- The store after the first entry.
abbrev pub one_entry : Store
one_entry = commit (1 ∷ newline ∷ []) first_entry empty_store

pub first_accepted : accept known_codec (1 ∷ newline ∷ []) empty_store ≡ ok one_entry
unfolding accept is_linked known_codec insert
first_accepted = rw known_hash (unfold known_codec in refl)

-- The codec marshals the entry that is added to that store.
second_encoded :
    known_codec.marshal
      (build_entry known_codec 5 second_job "submitted" "operator" "Job submitted" "" one_entry)
    ≡ some (2 ∷ [])
unfolding build_entry encode_known known_codec Entry-discrete commit
second_encoded =
    rw known_hash (second (Entry-discrete _ first_entry) (Entry-discrete _ second_entry))
  where
    sequences : (e e' : Entry) → e ≡ e' → e.event.sequence ≡ e'.event.sequence
    sequences e e' p = ap (λ (x : Entry). x.event.sequence) p

    second :
        (d : Dec (second_entry ≡ first_entry)) (d' : Dec (second_entry ≡ second_entry))
        → encode_known d d' ≡ some (2 ∷ [])
    second (yes p) d' = absurd (omega (arith, sequences second_entry first_entry p))
    second (no p) (yes q) = refl
    second (no p) (no q) = absurd (q refl)
