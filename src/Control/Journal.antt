-- ===== src/Control/Journal.antt =====
-- The append journal of control/store.go: Event, entry, Store, entryHash, append, replay, OpenStore.
pub mod Accept
pub mod Recovery
pub mod Changes
use vector_transfer.Base.{
  ℕ, zero, suc, ◌+◌, ◌-◌, ◌*◌, ◌/◌, ◌%◌, ◌^◌, ◌≤◌, ◌<◌, min, max, String, ◌≡◌, refl, sym, ap, ◌∙◌,
  subst, ◌≢◌, ◌↔◌, ◌⊎◌, inl, inr, Bool, true, false, not, ◌&&◌, ◌||◌, Option, none, some, List, [],
  ◌∷◌, ◌++◌, append-nil, append_assoc, arith, ◌==◌, eq_iff, ltb, leb, eqb, if◌then◌else◌, ltb→lt,
  ltb→le, leb→le, leb→lt, tests, Bool-cases, Option-cases, is_some, is_none, &&-eq_true, ||-eq_true,
  length, take, drop, any, all, count, All, In, length-append, take-append-drop, length-take-le,
  length-drop, any-In, all-In, ◌!=◌, ◌<>◌, byte_length, ==_refl, ==_sound, String-discrete, decimal,
  decimal_ℤ, ℤ, pos, negsuc, pos_part, neg_part, ltb_ℤ, eqb_ℤ, ◌≤ℤ◌, eqb_ℤ_sound, any-false,
  false-any, All-map,
}
use vector_transfer.Base.Result.{
  Error, not_found, conflict, forbidden, unavailable, unauthorized, canceled_context,
  journal_failed, vault_unavailable, workers_unavailable, message, Result, ok, err, ◌>>=◌, is_ok,
}
use vector_transfer.Base.Dict.{
  Dict, lookup, insert, delete, values, lookup-insert, lookup-delete, lookup-In, dict_laws,
}
use vector_transfer.Control.Job.{Job, State, canceled}

pub record Event : Type 0 where
  pub sequence : ℕ
  pub at : ℕ
  pub job_id : String
  pub kind : String
  pub actor : String
  pub text : String
  pub records : ℕ
  pub batch_sha256 : String
  pub previous_hash : String
  pub hash : String

-- `entry`.
pub record Entry : Type 0 where
  pub event : Event
  pub job : Job

-- json.Marshal and json.Unmarshal of an entry, and hex.EncodeToString of sha256.Sum256.
pub record Codec : Type 0 where
  pub marshal : Entry → Option (List ℕ)
  pub unmarshal : List ℕ → Option Entry
  pub digest : List ℕ → String

-- `Store`, its file as the bytes that it holds.
pub record Store : Type 0 where
  pub file : List ℕ
  pub jobs : Dict Job
  pub sequence : ℕ
  pub hash : String
  pub poison : Option Error

abbrev pub empty_store : Store
empty_store = record { file = []; jobs = []; sequence = 0; hash = ""; poison = none }

-- What the system does with a write and the fsync after it: both succeed, or one fails after so
-- many of the bytes have reached the file.
pub data Outcome : Type 0 where
  written : Outcome
  broken : ℕ → Outcome

-- The clock's reading during one critical section, and the outcome of its write.
pub record Io : Type 0 where
  pub now : ℕ
  pub write : Outcome

abbrev pub newline : ℕ
newline = 10

-- `entryHash`: the digest of the entry with its hash left empty.
unfoldable pub entry_hash : Codec → Entry → String
entry_hash c e = elim (c.marshal (record e { event = record e.event { hash = "" } })) [
  | none ↦ c.digest []
  | some b ↦ c.digest b
]

-- A canceled job's event is of kind "canceled", whatever the caller asked for.
unfoldable pub event_kind : State → String → String
event_kind canceled kind = "canceled"
event_kind other kind = kind

-- The entry that `append` builds, its hash filled in.
unfoldable pub build_entry : Codec → ℕ → Job → String → String → String → String → Store → Entry
unfolding entry_hash event_kind
build_entry c now j kind actor text batch s =
    let event : Event = record {
      sequence = s.sequence + 1;
      at = now;
      job_id = j.id;
      kind = event_kind j.state kind;
      actor = actor;
      text = text;
      records = j.records;
      batch_sha256 = batch;
      previous_hash = s.hash;
      hash = "";
    } in
    let job = record j { updated_at = now } in
    let e : Entry = record { event = event; job = job } in
    record e { event = record event { hash = entry_hash c e } }

-- The state after a line has been written and synced.
unfoldable pub commit : List ℕ → Entry → Store → Store
commit line e s = record s {
  file = s.file ++ line;
  jobs = insert e.job.id e.job s.jobs;
  sequence = e.event.sequence;
  hash = e.event.hash;
}

write_line : Outcome → List ℕ → Entry → Store → Result (Unit {0}) × Store
unfolding commit
write_line written line e s = (ok tt, commit line e s)
write_line (broken n) line e s =
    (err journal_failed, record s { file = s.file ++ take n line; poison = some journal_failed })

write_entry : Outcome → Option (List ℕ) → Entry → Store → Result (Unit {0}) × Store
unfolding write_line
write_entry outcome none e s = (err (message "json: unsupported value"), s)
write_entry outcome (some b) e s = write_line outcome (b ++ newline ∷ []) e s

-- `append`.
unfoldable pub append :
    Codec → Io → Job → String → String → String → String → Store → Result (Unit {0}) × Store
unfolding build_entry write_entry
append c io j kind actor text batch s =
    let e = build_entry c io.now j kind actor text batch s in
    elim s.poison [
      | some failure ↦ (err failure, s)
      | none ↦ write_entry io.write (c.marshal e) e s
    ]

-- The test of one entry of the file.
unfoldable pub is_linked : Codec → Entry → Store → Bool
unfolding entry_hash
is_linked c e s =
    eqb e.event.sequence (s.sequence + 1)
    && e.event.previous_hash == s.hash
    && e.event.hash == entry_hash c e
    && e.event.job_id == e.job.id

-- One complete line of the file.
unfoldable pub accept : Codec → List ℕ → Store → Result Store
unfolding is_linked commit
accept c line s =
    let failure : Result Store =
      err (message ("journal integrity check failed at byte " <> decimal (length s.file))) in
    elim (c.unmarshal line) [
      | none ↦ failure
      | some e ↦ if is_linked c e s then ok (commit line e s) else failure
    ]

-- The loop of `replay` over the bytes of the file: `line` is what has been read of the line, and
-- the file of `s` what lies before it, so that dropping a torn line is `Truncate(offset)`.
-- `truncates` says whether that and its fsync succeed.
unfoldable pub replay_loop : Codec → Bool → List ℕ → List ℕ → Store → Result Store
unfolding accept
replay_loop c truncates [] [] s = ok s
replay_loop c truncates [] (b ∷ line) s =
    if truncates then ok s else err (message "truncate failed")
replay_loop c truncates (b ∷ rest) line s = elim (eqb b newline) [
  | true ↦ accept c (line ++ b ∷ []) s >>= replay_loop c truncates rest []
  | false ↦ replay_loop c truncates rest (line ++ b ∷ []) s
]

unfoldable pub replay : Codec → Bool → List ℕ → Result Store
unfolding replay_loop
replay c truncates file = replay_loop c truncates file [] empty_store

-- What the system answers while a store is opened.
pub record Startup : Type 0 where
  pub directory_made : Bool
  pub file_opened : Bool
  pub locked : Bool
  pub truncates : Bool
  pub seeks : Bool
  pub directory_synced : Bool

-- `OpenStore` on the bytes of journal.jsonl.
unfoldable pub open_store : Codec → Startup → List ℕ → Result Store
unfolding replay
open_store c up file =
    if not (up.directory_made && up.file_opened)
    then err (message "journal cannot be opened")
    else if not up.locked
    then err (message "data directory is already in use")
    else replay c up.truncates file >>= λ s.
        if up.seeks && up.directory_synced then ok s else err (message "journal not durable")
