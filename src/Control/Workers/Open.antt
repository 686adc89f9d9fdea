-- ===== src/Control/Workers/Open.antt =====
-- How the registry of workers is opened and asked for its health, control/workers.go.
use vector_transfer.Base.{ℕ, Bool, not, ◌&&◌, Option, none, some, List, [], if◌then◌else◌}
use vector_transfer.Base.Result.{Error, workers_unavailable, message, Result, ok, err}
use vector_transfer.Base.Dict.{Dict}
use vector_transfer.Control.Workers.{Workers, Worker}

-- What reading workers.json gives: the bytes, no such file, or another error.
pub data Reading : Type 0 where
  bytes : List ℕ → Reading
  missing : Reading
  unreadable : Reading

-- What the system answers while the registry is opened.
pub record Startup : Type 0 where
  pub directory_made : Bool
  pub lock_opened : Bool
  pub locked : Bool
  pub contents : Reading

-- `err` and `w.entries` after the file has been read. `decode` is json.Unmarshal into a map: `none`
-- for an error, `some none` for the literal `null`.
abbrev loaded : (List ℕ → Option (Option (Dict Worker))) → Reading → Option (Dict Worker)
loaded decode (bytes b) = elim (decode b) [
  | none ↦ none
  | some none ↦ none
  | some (some m) ↦ some m
]
loaded decode missing = some []
loaded decode unreadable = none

-- `OpenWorkers`.
unfoldable pub open_workers : (List ℕ → Option (Option (Dict Worker))) → Startup → Result Workers
open_workers decode up =
    if not (up.directory_made && up.lock_opened)
    then err (message "worker registry cannot be opened")
    else if not up.locked
    then err (message "worker registry already in use")
    else elim (loaded decode up.contents) [
      | none ↦ err workers_unavailable
      | some entries ↦ ok (record {
        disk = entries;
        entries = entries;
        challenges = [];
        sessions = [];
        poison = none;
      })
    ]

-- `Health`, also of a registry that is nil.
unfoldable pub health : Option Workers → Option Error
health none = none
health (some w) = w.poison
