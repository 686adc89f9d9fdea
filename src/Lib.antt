-- ===== src/Lib.antt =====
-- Verification library of vector-transfer, a service that copies vector records between databases:
-- jobs read pages from a source connection, write them to a sink connection, and record each
-- acknowledged page as a checkpoint in a durable journal.
--
-- The parts, and how they interact:
-- - Base: numbers, lists, texts, Go's maps and (value, error) results.
-- - Connector (connector/connector.go): Record, Page, Binding; Validate.antt is Validate, Access.antt
--   is AllowsRead and AllowsWrite, Chunks.antt is chunks of connector/http.go.
-- - Connector/Personal (connector/personal.go, connector/additional.go): the tests of a user's own
--   connection, Validate.antt and Additional.antt; Dial.antt is resolvedPublicDial, Documents.antt is
--   decodeID, documentRecord and recordDocument, Documents/Roundtrip.antt relates the two.
-- - Connector/Config (connector/config.go, connector/factory.go): openCustom, LoadConfig and Close; each
--   result comes with the adapters that were opened and closed.
-- - Durable (internal/durable/file.go): Write, as `replaced`, and the view that its users have of it.
-- - Control/Job and Control/Journal (control/store.go): Spec, Owner, Job, Event; append, replay and
--   OpenStore. Accept and Recovery relate the file to the state, Changes says what an append stores.
-- - Control/Store (control/store.go): Create, Get, List, Update, Health; Recovery.antt is Recover,
--   Claiming.antt is Claim, Events.antt is Events. Shape, Keyed and Tracks carry the lemmas, Claims is
--   about the choice of a job, and Recovered about Recover.
-- - Control/Workers (control/workers.go): Create, Get, Revoke, Enroll; Sessions.antt is Challenge,
--   Session, Authenticate; Manifest.antt is ValidateManifest, Publish, Touch, Connections; Open.antt
--   is OpenWorkers. The registry saves itself through Durable. Steps.antt is a list of such requests;
--   Kept and Grants say what they leave.
-- - Control/Engine (control/engine.go): connection, authorized; Submit.antt and Action.antt are Submit
--   and Action on the store; Execute.antt and Execute/Loop.antt are retry, finish and execute, and the
--   start of RunJob (control/worker_jobs.go). The other modules of Execute prove, step by step, what
--   an execution keeps.
-- - Control/Lease (control/worker_jobs.go): ClaimWorker; Report.antt is ReportWorker, Prepare.antt is
--   PrepareWorkerJob. Changes.antt is a list of changes of one job.
-- - Control/Connections (control/connections.go): the users' own connections.
-- - Control/Views (control/api.go, control/workers.go): what clients are shown.
-- - Control/Protocol (control/worker_api.go): the routes of the customer workers, over Workers, Lease
--   and Store, and apiError of control/api.go.
-- - Control/Routes (control/api.go, control/worker_api.go): the routes of the API under /v1/, and the
--   guards before them, in Jobs.antt and Guards.antt.
-- - Account (accountauth/session.go): New, sameOrigin, SecureOrigin, exchange, profile; Sessions.antt has
--   the critical sections of login, callback, lookup, Authenticate and logout, Sessions/Handlers.antt
--   the handlers. Flow/Logins.antt and Flow/Kept.antt say what other requests leave of a login and of a
--   session.
-- - Client (worker/worker.go): the customer worker, which asks Control/Protocol for sessions and jobs:
--   Open, ValidateURL, call, session; Enroll.antt is Enroll, LoadConfig and Manifest; Run.antt is
--   validAssignment and the start of execute, Run/Turns.antt its loop, Rounds.antt the rounds of Run.
-- - Tests: concrete runs.
--
-- How the state corresponds. A mutex's critical section is one function from a state to a result and
-- the next state. A critical section reads the clock once, where the code may read it twice within
-- it. Times are nanoseconds. Counters that only grow (int64 in the code) are natural numbers without
-- an upper bound; numbers that a caller may choose are integers. A float32 is its 32 bits. A map is
-- an association list whose order stands for the order of a range loop, which is arbitrary. Text
-- constants of Job.State and Job.Phase are data types. The journal's file is a list of bytes, and a
-- failing write leaves any part of its line behind.
--
-- Execution. The executor is interleaved with the rest of the system: before each of its critical
-- sections an environment may submit, cancel, resume and claim jobs, and it decides the outcome of
-- every clock reading, file write, read and upsert, and the engine's configuration. The source's
-- pages are a function of the cursor and the limit. An upsert that fails acknowledges nothing in the
-- model; the records that it may have written all the same do not count as acknowledged.
--
-- Sessions and clients. Account/Sessions splits each handler into its critical sections, and a list of
-- steps stands for what other requests do in between. An answer of another service is a value of Reply:
-- nothing, or a status with the body if that can be decoded. The customer worker's loop takes a list of
-- turns, each with what woke it, what the executor has done to the store before, and what the control
-- plane answers; a list that ends stands for a loop that still runs.
--
-- Fuel. The retry loop is given as many attempts as the job allows, which is enough; the executor's
-- outer loop runs any number of rounds, since a source may have pages without end, and its theorems
-- hold after each number; the search for a request's size and the loop over requests have as much
-- fuel as there are records, which is enough; all other loops are structural.
--
-- Parameters. encoding/json and SHA-256 (Codec, with one_line and reads as the documented behaviour
-- that recovery relies on, for entries whose texts are valid UTF-8, which utf8.ValidString tells of a
-- Go string; Json, with what Marshal makes of raw values), json.Valid, base64 and ed25519 (Crypto on
-- the control plane, Local at the worker; IsMatched says that the two fit), HMAC, net/url and net/netip
-- (Web, Net), regexp, random identifiers, and of the program itself connector.OpenPersonal,
-- connector.Fingerprint and build of connector/config.go, which are not modelled.
--
-- Not modelled: the goroutines of Engine.Run and the waits of the worker's Run, the decoding of HTTP
-- requests and the headers of answers, the building of the built-in connections, the adapters of the
-- databases, the conformance suite, the command line, and the files of the connection vault at start.

pub mod Base
pub mod Connector
pub mod Durable
pub mod Control
pub mod Account
pub mod Client
pub mod Tests
