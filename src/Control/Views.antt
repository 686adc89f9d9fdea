-- ===== src/Control/Views.antt =====
-- What the API shows of jobs, workers and connections: publicJob, ownedJob, principal and queryInt of
-- control/api.go, workerView and List of control/workers.go, and the lists of connections.
use vector_transfer.Base.{
  ℕ, ◌+◌, ◌*◌, String, Bool, false, not, ◌||◌, Option, none, some, List, [], ◌∷◌, ◌==◌, ltb,
  if◌then◌else◌, is_some, ◌<>◌, ℤ, ltb_ℤ,
}
use vector_transfer.Base.Result.{not_found, message, Result, ok, err, ◌>>=◌}
use vector_transfer.Base.Dict.{Dict, values}
use vector_transfer.Connector.{Binding}
use vector_transfer.Control.Job.{Job, Owner, same_owner, second}
use vector_transfer.Control.Journal.{Store}
use vector_transfer.Control.Store.{get}
use vector_transfer.Control.Workers.{Workers, Worker, WorkerManifest}
use vector_transfer.Control.Connections.{Connections, Entry, binding_at}

-- `publicJob`: a job without the fields that a client must not see.
unfoldable pub public_job : Job → Job
public_job j = record j {
  cursor = "";
  lease_id = "";
  report_sequence = 0;
  owner = none;
  idempotency_key = "";
  source_fingerprint = "";
  sink_fingerprint = "";
  sink_resource = "";
}

-- `ownedJob`: the job of a request by this owner.
unfoldable pub owned_job : String → Option Owner → Store → Result Job
owned_job id owner s =
    get id s >>= λ j. if not (same_owner j.owner owner) then err not_found else ok j

-- `principal`.
unfoldable pub principal : String → String
principal token = if token == "" then "local" else "operator-token"

-- `queryInt`. `atoi` is strconv.Atoi, `none` for an error.
unfoldable pub query_int : (String → Option ℤ) → String → String → ℤ → ℤ → ℤ → Result ℤ
query_int atoi key s fallback low high = if s == "" then ok fallback else elim (atoi s) [
  | none ↦ err (message ("invalid " <> key))
  | some v ↦ if ltb_ℤ v low || ltb_ℤ high v then err (message ("invalid " <> key)) else ok v
]

-- `WorkerView`.
pub record WorkerView : Type 0 where
  pub id : String
  pub name : String
  pub status : String
  pub last_seen : Option ℕ
  pub manifest : WorkerManifest

-- `time.Since(t) < 45*time.Second` for a time that is set.
abbrev seen_recently : ℕ → Option ℕ → Bool
seen_recently now none = false
seen_recently now (some t) = ltb now (t + 45 * second)

-- `workerView`.
unfoldable pub worker_view : ℕ → Worker → WorkerView
worker_view now e =
    let status =
      if e.public_key == ""
      then (if ltb e.enrollment_until now then "enrollment expired" else "awaiting enrollment")
      else if seen_recently now e.last_seen
      then "online"
      else "offline" in
    record {
      id = e.id;
      name = e.name;
      status = if e.revoked then "revoked" else status;
      last_seen = e.last_seen;
      manifest = e.manifest;
    }

-- `sort.Slice` by a text. `before` is Go's order of strings.
module _ (before : String → String → Bool) where
  unfoldable pub insert_by {ℓ} : {A : Type ℓ} → (A → String) → A → List A → List A
  insert_by name x [] = x ∷ []
  insert_by name x (y ∷ rest) =
      if before (name y) (name x) then y ∷ insert_by name x rest else x ∷ y ∷ rest

  unfoldable pub sort_by {ℓ} : {A : Type ℓ} → (A → String) → List A → List A
  sort_by name [] = []
  sort_by name (x ∷ rest) = insert_by name x (sort_by name rest)

  -- The workers that `List` collects.
  unfoldable pub owned_views : ℕ → Option Owner → List Worker → List WorkerView
  owned_views now owner [] = []
  owned_views now owner (e ∷ rest) =
      if same_owner e.owner owner
      then worker_view now e ∷ owned_views now owner rest
      else owned_views now owner rest

  -- `List` of the workers.
  unfoldable pub list_workers : ℕ → Option Owner → Workers → List WorkerView
  list_workers now owner w =
      sort_by (λ (v : WorkerView). v.name) (owned_views now owner (values w.entries))

  -- `List` of a registry.
  unfoldable pub list_registry : Dict Binding → List Binding
  list_registry registry = sort_by (λ (b : Binding). b.name) (values registry)

  module _ {C K : Type 0} where
    -- The connections that `List` collects.
    unfoldable pub realm_bindings : String → Dict Binding → Dict (Entry C K) → List Binding
    realm_bindings realm bindings [] = []
    realm_bindings realm bindings ((id, e) ∷ rest) =
        if e.owner.realm == realm
        then binding_at id bindings ∷ realm_bindings realm bindings rest
        else realm_bindings realm bindings rest

    -- `List` of the users' own connections.
    unfoldable pub list_connections : Connections C K → List Binding
    list_connections v =
        if is_some v.poison
        then []
        else sort_by (λ (b : Binding). b.label) (realm_bindings v.realm v.bindings v.entries)
