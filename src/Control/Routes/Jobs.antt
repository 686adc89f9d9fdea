-- ===== src/Control/Routes/Jobs.antt =====
-- The routes of jobs, control/api.go.
use vector_transfer.Base.{
  ℕ, ◌+◌, ◌-◌, min, String, Bool, not, ◌&&◌, ◌||◌, Option, none, some, List, [], ◌∷◌, ◌==◌,
  if◌then◌else◌, is_some, length, take, drop, ◌<>◌, ℤ, pos, pos_part, ltb_ℤ,
}
use vector_transfer.Base.Result.{forbidden, message, Result, ok, err, ◌>>=◌}
use vector_transfer.Account.{Reply, answered}
use vector_transfer.Control.Job.{Job, Spec, Owner, same_owner, state_name}
use vector_transfer.Control.Journal.{Codec, Store, Io, Event}
use vector_transfer.Control.Store.{list, health}
use vector_transfer.Control.Store.Events.{events}
use vector_transfer.Control.Engine.{Engine, authorized}
use vector_transfer.Control.Engine.Submit.{submit}
use vector_transfer.Control.Engine.Action.{act}
use vector_transfer.Control.Views.{public_job, owned_job, principal, query_int}
use vector_transfer.Control.Protocol.{answer}

-- The filter of GET /v1/jobs.
unfoldable pub filter_jobs : Option Owner → String → List Job → List Job
unfolding state_name public_job
filter_jobs owner state [] = []
filter_jobs owner state (j ∷ rest) =
    let filtered = filter_jobs owner state rest in
    if same_owner j.owner owner && (state == "" || state_name j.state == state)
    then public_job j ∷ filtered
    else filtered

-- `jobs[start:end]` of GET /v1/jobs.
unfoldable pub page_of {ℓ} : {A : Type ℓ} → ℕ → ℕ → List A → List A
page_of offset limit xs =
    let start = min offset (length xs) in
    let end_ = min (start + limit) (length xs) in take (end_ - start) (drop start xs)

-- The answer of GET /v1/jobs.
pub record JobsReply : Type 0 where
  pub jobs : List Job
  pub total : ℕ

unfoldable pub jobs_page : ℕ → ℕ → List Job → JobsReply
unfolding page_of
jobs_page offset limit filtered = record {
  jobs = page_of offset limit filtered;
  total = length filtered;
}

-- GET /v1/jobs. `limit`, `offset` and `state` are the texts of the query.
unfoldable pub get_jobs :
    (String → Option ℤ) → Option Owner → String → String → String → Store → Result JobsReply
unfolding jobs_page filter_jobs list query_int
get_jobs atoi owner limit offset state s =
    query_int atoi "limit" limit (pos 100) (pos 1) (pos 1000) >>= λ l.
    query_int atoi "offset" offset (pos 0) (pos 0) (pos 100000000) >>= λ o.
    ok (jobs_page (pos_part o) (pos_part l) (filter_jobs owner state (list s)))

-- The actor of a request.
unfoldable pub actor_of : String → Option Owner → String
unfolding principal
actor_of token none = principal token
actor_of token (some o) = "account:" <> o.subject

abbrev pub owners_of : Option Owner → List Owner
owners_of none = []
owners_of (some o) = o ∷ []

-- POST /v1/jobs.
unfoldable pub post_job :
    Codec
    → Io
    → Option String
    → Engine
    → String
    → Option Owner
    → Spec
    → String
    → Store
    → Reply Job × Store
unfolding actor_of
post_job c io id e token owner spec key s =
    let (r, s') = submit c io id e spec key (actor_of token owner) (owners_of owner) s in
    (
      elim r [
        | err failure ↦ if is_some (health s') then answered 503 none else answer (err failure)
        | ok (j, created) ↦ answered (if created then 202 else 200) (some (public_job j))
      ],
      s',
    )

-- GET /v1/jobs/{id}.
unfoldable pub get_job : Option Owner → String → Store → Reply Job
get_job owner id s = answer (owned_job id owner s >>= λ j. ok (public_job j))

-- The answer of GET /v1/jobs/{id}/events.
pub record EventsReply : Type 0 where
  pub events : List Event
  pub next_after : ℤ

abbrev last_sequence : ℤ → List Event → ℤ
last_sequence after [] = after
last_sequence after (e ∷ rest) = last_sequence (pos e.sequence) rest

-- GET /v1/jobs/{id}/events. `parse` is strconv.ParseInt, and `stat` tells whether the journal can be
-- asked for its size.
unfoldable pub get_events :
    Codec
    → (String → Option ℤ)
    → (String → Option ℤ)
    → Bool
    → Option Owner
    → String
    → String
    → String
    → Store
    → Result EventsReply
unfolding query_int
get_events c parse atoi stat owner id after limit s = owned_job id owner s >>= λ j.
    elim (if after == "" then some (pos 0) else parse after) [
      | none ↦ err (message "invalid after cursor")
      | some from ↦
          if ltb_ℤ from (pos 0)
          then err (message "invalid after cursor")
          else query_int atoi "limit" limit (pos 100) (pos 1) (pos 1000) >>= λ l.
              events c stat id from l s >>= λ found.
              ok (record { events = found; next_after = last_sequence from found })
    ]

-- POST /v1/jobs/{id}/{action}.
unfoldable pub post_action :
    Codec → Io → Engine → String → Option Owner → String → String → Store → Reply Job × Store
unfolding actor_of
post_action c io e token owner id action s =
    let (r, s') = act c io id action (actor_of token owner) s in
    elim (owned_job id owner s) [
      | err failure ↦ (answer (err failure), s)
      | ok current ↦
          if action == "resume" && not (authorized e current)
          then (answer (err forbidden), s)
          else (answer (r >>= λ j. ok (public_job j)), s')
    ]
