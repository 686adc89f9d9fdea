-- ===== src/Control/Workers/Sessions.antt =====
-- Challenges, sessions and authentication of workers, control/workers.go.
use vector_transfer.Base.{
  ℕ, ◌+◌, ◌*◌, String, Bool, false, not, ◌&&◌, ◌||◌, Option, none, some, List, [], ◌∷◌, ◌==◌, ltb,
  leb, eqb, if◌then◌else◌, length, ◌!=◌, ◌<>◌,
}
use vector_transfer.Base.Result.{forbidden, workers_unavailable, message, Result, ok, err}
use vector_transfer.Base.Dict.{Dict, lookup, insert, delete}
use vector_transfer.Control.Job.{second}
use vector_transfer.Control.Workers.{Worker, Grant, Workers, Crypto, zero_worker, public_key_size}

-- `delete` of the grants that have expired or belong to the worker, as Challenge and Session do.
unfoldable pub keep_live : ℕ → String → Dict Grant → Dict Grant
keep_live now id [] = []
keep_live now id ((k, g) ∷ rest) =
    let kept = keep_live now id rest in
    if ltb g.until now || g.worker_id == id then kept else (k, g) ∷ kept

-- `Challenge`. `challenge` is the random text.
unfoldable pub issue_challenge : ℕ → String → String → Workers → Result String × Workers
unfolding keep_live
issue_challenge now challenge id w = elim w.poison [
  | some _ ↦ (err workers_unavailable, w)
  | none ↦ elim (lookup id w.entries) [
    | none ↦ (err forbidden, w)
    | some e ↦
        let live = keep_live now id w.challenges in
        let w' = record w { challenges = live } in
        if e.revoked || e.public_key == ""
        then (err forbidden, w)
        else if leb 1000 (length live)
        then (err (message "worker authentication busy; retry shortly"), w')
        else (
          ok challenge,
          record w' {
            challenges =
                insert challenge (record { worker_id = id; until = now + 60 * second }) live;
          },
        )
  ]
]

-- `w.entries[id]`, which is `Worker{}` for an unknown ID.
abbrev pub worker_at : String → Dict Worker → Worker
worker_at id entries = elim (lookup id entries) [ none ↦ zero_worker | some e ↦ e ]

-- `SessionProof`.
unfoldable pub session_proof : String → String → String
session_proof id challenge = "vector-transfer-worker-session-v1\n" <> id <> "\n" <> challenge

-- The signature test of `Session`.
abbrev pub verifies : Crypto → Option (List ℕ) → Option (List ℕ) → String → Bool
verifies x none sig proof = false
verifies x (some key) none proof = false
verifies x (some key) (some sig) proof = eqb (length key) public_key_size && x.verify key proof sig

-- `Session`. `token` is the random text.
unfoldable pub open_session :
    Crypto → ℕ → String → String → String → String → Workers → Result String × Workers
unfolding keep_live session_proof
open_session x now token id challenge signature w =
    let spent = record w { challenges = delete challenge w.challenges } in
    let e = worker_at id w.entries in
    elim w.poison [
      | some _ ↦ (err workers_unavailable, w)
      | none ↦ elim (lookup challenge w.challenges) [
        | none ↦ (err forbidden, spent)
        | some g ↦
            if g.worker_id != id
              || ltb g.until now
              || e.revoked
              || not (
                  verifies x (x.decode64 e.public_key) (x.decode64 signature)
                    (session_proof id challenge))
            then (err forbidden, spent)
            else (
              ok token,
              record spent {
                sessions =
                    insert (x.token_digest token)
                      (record { worker_id = id; until = now + 600 * second })
                      (keep_live now id w.sessions);
              },
            )
      ]
    ]

-- `Authenticate`.
unfoldable pub authenticate : Crypto → ℕ → String → Workers → Result Worker
authenticate x now token w = elim w.poison [
  | some _ ↦ err workers_unavailable
  | none ↦ elim (lookup (x.token_digest token) w.sessions) [
    | none ↦ err forbidden
    | some g ↦
        let e = worker_at g.worker_id w.entries in
        if ltb g.until now || e.revoked then err forbidden else ok e
  ]
]
