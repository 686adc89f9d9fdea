-- ===== src/Client/Rounds.antt =====
-- The start of Run in worker/worker.go, and its rounds.
use vector_transfer.Base.{
  ℕ, String, Bool, true, false, not, ◌&&◌, Option, List, if◌then◌else◌, is_some,
}
use vector_transfer.Base.Result.{Error, message, Result, ok, err, ◌>>=◌, is_ok}
use vector_transfer.Base.Dict.{Dict}
use vector_transfer.Connector.{Binding}
use vector_transfer.Account.{Reply}
use vector_transfer.Control.Journal.{Codec, Store, Io}
use vector_transfer.Control.Store.{health}
use vector_transfer.Control.Store.Recovery.{recover}
use vector_transfer.Control.Workers.{WorkerPair, WorkerManifest}
use vector_transfer.Control.Lease.{WorkerAssignment}
use vector_transfer.Client.{Client, Local, Plane, call, validate_url}
use vector_transfer.Client.Enroll.{manifest}

-- The start of `Run`. `opened` is the result of OpenStore on the worker's data directory.
unfoldable pub prepare_run :
    Local
    → Codec
    → (ℕ → Io)
    → Client
    → Dict Binding
    → List WorkerPair
    → Bool
    → Result Store
    → Result (WorkerManifest × Store)
unfolding manifest validate_url
prepare_run l c ios client registry pairs allow_local_http opened =
    if not client.identity.enrolled
    then err (message "enroll this worker first")
    else validate_url l client.identity.url allow_local_http >>= λ base.
        manifest l client registry pairs >>= λ m.
        opened >>= λ s. let (recovered, s') = recover c ios s in recovered >>= λ done. ok (m, s')

-- A round of `Run` up to its claim: `accepted` answers the manifest and `claimed` the claim.
unfoldable pub publish_round :
    Local → Plane → (String → Reply Bool) → Bool → Client → Result (Unit {0}) × Bool × Client
publish_round l p accepted published client =
    let (r, client') = call l p accepted client in
    if published then (ok tt, true, client) else elim r [
      | err e ↦ (err e, false, client')
      | ok yes_ ↦
          if yes_
          then (ok tt, true, client')
          else (err (message "worker manifest rejected"), false, client')
    ]

-- The rest of a round: what there is to execute, if anything.
unfoldable pub claim_round :
    Local
    → Plane
    → Plane
    → (String → Reply Bool)
    → (String → Reply (Option WorkerAssignment))
    → Bool
    → Client
    → Result (Option WorkerAssignment) × Bool × Client
unfolding publish_round
claim_round l p p' accepted claimed published client =
    let (r, published', client') = publish_round l p accepted published client in
    let (found, client'') = call l p' claimed client' in
    elim r [ err e ↦ (err e, false, client') | ok _ ↦ (found, published', client'') ]

-- The end of a round, after its requests and its execution: Run stops, or goes on and publishes the
-- manifest again if something has failed.
pub data Round : Type 0 where
  stops_run : Error → Round
  goes_on : Bool → Round

unfoldable pub finish_round : Bool → Result (Unit {0}) → Store → Round
finish_round published outcome s =
    if is_some (health s)
    then stops_run (message "worker checkpoint store unavailable; execution stopped")
    else goes_on (published && is_ok outcome)
