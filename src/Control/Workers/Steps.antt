-- ===== src/Control/Workers/Steps.antt =====
-- The requests that change the registry of workers, one after another, control/workers.go.
use vector_transfer.Base.{ℕ, String, Option, List, [], ◌∷◌}
use vector_transfer.Control.Job.{Owner}
use vector_transfer.Durable.{Calls}
use vector_transfer.Control.Workers.{Workers, Crypto, WorkerManifest, create, revoke, enroll}
use vector_transfer.Control.Workers.Sessions.{issue_challenge, open_session}
use vector_transfer.Control.Workers.Manifest.{publish, touch}

-- Create, Revoke, Enroll, Challenge, Session, Publish and Touch, with the random texts that they draw.
pub data Step : Type 0 where
  creates : Calls → ℕ → String → String → Option Owner → String → Step
  revokes : Calls → String → Option Owner → Step
  enrolls : Calls → ℕ → String → String → String → Step
  asks : ℕ → String → String → Step
  opens : ℕ → String → String → String → String → Step
  publishes : Calls → ℕ → String → WorkerManifest → Step
  touches : Calls → ℕ → String → Step

unfoldable pub step : Crypto → Step → Workers → Workers
step x (creates calls now token id owner name) w = (create x calls now token id owner name w).1
step x (revokes calls id owner) w = (revoke calls id owner w).1
step x (enrolls calls now id token key) w = (enroll x calls now id token key w).1
step x (asks now challenge id) w = (issue_challenge now challenge id w).1
step x (opens now token id challenge signature) w =
    (open_session x now token id challenge signature w).1
step x (publishes calls now id m) w = (publish calls now id m w).1
step x (touches calls now id) w = (touch calls now id w).1

unfoldable pub steps : Crypto → List Step → Workers → Workers
steps x [] w = w
steps x (s ∷ rest) w = steps x rest (step x s w)
