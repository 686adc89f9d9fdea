-- ===== src/Control/Workers/Grants.antt =====
-- The challenges and sessions of workers over the requests to the registry.
use vector_transfer.Base.{
  ℕ, ◌+◌, ◌*◌, ◌≤◌, String, ◌≡◌, ap, ◌∙◌, inl, inr, false, Option, none, some, List, [], ◌∷◌, arith,
  ◌==◌, Bool-cases, All,
}
use vector_transfer.Base.Dict.{Dict, lookup, lookup-insert, lookup-delete}
use vector_transfer.Durable.{Calls, write}
use vector_transfer.Control.Job.{Owner, second}
use vector_transfer.Control.Workers.{
  Workers, Worker, WorkerManifest, Crypto, Grant, save, create, revoke, enroll,
}
use vector_transfer.Control.Workers.Sessions.{keep_live, issue_challenge, open_session}
use vector_transfer.Control.Workers.Manifest.{publish, touch, update_entry}
use vector_transfer.Control.Workers.Steps.{
  Step, creates, revokes, enrolls, asks, opens, publishes, touches, step, steps,
}

keep_live-none :
    (now : ℕ) (id k : String) (m : Dict Grant)
    → lookup k m ≡ none
    → lookup k (keep_live now id m) ≡ none
unfolding keep_live lookup
keep_live-none now id k [] h = h
keep_live-none now id k ((j, g) ∷ m) h = ground (arith, h, keep_live-none now id k m)

keep_live-some :
    (now : ℕ) (id k : String) (g : Grant) (m : Dict Grant)
    → lookup k m ≡ some g
    → (g.worker_id == id) ≡ false
    → now ≤ g.until
    → lookup k (keep_live now id m) ≡ some g
unfolding keep_live lookup
keep_live-some now id k g [] h other timely = h
keep_live-some now id k g ((j, g') ∷ m) h other timely =
    let later = keep_live-some now id k g m in
    elim (Bool-cases (j == k)) [
      | inl here ↦ ground (arith, here, h, other, timely)
      | inr there ↦ ground (arith, there, h, other, timely, later)
    ]

-- The registry's grants, of which only Challenge changes the one kind and only Session both.
abbrev SameGrants : Workers → Workers → Type 0
SameGrants v w = (v.challenges ≡ w.challenges) × (v.sessions ≡ w.sessions)

module _ (x : Crypto) where
  create-SameGrants :
      (calls : Calls) (now : ℕ) (token id : String) (owner : Option Owner) (name : String)
      (w : Workers)
      → SameGrants (create x calls now token id owner name w).1 w
  unfolding create save write
  create-SameGrants calls now token id owner name w = ground arith

  revoke-SameGrants :
      (calls : Calls) (id : String) (owner : Option Owner) (w : Workers)
      → SameGrants (revoke calls id owner w).1 w
  unfolding revoke save write
  revoke-SameGrants calls id owner w = ground arith

  enroll-SameGrants :
      (calls : Calls) (now : ℕ) (id token key : String) (w : Workers)
      → SameGrants (enroll x calls now id token key w).1 w
  unfolding enroll save write
  enroll-SameGrants calls now id token key w = ground arith

  update-SameGrants :
      (calls : Calls) (id : String) (f : Worker → Worker) (w : Workers)
      → SameGrants (update_entry calls id f w).1 w
  unfolding update_entry save write
  update-SameGrants calls id f w = ground arith

  publish-SameGrants :
      (calls : Calls) (now : ℕ) (id : String) (m : WorkerManifest) (w : Workers)
      → SameGrants (publish calls now id m w).1 w
  unfolding publish
  publish-SameGrants calls now id m w =
      ground
        (arith, update-SameGrants calls id (λ e. record e { manifest = m; last_seen = some now }) w)

  module _ (challenge : String) where
    -- The step issues no challenge with this text.
    abbrev pub IsFresh : Step → Type 0
    IsFresh (asks now challenge' id) = (challenge' == challenge) ≡ false
    IsFresh other = Unit

    abbrev IsSpent : Workers → Type 0
    IsSpent w = lookup challenge w.challenges ≡ none

    ask-IsSpent :
        (now : ℕ) (challenge' id : String) (w : Workers)
        → (challenge' == challenge) ≡ false
        → IsSpent w
        → IsSpent (issue_challenge now challenge' id w).1
    unfolding issue_challenge
    ask-IsSpent now challenge' id w fresh h = ground (
      arith,
      h,
      fresh,
      keep_live-none now id challenge w.challenges h,
      lookup-insert challenge challenge' (record { worker_id = id; until = now + 60 * second })
          (keep_live now id w.challenges),
    )

    open-IsSpent :
        (now : ℕ) (token id challenge' signature : String) (w : Workers)
        → IsSpent w
        → IsSpent (open_session x now token id challenge' signature w).1
    unfolding open_session
    open-IsSpent now token id challenge' signature w h =
        ground (arith, h, lookup-delete challenge challenge' w.challenges)

    step-IsSpent : (s : Step) (w : Workers) → IsFresh s → IsSpent w → IsSpent (step x s w)
    unfolding step touch
    step-IsSpent (creates calls now token id owner name) w fresh h =
        ap (lookup challenge) (create-SameGrants calls now token id owner name w).0 ∙ h
    step-IsSpent (revokes calls id owner) w fresh h =
        ap (lookup challenge) (revoke-SameGrants calls id owner w).0 ∙ h
    step-IsSpent (enrolls calls now id token key) w fresh h =
        ap (lookup challenge) (enroll-SameGrants calls now id token key w).0 ∙ h
    step-IsSpent (asks now challenge' id) w fresh h = ask-IsSpent now challenge' id w fresh h
    step-IsSpent (opens now token id challenge' signature) w fresh h =
        open-IsSpent now token id challenge' signature w h
    step-IsSpent (publishes calls now id m) w fresh h =
        ap (lookup challenge) (publish-SameGrants calls now id m w).0 ∙ h
    step-IsSpent (touches calls now id) w fresh h =
        ap (lookup challenge) (update-SameGrants calls id _ w).0 ∙ h

    pub steps-IsSpent :
        (xs : List Step) (w : Workers) → All IsFresh xs → IsSpent w → IsSpent (steps x xs w)
    unfolding steps
    steps-IsSpent [] w fresh h = h
    steps-IsSpent (s ∷ rest) w fresh h =
        steps-IsSpent rest (step x s w) fresh.1 (step-IsSpent s w fresh.0 h)

  module _ (challenge : String) (g : Grant) where
    -- The step neither names this challenge in Session, nor issues one with its text or for its worker,
    -- nor drops it as expired.
    abbrev pub IsAside : Step → Type 0
    IsAside (asks now challenge' id) =
        ((challenge' == challenge) ≡ false) × ((g.worker_id == id) ≡ false) × (now ≤ g.until)
    IsAside (opens now token id challenge' signature) = (challenge' == challenge) ≡ false
    IsAside other = Unit

    abbrev IsIssued : Workers → Type 0
    IsIssued w = lookup challenge w.challenges ≡ some g

    ask-IsIssued :
        (now : ℕ) (challenge' id : String) (w : Workers)
        → (challenge' == challenge) ≡ false
        → (g.worker_id == id) ≡ false
        → now ≤ g.until
        → IsIssued w
        → IsIssued (issue_challenge now challenge' id w).1
    unfolding issue_challenge
    ask-IsIssued now challenge' id w fresh other timely h = ground (
      arith,
      h,
      fresh,
      keep_live-some now id challenge g w.challenges h other timely,
      lookup-insert challenge challenge' (record { worker_id = id; until = now + 60 * second })
          (keep_live now id w.challenges),
    )

    open-IsIssued :
        (now : ℕ) (token id challenge' signature : String) (w : Workers)
        → (challenge' == challenge) ≡ false
        → IsIssued w
        → IsIssued (open_session x now token id challenge' signature w).1
    unfolding open_session
    open-IsIssued now token id challenge' signature w other h =
        ground (arith, h, other, lookup-delete challenge challenge' w.challenges)

    step-IsIssued : (s : Step) (w : Workers) → IsAside s → IsIssued w → IsIssued (step x s w)
    unfolding step touch
    step-IsIssued (creates calls now token id owner name) w aside h =
        ap (lookup challenge) (create-SameGrants calls now token id owner name w).0 ∙ h
    step-IsIssued (revokes calls id owner) w aside h =
        ap (lookup challenge) (revoke-SameGrants calls id owner w).0 ∙ h
    step-IsIssued (enrolls calls now id token key) w aside h =
        ap (lookup challenge) (enroll-SameGrants calls now id token key w).0 ∙ h
    step-IsIssued (asks now challenge' id) w aside h =
        ask-IsIssued now challenge' id w aside.0 aside.1 aside.2 h
    step-IsIssued (opens now token id challenge' signature) w aside h =
        open-IsIssued now token id challenge' signature w aside h
    step-IsIssued (publishes calls now id m) w aside h =
        ap (lookup challenge) (publish-SameGrants calls now id m w).0 ∙ h
    step-IsIssued (touches calls now id) w aside h =
        ap (lookup challenge) (update-SameGrants calls id _ w).0 ∙ h

    pub steps-IsIssued :
        (xs : List Step) (w : Workers) → All IsAside xs → IsIssued w → IsIssued (steps x xs w)
    unfolding steps
    steps-IsIssued [] w aside h = h
    steps-IsIssued (s ∷ rest) w aside h =
        steps-IsIssued rest (step x s w) aside.1 (step-IsIssued s w aside.0 h)

  module _ (token : String) (g : Grant) where
    -- The step opens no session for this session's worker or under a token with the same digest, and
    -- does not drop it as expired.
    abbrev pub IsApart : Step → Type 0
    IsApart (opens now token' id challenge signature) =
        ((x.token_digest token' == x.token_digest token) ≡ false)
        × ((g.worker_id == id) ≡ false)
        × (now ≤ g.until)
    IsApart other = Unit

    abbrev IsOpened : Workers → Type 0
    IsOpened w = lookup (x.token_digest token) w.sessions ≡ some g

    open-IsOpened :
        (now : ℕ) (token' id challenge signature : String) (w : Workers)
        → (x.token_digest token' == x.token_digest token) ≡ false
        → (g.worker_id == id) ≡ false
        → now ≤ g.until
        → IsOpened w
        → IsOpened (open_session x now token' id challenge signature w).1
    unfolding open_session
    open-IsOpened now token' id challenge signature w fresh other timely h = ground (
      arith,
      h,
      fresh,
      keep_live-some now id (x.token_digest token) g w.sessions h other timely,
      lookup-insert (x.token_digest token) (x.token_digest token')
          (record { worker_id = id; until = now + 600 * second }) (keep_live now id w.sessions),
    )

    ask-sessions :
        (now : ℕ) (challenge id : String) (w : Workers)
        → (issue_challenge now challenge id w).1.sessions ≡ w.sessions
    unfolding issue_challenge
    ask-sessions now challenge id w = ground arith

    step-IsOpened : (s : Step) (w : Workers) → IsApart s → IsOpened w → IsOpened (step x s w)
    unfolding step touch
    step-IsOpened (creates calls now token' id owner name) w apart h =
        ap (lookup (x.token_digest token)) (create-SameGrants calls now token' id owner name w).1
        ∙ h
    step-IsOpened (revokes calls id owner) w apart h =
        ap (lookup (x.token_digest token)) (revoke-SameGrants calls id owner w).1 ∙ h
    step-IsOpened (enrolls calls now id token' key) w apart h =
        ap (lookup (x.token_digest token)) (enroll-SameGrants calls now id token' key w).1 ∙ h
    step-IsOpened (asks now challenge id) w apart h =
        ap (lookup (x.token_digest token)) (ask-sessions now challenge id w) ∙ h
    step-IsOpened (opens now token' id challenge signature) w apart h =
        open-IsOpened now token' id challenge signature w apart.0 apart.1 apart.2 h
    step-IsOpened (publishes calls now id m) w apart h =
        ap (lookup (x.token_digest token)) (publish-SameGrants calls now id m w).1 ∙ h
    step-IsOpened (touches calls now id) w apart h =
        ap (lookup (x.token_digest token)) (update-SameGrants calls id _ w).1 ∙ h

    pub steps-IsOpened :
        (xs : List Step) (w : Workers) → All IsApart xs → IsOpened w → IsOpened (steps x xs w)
    unfolding steps
    steps-IsOpened [] w apart h = h
    steps-IsOpened (s ∷ rest) w apart h =
        steps-IsOpened rest (step x s w) apart.1 (step-IsOpened s w apart.0 h)
