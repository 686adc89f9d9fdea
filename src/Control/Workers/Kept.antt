-- ===== src/Control/Workers/Kept.antt =====
-- What the requests to the registry of workers leave as it is.
use vector_transfer.Base.{
  ℕ, ◌+◌, ◌*◌, String, ◌≡◌, refl, ap, ◌∙◌, inl, inr, Bool, true, false, Option, none, some, List,
  [], ◌∷◌, arith, ◌==◌, Bool-cases, Option-cases, All, ==_sound,
}
use vector_transfer.Base.Dict.{Dict, lookup, insert, lookup-insert}
use vector_transfer.Durable.{Calls, write}
use vector_transfer.Control.Job.{Owner, second}
use vector_transfer.Control.Workers.{
  Workers, Worker, WorkerManifest, Crypto, save, create, revoke, enroll, zero_worker,
}
use vector_transfer.Control.Workers.Sessions.{issue_challenge, open_session}
use vector_transfer.Control.Workers.Manifest.{publish, touch, update_entry}
use vector_transfer.Control.Workers.Steps.{
  Step, creates, revokes, enrolls, asks, opens, publishes, touches, step, steps,
}

save-entries :
    (calls : Calls) (w : Workers)
    → ((save calls w).1.entries ≡ w.entries)
      × ((save calls w).1.challenges ≡ w.challenges)
      × ((save calls w).1.sessions ≡ w.sessions)
unfolding save write
save-entries calls w = ground arith

-- The public key of an entry, and whether it is revoked.
abbrev pub key_at : Option Worker → Option String
key_at none = none
key_at (some e) = some e.public_key

abbrev pub revoked_at : Option Worker → Option Bool
revoked_at none = none
revoked_at (some e) = some e.revoked

pub held-entry :
    (key : String) (found : Option Worker)
    → key_at found ≡ some key
    → revoked_at found ≡ some false
    → (e : Worker) × (found ≡ some e) × (e.public_key ≡ key) × (e.revoked ≡ false)
held-entry key none h k = cc h
held-entry key (some e) h k = (e, refl, ground (arith, h), ground (arith, k))

module _ (x : Crypto) (id : String) where
  -- The step registers no worker under this ID.
  abbrev pub IsNew : Step → Type 0
  IsNew (creates calls now token id' owner name) = (id' == id) ≡ false
  IsNew other = Unit

  -- The step registers no worker under this ID and revokes none under it.
  abbrev pub IsSparing : Step → Type 0
  IsSparing (creates calls now token id' owner name) = (id' == id) ≡ false
  IsSparing (revokes calls id' owner) = (id' == id) ≡ false
  IsSparing other = Unit

  key-insert :
      (i : String) (e e' : Worker) (m : Dict Worker)
      → lookup i m ≡ some e
      → e'.public_key ≡ e.public_key
      → key_at (lookup id (insert i e' m)) ≡ key_at (lookup id m)
  key-insert i e e' m at same = elim (Bool-cases (i == id)) [
    | inl here ↦ rw (lookup-insert id i e' m, here) (ground (arith, at, same, ==_sound i id here))
    | inr other ↦ rw (lookup-insert id i e' m, other) refl
  ]

  revoked-insert :
      (i : String) (e e' : Worker) (m : Dict Worker)
      → lookup i m ≡ some e
      → e'.revoked ≡ e.revoked
      → revoked_at (lookup id (insert i e' m)) ≡ revoked_at (lookup id m)
  revoked-insert i e e' m at same = elim (Bool-cases (i == id)) [
    | inl here ↦ rw (lookup-insert id i e' m, here) (ground (arith, at, same, ==_sound i id here))
    | inr other ↦ rw (lookup-insert id i e' m, other) refl
  ]

  update-key :
      (calls : Calls) (i : String) (f : Worker → Worker) (w : Workers)
      → ((e : Worker) → (f e).public_key ≡ e.public_key)
      → key_at (lookup id (update_entry calls i f w).1.entries) ≡ key_at (lookup id w.entries)
  unfolding update_entry
  update-key calls i f w same = elim (Option-cases (lookup i w.entries)) [
    | inl missing ↦ ground (arith, missing)
    | inr (e, at) ↦ ground (
      arith,
      at,
      save-entries calls (record w { entries = insert i (f e) w.entries }),
      key-insert i e (f e) w.entries at (same e),
    )
  ]

  update-revoked :
      (calls : Calls) (i : String) (f : Worker → Worker) (w : Workers)
      → ((e : Worker) → (f e).revoked ≡ e.revoked)
      → revoked_at (lookup id (update_entry calls i f w).1.entries)
        ≡ revoked_at (lookup id w.entries)
  unfolding update_entry
  update-revoked calls i f w same = elim (Option-cases (lookup i w.entries)) [
    | inl missing ↦ ground (arith, missing)
    | inr (e, at) ↦ ground (
      arith,
      at,
      save-entries calls (record w { entries = insert i (f e) w.entries }),
      revoked-insert i e (f e) w.entries at (same e),
    )
  ]

  create-entries :
      (calls : Calls) (now : ℕ) (token id' : String) (owner : Option Owner) (name : String)
      (w : Workers)
      → (id' == id) ≡ false
      → lookup id (create x calls now token id' owner name w).1.entries ≡ lookup id w.entries
  unfolding create
  create-entries calls now token id' owner name w other =
      let e : Worker = record zero_worker {
        id = id';
        name = name;
        owner = owner;
        created_at = now;
        enrollment_until = now + 600 * second;
        enrollment_hash = x.token_digest token;
      } in
      ground (
        arith,
        other,
        save-entries calls (record w { entries = insert id' e w.entries }),
        lookup-insert id id' e w.entries,
      )

  revoke-key :
      (calls : Calls) (i : String) (owner : Option Owner) (w : Workers)
      → key_at (lookup id (revoke calls i owner w).1.entries) ≡ key_at (lookup id w.entries)
  unfolding revoke
  revoke-key calls i owner w = elim (Option-cases (lookup i w.entries)) [
    | inl missing ↦ ground (arith, missing)
    | inr (e, at) ↦
        let e' : Worker = record e { revoked = true; enrollment_hash = "" } in
        ground (
          arith,
          at,
          save-entries calls (record w { entries = insert i e' w.entries }),
          key-insert i e e' w.entries at refl,
        )
  ]

  revoke-revoked :
      (calls : Calls) (i : String) (owner : Option Owner) (w : Workers)
      → (i == id) ≡ false
      → revoked_at (lookup id (revoke calls i owner w).1.entries) ≡ revoked_at (lookup id w.entries)
  unfolding revoke
  revoke-revoked calls i owner w other = elim (Option-cases (lookup i w.entries)) [
    | inl missing ↦ ground (arith, missing)
    | inr (e, at) ↦
        let e' : Worker = record e { revoked = true; enrollment_hash = "" } in
        ground (
          arith,
          at,
          other,
          save-entries calls (record w { entries = insert i e' w.entries }),
          lookup-insert id i e' w.entries,
        )
  ]

  enroll-key :
      (calls : Calls) (now : ℕ) (i token key' key : String) (w : Workers)
      → (key == "") ≡ false
      → key_at (lookup id w.entries) ≡ some key
      → key_at (lookup id (enroll x calls now i token key' w).1.entries) ≡ some key
  unfolding enroll
  enroll-key calls now i token key' key w named h = elim (Option-cases (lookup i w.entries)) [
    | inl missing ↦ ground (arith, missing, h)
    | inr (e, at) ↦
        let e' : Worker = record e { public_key = key'; enrollment_hash = "" } in
        elim (Bool-cases (i == id)) [
          | inl here ↦
              let same : e.public_key ≡ key = ground (arith, at, h, ==_sound i id here) in
              let filled : (e.public_key == "") ≡ false = rw same named in
              ground (arith, at, h, filled)
          | inr other ↦ ground (
            arith,
            at,
            h,
            other,
            save-entries calls (record w { entries = insert i e' w.entries }),
            lookup-insert id i e' w.entries,
          )
        ]
  ]

  enroll-revoked :
      (calls : Calls) (now : ℕ) (i token key' : String) (w : Workers)
      → revoked_at (lookup id (enroll x calls now i token key' w).1.entries)
        ≡ revoked_at (lookup id w.entries)
  unfolding enroll
  enroll-revoked calls now i token key' w = elim (Option-cases (lookup i w.entries)) [
    | inl missing ↦ ground (arith, missing)
    | inr (e, at) ↦
        let e' : Worker = record e { public_key = key'; enrollment_hash = "" } in
        ground (
          arith,
          at,
          save-entries calls (record w { entries = insert i e' w.entries }),
          revoked-insert i e e' w.entries at refl,
        )
  ]

  ask-entries :
      (now : ℕ) (challenge i : String) (w : Workers)
      → (issue_challenge now challenge i w).1.entries ≡ w.entries
  unfolding issue_challenge
  ask-entries now challenge i w = ground arith

  open-entries :
      (now : ℕ) (token i challenge signature : String) (w : Workers)
      → (open_session x now token i challenge signature w).1.entries ≡ w.entries
  unfolding open_session
  open-entries now token i challenge signature w = ground arith

  publish-key :
      (calls : Calls) (now : ℕ) (i : String) (m : WorkerManifest) (w : Workers)
      → (key_at (lookup id (publish calls now i m w).1.entries) ≡ key_at (lookup id w.entries))
        × (revoked_at (lookup id (publish calls now i m w).1.entries)
            ≡ revoked_at (lookup id w.entries))
  unfolding publish
  publish-key calls now i m w =
      let f : Worker → Worker = λ e. record e { manifest = m; last_seen = some now } in
      ground (arith, update-key calls i f w (λ e. refl), update-revoked calls i f w (λ e. refl))

  module _ (key : String) (named : (key == "") ≡ false) where
    step-key :
        (s : Step) (w : Workers)
        → IsNew s
        → key_at (lookup id w.entries) ≡ some key
        → key_at (lookup id (step x s w).entries) ≡ some key
    unfolding step touch
    step-key (creates calls now token id' owner name) w new h =
        ap key_at (create-entries calls now token id' owner name w new) ∙ h
    step-key (revokes calls i owner) w new h = revoke-key calls i owner w ∙ h
    step-key (enrolls calls now i token key') w new h =
        enroll-key calls now i token key' key w named h
    step-key (asks now challenge i) w new h =
        ap (λ (m : Dict Worker). key_at (lookup id m)) (ask-entries now challenge i w) ∙ h
    step-key (opens now token i challenge signature) w new h =
        ap (λ (m : Dict Worker). key_at (lookup id m))
          (open-entries now token i challenge signature w)
        ∙ h
    step-key (publishes calls now i m) w new h = (publish-key calls now i m w).0 ∙ h
    step-key (touches calls now i) w new h = update-key calls i _ w (λ e. refl) ∙ h

    pub steps-key :
        (xs : List Step) (w : Workers)
        → All IsNew xs
        → key_at (lookup id w.entries) ≡ some key
        → key_at (lookup id (steps x xs w).entries) ≡ some key
    unfolding steps
    steps-key [] w new h = h
    steps-key (s ∷ rest) w new h = steps-key rest (step x s w) new.1 (step-key s w new.0 h)

  step-revoked :
      (s : Step) (w : Workers)
      → IsSparing s
      → revoked_at (lookup id (step x s w).entries) ≡ revoked_at (lookup id w.entries)
  unfolding step touch
  step-revoked (creates calls now token id' owner name) w spared =
      ap revoked_at (create-entries calls now token id' owner name w spared)
  step-revoked (revokes calls i owner) w spared = revoke-revoked calls i owner w spared
  step-revoked (enrolls calls now i token key') w spared = enroll-revoked calls now i token key' w
  step-revoked (asks now challenge i) w spared =
      ap (λ (m : Dict Worker). revoked_at (lookup id m)) (ask-entries now challenge i w)
  step-revoked (opens now token i challenge signature) w spared =
      ap (λ (m : Dict Worker). revoked_at (lookup id m))
        (open-entries now token i challenge signature w)
  step-revoked (publishes calls now i m) w spared = (publish-key calls now i m w).1
  step-revoked (touches calls now i) w spared = update-revoked calls i _ w (λ e. refl)

  pub steps-revoked :
      (xs : List Step) (w : Workers)
      → All IsSparing xs
      → revoked_at (lookup id (steps x xs w).entries) ≡ revoked_at (lookup id w.entries)
  unfolding steps
  steps-revoked [] w spared = refl
  steps-revoked (s ∷ rest) w spared =
      steps-revoked rest (step x s w) spared.1 ∙ step-revoked s w spared.0
