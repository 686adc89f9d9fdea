-- ===== src/Control/Workers/Once.antt =====
-- What counts once in the registry: a challenge, an enrollment; and what a revoked worker can do.
use vector_transfer.Base.{
  ℕ, String, ◌≡◌, refl, sym, ap, ◌∙◌, ◌≢◌, ◌⊎◌, inl, inr, Bool, true, false, Option, none, some,
  List, arith, ◌==◌, Option-cases, All, ==_refl, ==_sound,
}
use vector_transfer.Base.Result.{forbidden, ok, err}
use vector_transfer.Base.Dict.{lookup, insert, delete, lookup-insert, lookup-delete}
use vector_transfer.Durable.{Calls, write}
use vector_transfer.Control.Job.{Owner, same_owner}
use vector_transfer.Control.Workers.{Workers, Worker, Crypto, Grant, save, get, revoke, enroll}
use vector_transfer.Control.Workers.Steps.{Step, steps}
use vector_transfer.Control.Workers.Kept.{IsNew, key_at, steps-key}
use vector_transfer.Control.Workers.Grants.{IsFresh, steps-IsSpent}
use vector_transfer.Control.Workers.Sessions.{open_session, authenticate}

-- A session request uses its challenge up, whether it succeeds or not.
spent_challenge :
    (x : Crypto) (now : ℕ) (token id challenge signature : String) (w : Workers)
    → w.poison ≡ none
    → let w' = (open_session x now token id challenge signature w).1 in
      (w'.challenges ≡ delete challenge w.challenges) × (w'.poison ≡ none)
unfolding open_session
spent_challenge x now token id challenge signature w well = ground (arith, well)

forbidden_challenge :
    (x : Crypto) (now : ℕ) (token id challenge signature : String) (w : Workers)
    → w.poison ≡ none
    → lookup challenge w.challenges ≡ none
    → (open_session x now token id challenge signature w).0 ≡ err forbidden
unfolding open_session
forbidden_challenge x now token id challenge signature w well gone = ground (arith, well, gone)

-- A challenge counts once: after a request to Session has named it, whatever that request's signature,
-- worker and outcome were, and after any later requests to the registry of which none draws a challenge
-- with the same text, Session answers ErrForbidden for it. The registry is not poisoned before the one
-- request and before the other.
pub challenge_once :
    (x : Crypto) (now now' : ℕ) (token token' id id' challenge signature signature' : String)
    (w : Workers) (xs : List Step)
    → w.poison ≡ none
    → All (IsFresh x challenge) xs
    → (steps x xs (open_session x now token id challenge signature w).1).poison ≡ none
    → (open_session x now' token' id' challenge signature'
        (steps x xs (open_session x now token id challenge signature w).1)).0
      ≡ err forbidden
challenge_once x now now' token token' id id' challenge signature signature' w xs well fresh well' =
    let (challenges, same) = spent_challenge x now token id challenge signature w well in
    let spent =
      ap (lookup challenge) challenges
      ∙ lookup-delete challenge challenge w.challenges
      ∙ rw (==_refl challenge) refl in
    forbidden_challenge x now' token' id' challenge signature' _ well'
      (steps-IsSpent x challenge xs _ fresh spent)

-- A save that succeeds changes nothing but the file, and the registry is not poisoned.
pub save_ok :
    (calls : Calls) (w : Workers)
    → (save calls w).0 ≡ ok tt
    → ((save calls w).1.entries ≡ w.entries)
      × ((save calls w).1.poison ≡ none)
      × ((save calls w).1.disk ≡ w.entries)
unfolding save write
save_ok calls w h = ground arith

module _ (x : Crypto) (id : String) (w : Workers) (e : Worker) (well : w.poison ≡ none)
    (at : lookup id w.entries ≡ some e) (gone : e.revoked ≡ true) where
  no_enrollment :
      (calls : Calls) (now : ℕ) (token key : String)
      → (enroll x calls now id token key w).0 ≡ err forbidden
  unfolding enroll
  no_enrollment calls now token key = ground (arith, well, at, gone)

  no_session :
      (now : ℕ) (token challenge signature : String)
      → (open_session x now token id challenge signature w).0 ≡ err forbidden
  unfolding open_session
  no_session now token challenge signature = ground (arith, well, at, gone)

  no_authentication :
      (now : ℕ) (token : String) (g : Grant)
      → lookup (x.token_digest token) w.sessions ≡ some g
      → g.worker_id ≡ id
      → authenticate x now token w ≡ err forbidden
  unfolding authenticate
  no_authentication now token g session owned = ground (arith, well, at, gone, session, owned)

  no_worker :
      (owner : Option Owner) → same_owner e.owner owner ≡ true → get id owner w ≡ err forbidden
  unfolding get
  no_worker owner mine = ground (arith, well, at, gone, mine)

module _ (calls : Calls) (id : String) (owner : Option Owner) (w : Workers) where
  revoke_shape :
      (revoke calls id owner w).0 ≡ ok tt
      → (e : Worker) × ((same_owner e.owner owner ≡ true)
          × ((save calls (record w {
            entries = insert id (record e { revoked = true; enrollment_hash = "" }) w.entries;
          })).0
              ≡ ok tt)
          × ((revoke calls id owner w).1
              ≡ (save calls (record w {
                entries = insert id (record e { revoked = true; enrollment_hash = "" }) w.entries;
              })).1))
  unfolding revoke
  revoke_shape h = elim (Option-cases (lookup id w.entries)) [
    | inl missing ↦ absurd (ground (arith, missing, h))
    | inr (e, found) ↦ (e, ground (arith, found, h))
  ]

  abbrev revoked_registry : Workers
  revoked_registry = (revoke calls id owner w).1

  revoked_entry :
      (revoke calls id owner w).0 ≡ ok tt
      → (revoked_registry.poison ≡ none)
        × ((e : Worker) × (lookup id revoked_registry.entries ≡ some e)
            × (e.revoked ≡ true)
            × (same_owner e.owner owner ≡ true)
            × (lookup id revoked_registry.disk ≡ some e))
  revoked_entry h =
      let (e, (mine, saved, shape)) = revoke_shape h in
      let gone : Worker = record e { revoked = true; enrollment_hash = "" } in
      let (entries, well, disk) =
        save_ok calls (record w { entries = insert id gone w.entries }) saved in
      let here : lookup id (insert id gone w.entries) ≡ some gone =
        lookup-insert id id gone w.entries ∙ rw (==_refl id) refl in
      (
        ap (λ (r : Workers). r.poison) shape ∙ well,
        (
          gone,
          ap (λ (r : Workers). lookup id r.entries) shape ∙ ap (lookup id) entries ∙ here,
          refl,
          mine,
          ap (λ (r : Workers). lookup id r.disk) shape ∙ ap (lookup id) disk ∙ here,
        ),
      )

  -- After Revoke has returned nil, the worker is marked revoked on disk as in memory, and the
  -- registry refuses to enroll it, to open a session for it, to authenticate a token of its
  -- sessions, and to give it to its owner's submissions.
  pub revoked_refused :
      (x : Crypto)
      → (revoke calls id owner w).0 ≡ ok tt
      → let w' = (revoke calls id owner w).1 in
        ((e : Worker) × (lookup id w'.disk ≡ some e) × (e.revoked ≡ true))
        × ((calls' : Calls) (now : ℕ) (token key : String)
            → (enroll x calls' now id token key w').0 ≡ err forbidden)
        × ((now : ℕ) (token challenge signature : String)
            → (open_session x now token id challenge signature w').0 ≡ err forbidden)
        × ((now : ℕ) (token : String) (g : Grant)
            → lookup (x.token_digest token) w'.sessions ≡ some g
            → g.worker_id ≡ id
            → authenticate x now token w' ≡ err forbidden)
        × (get id owner w' ≡ err forbidden)
  revoked_refused x h =
      let (well, (e, at, gone, mine, on_disk)) = revoked_entry h in
      let w' = revoked_registry in
      (
        (e, on_disk, gone),
        λ calls' now token key. no_enrollment x id w' e well at gone calls' now token key,
        λ now token challenge signature.
            no_session x id w' e well at gone now token challenge signature,
        λ now token g session owned.
            no_authentication x id w' e well at gone now token g session owned,
        no_worker x id w' e well at gone owner mine,
      )

Bool-not : (b : Bool) → ¬ (b ≡ true) → b ≡ false
Bool-not true h = absurd (h refl)
Bool-not false h = refl

other_key :
    (x : Crypto) (calls : Calls) (now : ℕ) (id token key key' : String) (w : Workers) (e : Worker)
    → w.poison ≡ none
    → lookup id w.entries ≡ some e
    → e.public_key ≡ key
    → key ≢ ""
    → key' ≢ key
    → (enroll x calls now id token key' w).0 ≡ err forbidden
unfolding enroll
other_key x calls now id token key key' w e well at keyed named other =
    let different : (e.public_key == key') ≡ false =
      Bool-not (e.public_key == key') (λ t. other (sym (==_sound e.public_key key' t) ∙ keyed)) in
    let present : (e.public_key == "") ≡ false =
      Bool-not (e.public_key == "") (λ t. named (sym keyed ∙ ==_sound e.public_key "" t)) in
    ground (arith, well, at, different, present)

module _ (x : Crypto) (calls : Calls) (now : ℕ) (id token key : String) (w : Workers) where
  enroll_shape :
      (e : Worker)
      → lookup id w.entries ≡ some e
      → (enroll x calls now id token key w).0 ≡ ok tt
      → ((w.poison ≡ none)
          × ((e.public_key == key) ≡ true)
          × ((enroll x calls now id token key w).1 ≡ w))
        ⊎ (((save calls (record w {
          entries = insert id (record e { public_key = key; enrollment_hash = "" }) w.entries;
        })).0
              ≡ ok tt)
            × ((enroll x calls now id token key w).1
                ≡ (save calls (record w {
                  entries =
                      insert id (record e { public_key = key; enrollment_hash = "" }) w.entries;
                })).1))
  unfolding enroll
  enroll_shape e at h = ground (arith, at, h)

  missing_worker : lookup id w.entries ≡ none → ¬ ((enroll x calls now id token key w).0 ≡ ok tt)
  unfolding enroll
  missing_worker at h = ground (arith, at, h)

  enrolled :
      (enroll x calls now id token key w).0 ≡ ok tt
      → let w' = (enroll x calls now id token key w).1 in
        (w'.poison ≡ none) × ((e : Worker) × (lookup id w'.entries ≡ some e) × (e.public_key ≡ key))
  enrolled h = elim (Option-cases (lookup id w.entries)) [
    | inl missing ↦ absurd (missing_worker missing h)
    | inr (e, at) ↦ elim (enroll_shape e at h) [
      | inl (well, same, shape) ↦ (
        ap (λ (r : Workers). r.poison) shape ∙ well,
        (e, ap (λ (r : Workers). lookup id r.entries) shape ∙ at, ==_sound e.public_key key same),
      )
      | inr (saved, shape) ↦
          let stored : Worker = record e { public_key = key; enrollment_hash = "" } in
          let (entries, well, disk) =
            save_ok calls (record w { entries = insert id stored w.entries }) saved in
          (
            ap (λ (r : Workers). r.poison) shape ∙ well,
            (
              stored,
              ap (λ (r : Workers). lookup id r.entries) shape
                  ∙ ap (lookup id) entries
                  ∙ lookup-insert id id stored w.entries
                  ∙ rw (==_refl id) refl,
              refl,
            ),
          )
    ]
  ]

keyed-entry :
    (key : String) (found : Option Worker)
    → key_at found ≡ some key
    → (e : Worker) × (found ≡ some e) × (e.public_key ≡ key)
keyed-entry key none h = cc h
keyed-entry key (some e) h = (e, refl, ground (arith, h))

-- An enrollment that succeeds, under a nonempty key, is final: after any later requests to the
-- registry of which none registers a worker under the same ID, Enroll refuses every other key for that
-- worker, whatever token it comes with, if the registry is not poisoned.
pub enroll_once :
    (x : Crypto) (calls calls' : Calls) (now now' : ℕ) (id token token' key key' : String)
    (w : Workers) (xs : List Step)
    → key ≢ ""
    → key' ≢ key
    → (enroll x calls now id token key w).0 ≡ ok tt
    → All (IsNew x id) xs
    → (steps x xs (enroll x calls now id token key w).1).poison ≡ none
    → (enroll x calls' now' id token' key' (steps x xs (enroll x calls now id token key w).1)).0
      ≡ err forbidden
enroll_once x calls calls' now now' id token token' key key' w xs named other h new well =
    let (well0, (e, at, keyed)) = enrolled x calls now id token key w h in
    let filled : (key == "") ≡ false = Bool-not (key == "") (λ t. named (==_sound key "" t)) in
    let kept =
      steps-key x id key filled xs _ new (ap key_at at ∙ ap (λ (k : String). some k) keyed) in
    let (e', at', keyed') = keyed-entry key _ kept in
    other_key x calls' now' id token' key key' _ e' well at' keyed' named other
