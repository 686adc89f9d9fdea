-- ===== src/Client/SignOn.antt =====
-- The session that a customer worker opens with the control plane's registry.
use vector_transfer.Base.{
  ℕ, ◌+◌, ◌*◌, ◌≤◌, ◌<◌, String, ◌≡◌, refl, ap, ◌∙◌, Bool, true, false, ◌&&◌, none, some, List,
  arith, ◌==◌, ltb, length, All, ◌!=◌, byte_length, ==_refl, pos, All-map,
}
use vector_transfer.Base.Result.{ok}
use vector_transfer.Base.Dict.{lookup, insert, lookup-insert}
use vector_transfer.Account.{Reply, answered}
use vector_transfer.Control.Job.{second}
use vector_transfer.Control.Workers.{Workers, Worker, Grant, Crypto}
use vector_transfer.Control.Workers.Steps.{
  Step, creates, revokes, enrolls, asks, opens, publishes, touches, steps,
}
use vector_transfer.Control.Workers.Kept.{
  IsNew, IsSparing, key_at, revoked_at, held-entry, steps-key, steps-revoked,
}
use vector_transfer.Control.Workers.Grants.{IsAside, IsApart, steps-IsIssued, steps-IsOpened}
use vector_transfer.Control.Workers.Sessions.{
  issue_challenge, open_session, authenticate, session_proof, keep_live,
}
use vector_transfer.Control.Protocol.{post_challenge, post_session, answer}
use vector_transfer.Client.{Client, Local, Plane, session, receive, keep_session, signature}

-- The two sides' cryptography fits: base64 decodes what it has encoded of a public key or a signature, a
-- public key has 32 bytes, and a signature verifies under the public key of the seed that made it.
abbrev pub IsMatched : Crypto → Local → Type 0
IsMatched x l =
    ((seed : List ℕ) → x.decode64 (l.encode64 (l.public_key seed)) ≡ some (l.public_key seed))
    × ((seed : List ℕ) (text : String)
        → x.decode64 (l.encode64 (l.sign seed text)) ≡ some (l.sign seed text))
    × ((seed : List ℕ) → length (l.public_key seed) ≡ 32)
    × ((seed : List ℕ) (text : String)
        → x.verify (l.public_key seed) text (l.sign seed text) ≡ true)

challenge_given :
    (now : ℕ) (challenge id : String) (w : Workers) (e : Worker)
    → w.poison ≡ none
    → lookup id w.entries ≡ some e
    → e.revoked ≡ false
    → (e.public_key == "") ≡ false
    → length (keep_live now id w.challenges) < 1000
    → post_challenge now challenge id w ≡ (
      answered 200 (some challenge),
      record w {
        challenges =
            insert challenge
              (record { worker_id = id; until = now + 60 * second })
              (keep_live now id w.challenges);
      },
    )
unfolding post_challenge issue_challenge answer
challenge_given now challenge id w e well at free keyed room =
    ground (arith, well, at, free, keyed, room)

session_given :
    (x : Crypto) (now : ℕ) (token id challenge sig : String) (w : Workers) (e : Worker) (g : Grant)
    (key bytes : List ℕ)
    → w.poison ≡ none
    → lookup challenge w.challenges ≡ some g
    → (g.worker_id == id) ≡ true
    → now ≤ g.until
    → lookup id w.entries ≡ some e
    → e.revoked ≡ false
    → x.decode64 e.public_key ≡ some key
    → length key ≡ 32
    → x.decode64 sig ≡ some bytes
    → x.verify key (session_proof id challenge) bytes ≡ true
    → let (r, w') = post_session x now token id challenge sig w in
      (r ≡ answered 200 (some (record { token = token; expires_in = pos 600 })))
      × (lookup (x.token_digest token) w'.sessions
          ≡ some (record { worker_id = id; until = now + 600 * second }))
      × (w'.entries ≡ w.entries)
      × (w'.poison ≡ none)
unfolding post_session open_session answer
session_given x now token id challenge sig w e g key bytes well there mine timely at free decoded
      sized signed verified =
    ground (
      arith,
      well,
      there,
      mine,
      timely,
      at,
      free,
      decoded,
      sized,
      signed,
      verified,
      ==_refl (x.token_digest token),
      lookup-insert (x.token_digest token) (x.token_digest token)
          (record { worker_id = id; until = now + 600 * second }) (keep_live now id w.sessions),
    )

authenticated :
    (x : Crypto) (now until : ℕ) (token id : String) (w : Workers) (e : Worker)
    → w.poison ≡ none
    → lookup (x.token_digest token) w.sessions ≡ some (record { worker_id = id; until = until })
    → lookup id w.entries ≡ some e
    → e.revoked ≡ false
    → now ≤ until
    → authenticate x now token w ≡ ok e
unfolding authenticate
authenticated x now until token id w e well there at free timely =
    ground (arith, well, there, at, free, timely)

session_kept :
    (l : Local) (p : Plane) (c : Client) (challenge token : String)
    → (c.token != "" && ltb p.now c.token_until) ≡ false
    → p.challenge ≡ answered 200 (some challenge)
    → byte_length challenge ≡ 64
    → p.opened challenge (signature l c challenge)
      ≡ answered 200 (some (record { token = token; expires_in = pos 600 }))
    → byte_length token ≡ 64
    → session l p c ≡ (ok tt, record c { token = token; token_until = p.later + 570 * second })
unfolding session receive keep_session
session_kept l p c challenge token stale asked long opened token_long =
    ground (arith, stale, asked, long, opened, token_long)

-- The control plane as the worker sees it: it answers the challenge request with `asked`, and the session
-- request at time `t1` from the registry after that.
abbrev pub registry_plane : Crypto → String → String → ℕ → ℕ → ℕ → Reply String × Workers → Plane
registry_plane x token id now t1 later asked = record {
  now = now;
  later = later;
  challenge = asked.0;
  opened = λ ch sig. (post_session x t1 token id ch sig asked.1).0;
}

-- The registry at the session request, after the challenge request and the requests `xs` behind it.
abbrev pub asked_registry : Crypto → String → String → ℕ → List Step → Workers → Workers
asked_registry x id challenge t0 xs w = steps x xs (post_challenge t0 challenge id w).1

-- The challenge and the session that the registry stores.
abbrev pub challenge_grant : String → ℕ → Grant
challenge_grant id t0 = record { worker_id = id; until = t0 + 60 * second }

abbrev pub session_grant : String → ℕ → Grant
session_grant id t1 = record { worker_id = id; until = t1 + 600 * second }

challenge_stored :
    (now : ℕ) (challenge id : String) (w : Workers) (e : Worker)
    → w.poison ≡ none
    → lookup id w.entries ≡ some e
    → e.revoked ≡ false
    → (e.public_key == "") ≡ false
    → length (keep_live now id w.challenges) < 1000
    → let (r, w') = post_challenge now challenge id w in
      (r ≡ answered 200 (some challenge))
      × (lookup challenge w'.challenges ≡ some (challenge_grant id now))
      × (lookup id w'.entries ≡ some e)
challenge_stored now challenge id w e well at free keyed room =
    let given = challenge_given now challenge id w e well at free keyed room in
    (
      ap (λ (q : Reply String × Workers). q.0) given,
      ap (λ (q : Reply String × Workers). lookup challenge q.1.challenges) given
          ∙ lookup-insert challenge challenge (challenge_grant id now)
              (keep_live now id w.challenges)
          ∙ rw (==_refl challenge) refl,
      ap (λ (q : Reply String × Workers). lookup id q.1.entries) given ∙ at,
    )

-- The worker's entry, over requests that neither register nor revoke it.
entry_kept :
    (x : Crypto) (id : String) (xs : List Step) (w : Workers) (e : Worker) (key : String)
    → All (IsSparing x id) xs
    → (key == "") ≡ false
    → lookup id w.entries ≡ some e
    → e.public_key ≡ key
    → e.revoked ≡ false
    → (e' : Worker) × (lookup id (steps x xs w).entries ≡ some e')
      × (e'.public_key ≡ key)
      × (e'.revoked ≡ false)
entry_kept x id xs w e key spared filled at keyed free =
    held-entry key (lookup id (steps x xs w).entries)
      (steps-key x id key filled xs w (All-map (IsSparing x id) (IsNew x id) xs spares spared)
        (ap key_at at ∙ ap (λ (k : String). some k) keyed))
      (steps-revoked x id xs w spared ∙ ap revoked_at at ∙ ap (λ (b : Bool). some b) free)
  where
    spares : (s : Step) → IsSparing x id s → IsNew x id s
    spares (creates calls now token id' owner name) h = h
    spares (revokes calls id' owner) h = tt
    spares (enrolls calls now id' token key') h = tt
    spares (asks now challenge id') h = tt
    spares (opens now token id' challenge sig) h = tt
    spares (publishes calls now id' m) h = tt
    spares (touches calls now id') h = tt

-- A worker that is enrolled with its own key and not revoked, and that has no session it may still use,
-- opens one: if fewer than 1000 challenges are open, the challenge and the token have 64 bytes, the
-- proof reaches the registry within a minute of the challenge and the answer is back within half a
-- minute, then the session is kept, and the registry accepts its token as the worker with this key at
-- every time at which the worker would use it. Other requests may reach the registry before the proof
-- and after it, as long as they leave it unpoisoned, do not register or revoke this worker, do not ask
-- for another challenge for it or issue or spend the same challenge before the proof, open no other
-- session for it and none under the same digest after it, and come before the grants run out.
pub session_accepted :
    (x : Crypto) (l : Local) (c : Client) (w : Workers) (e : Worker) (challenge token : String)
    (now t0 t1 later : ℕ) (xs ys : List Step)
    → IsMatched x l
    → w.poison ≡ none
    → lookup c.identity.id w.entries ≡ some e
    → e.revoked ≡ false
    → (e.public_key == "") ≡ false
    → e.public_key ≡ l.encode64 (l.public_key c.identity.seed)
    → (c.token != "" && ltb now c.token_until) ≡ false
    → length (keep_live t0 c.identity.id w.challenges) < 1000
    → byte_length challenge ≡ 64
    → byte_length token ≡ 64
    → t1 ≤ t0 + 60 * second
    → later ≤ t1 + 30 * second
    → All (IsSparing x c.identity.id) xs
    → All (IsSparing x c.identity.id) ys
    → All (IsAside x challenge (challenge_grant c.identity.id t0)) xs
    → All (IsApart x token (session_grant c.identity.id t1)) ys
    → (asked_registry x c.identity.id challenge t0 xs w).poison ≡ none
    → (steps x ys
        (post_session x t1 token c.identity.id challenge
          (signature l c challenge)
          (asked_registry x c.identity.id challenge t0 xs w)).1).poison
      ≡ none
    → let id = c.identity.id in
      let asked = (post_challenge t0 challenge id w).0 in
      let w1 = asked_registry x id challenge t0 xs w in
      let (r, c') = session l (registry_plane x token id now t1 later (asked, w1)) c in
      let w2 = steps x ys (post_session x t1 token id challenge (signature l c challenge) w1).1 in
      (r ≡ ok tt)
      × (c'.token ≡ token)
      × ((t : ℕ)
          → t < c'.token_until
          → (e' : Worker) × (authenticate x t c'.token w2 ≡ ok e')
            × (lookup id w2.entries ≡ some e')
            × (e'.public_key ≡ e.public_key))
session_accepted x l c w e challenge token now t0 t1 later xs ys
      (decodes, decodes_sig, sized, verifies) well at free keyed own stale room long token_long soon
      back spared1 spared2 aside apart well1 well2 =
    let id = c.identity.id in
    let proof = session_proof id challenge in
    let sig = signature l c challenge in
    let (asked, issued, at0) = challenge_stored t0 challenge id w e well at free keyed room in
    let w1 = asked_registry x id challenge t0 xs w in
    let (e1, at1, key1, free1) = entry_kept x id xs _ e e.public_key spared1 keyed at0 refl free in
    let (replied, stored, entries, sound) =
      session_given x t1 token id challenge sig w1 e1 (challenge_grant id t0)
        (l.public_key c.identity.seed) (l.sign c.identity.seed proof) well1
        (steps-IsIssued x challenge (challenge_grant id t0) xs _ aside issued) (==_refl id) soon at1
        free1 (ap x.decode64 (key1 ∙ own) ∙ decodes c.identity.seed) (sized c.identity.seed)
        (decodes_sig c.identity.seed proof) (verifies c.identity.seed proof) in
    let (e2, at2, key2, free2) =
      entry_kept x id ys _ e1 e.public_key spared2 keyed (ap (lookup id) entries ∙ at1) key1
        free1 in
    let plane = registry_plane x token id now t1 later ((post_challenge t0 challenge id w).0, w1) in
    let kept = session_kept l plane c challenge token stale asked long replied token_long in
    rw kept (
      refl,
      refl,
      λ t timely. (
        e2,
        authenticated x t (t1 + 600 * second) token id _ e2 well2
            (steps-IsOpened x token (session_grant id t1) ys _ apart stored) at2 free2
            (omega (arith, timely, back)),
        at2,
        key2,
      ),
    )
