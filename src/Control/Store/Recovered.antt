-- ===== src/Control/Store/Recovered.antt =====
-- What Recover does to the jobs that were interrupted.
use vector_transfer.Base.{
  ℕ, ◌+◌, String, ◌≡◌, refl, sym, ap, ◌∙◌, subst, ◌⊎◌, inl, inr, true, false, some, List, [], ◌∷◌,
  arith, eq_iff, ltb, Bool-cases, In,
}
use vector_transfer.Base.Result.{Error, Result, ok, err, Result-cases}
use vector_transfer.Base.Dict.{lookup, insert, values, lookup-insert, lookup-In}
use vector_transfer.Control.Job.{Job}
use vector_transfer.Control.Journal.{Codec, Store, Io, append}
use vector_transfer.Control.Journal.Changes.{append_lem}
use vector_transfer.Control.Store.{
  then_job_at, update, append_changed, list, sort_newest, insert_newest,
}
use vector_transfer.Control.Store.Recovery.{
  recover, recover_loop, recovered, is_hosted_active, recovery_text,
}
use vector_transfer.Control.Store.Keyed.{IsKeyed, IsKeyed-lookup}
use vector_transfer.Control.Store.Shape.{then_job_at_store}
use vector_transfer.Control.Store.Tracks.{Tracks, Respects, update-Tracks}

-- The order of a list does not change what it holds.
insert_newest-In : (j x : Job) (js : List Job) → (j ≡ x) ⊎ In x js → In x (insert_newest j js)
unfolding insert_newest
insert_newest-In j x [] h = h
insert_newest-In j x (k ∷ rest) h = elim (Bool-cases (ltb j.created_at k.created_at)) [
  | inr newer ↦ rw (insert_newest, newer) h
  | inl older ↦ rw (insert_newest, older) (in_either (insert_newest-In j x rest) h)
]
  where
    in_either :
        ((j ≡ x) ⊎ In x rest → In x (insert_newest j rest))
        → (j ≡ x) ⊎ ((k ≡ x) ⊎ In x rest)
        → (k ≡ x) ⊎ In x (insert_newest j rest)
    in_either later (inl first) = inr (later (inl first))
    in_either later (inr (inl same)) = inl same
    in_either later (inr (inr i)) = inr (later (inr i))

pub sort_newest-In : (x : Job) (js : List Job) → In x js → In x (sort_newest js)
unfolding sort_newest
sort_newest-In x [] h = h
sort_newest-In x (j ∷ rest) (inl same) = insert_newest-In j x (sort_newest rest) (inl same)
sort_newest-In x (j ∷ rest) (inr i) =
    insert_newest-In j x (sort_newest rest) (inr (sort_newest-In x rest i))

-- What a job keeps in a recovery: its checkpoint.
abbrev pub IsSameCheckpoint : Job → Job → Type 0
IsSameCheckpoint x j =
    (j.cursor ≡ x.cursor)
    × (j.records ≡ x.records)
    × (j.batches ≡ x.batches)
    × (j.source_exhausted ≡ x.source_exhausted)

abbrev pub IsIdleAt : Job → Job → Type 0
IsIdleAt x j = IsSameCheckpoint x j × (is_hosted_active j ≡ false)

recovered-Respects-same : (x : Job) → Respects (IsSameCheckpoint x) (λ j. ok (recovered j))
unfolding recovered
recovered-Respects-same x = record {
  same_id = λ j j' h. ground (arith, h);
  keeps = λ now j j' p h. ground (arith, p, h);
}

recovered-Respects-idle : (x : Job) → Respects (IsIdleAt x) (λ j. ok (recovered j))
unfolding recovered
recovered-Respects-idle x = record {
  same_id = λ j j' h. ground (arith, h);
  keeps = λ now j j' p h. ground (arith, p, h);
}

then_job_at_err :
    (id : String) (e : Error) (r : Result (Unit {0}) × Store)
    → r.0 ≡ err e
    → (then_job_at id r).0 ≡ err e
unfolding then_job_at
then_job_at_err id e (ok _, s) h = cc
then_job_at_err id e (err e', s) h = cc h

module _ (c : Codec) (ios : ℕ → Io) (id : String) (x : Job) where
  abbrev updated : Io → Job → Store → Result Job × Store
  updated io j s = update c io j.id "recovered" "worker" recovery_text "" (λ y. ok (recovered y)) s

  idle_kept :
      (n : ℕ) (js : List Job) (s : Store)
      → Tracks id (IsIdleAt x) s
      → Tracks id (IsIdleAt x) (recover_loop c ios n js s).1
  unfolding recover_loop
  idle_kept n [] s t = t
  idle_kept n (j ∷ rest) s t = elim (Bool-cases (is_hosted_active j)) [
    | inr idle ↦ rw (recover_loop, idle) (idle_kept n rest s t)
    | inl busy ↦
        let t' : Tracks id (IsIdleAt x) (updated (ios n) j s).1 =
          update-Tracks c (ios n) j.id "recovered" "worker" recovery_text "" _ s
            (recovered-Respects-idle x) t in
        elim (Result-cases (updated (ios n) j s).0) [
          | inr (e, lost) ↦ rw (recover_loop, busy, lost) t'
          | inl (j', kept) ↦
              rw (recover_loop, busy, kept) (idle_kept (n + 1) rest (updated (ios n) j s).1 t')
        ]
  ]

  updated_shape :
      (io : Io) (j y : Job) (s : Store)
      → lookup j.id s.jobs ≡ some y
      → updated io j s
        ≡ then_job_at j.id (append c io (recovered y) "recovered" "worker" recovery_text "" s)
  unfolding update append_changed
  updated_shape io j y s at = rw (update, at) refl

  refused :
      (io : Io) (j j' y : Job) (s : Store) (e : Error)
      → let r = append c io (recovered y) "recovered" "worker" recovery_text "" s in
        updated io j s ≡ then_job_at j.id r → r.0 ≡ err e → (updated io j s).0 ≡ ok j' → ⊥
  refused io j j' y s e shape failed kept =
      let r = append c io (recovered y) "recovered" "worker" recovery_text "" s in
      cc (ap (λ (q : Result Job × Store). q.0) shape, then_job_at_err j.id e r failed, kept)

  stamped :
      (io : Io) (y : Job) (s : Store)
      → y.id ≡ id
      → lookup id (insert (recovered y).id (record (recovered y) { updated_at = io.now }) s.jobs)
        ≡ some (record (recovered y) { updated_at = io.now })
  stamped io y s same =
      let named : (recovered y).id ≡ id =
        (recovered-Respects-same x).same_id y (recovered y) refl ∙ same in
      let found = (eq_iff (recovered y).id id).1 named in
      lookup-insert id (recovered y).id _ s.jobs ∙ rw found refl

  idle_now :
      (io : Io) (y : Job)
      → IsSameCheckpoint x y
      → IsIdleAt x (record (recovered y) { updated_at = io.now })
  unfolding recovered
  idle_now io y h = ground (arith, h)

  update_clears :
      (io : Io) (j j' : Job) (s : Store)
      → j.id ≡ id
      → (updated io j s).0 ≡ ok j'
      → Tracks id (IsSameCheckpoint x) s
      → Tracks id (IsIdleAt x) (updated io j s).1
  unfolding recovered
  update_clears io j j' s same kept t =
      let r = append c io (recovered t.job) "recovered" "worker" recovery_text "" s in
      let at : lookup j.id s.jobs ≡ some t.job =
        subst (λ k. lookup k s.jobs ≡ some t.job) (sym same) t.at in
      let shape = updated_shape io j t.job s at in
      let t' =
        update-Tracks c io j.id "recovered" "worker" recovery_text "" _ s
          (recovered-Respects-same x) t in
      let stored : (updated io j s).1 ≡ r.1 =
        ap (λ (q : Result Job × Store). q.1) shape ∙ then_job_at_store j.id r in
      elim (append_lem c io (recovered t.job) "recovered" "worker" recovery_text "" s) [
        | inr (e, failed, jobs) ↦ absurd (refused io j j' t.job s e shape failed kept)
        | inl (done, jobs, poison, clean) ↦ record {
          keyed = t'.keyed;
          job = record (recovered t.job) { updated_at = io.now };
          at = rw (stored, jobs) (stamped io t.job s (IsKeyed-lookup s.jobs id t.job t.keyed t.at));
          holds = idle_now io t.job t.holds;
        }
      ]

  loop_clears :
      (n : ℕ) (js : List Job) (s : Store) (j : Job)
      → In j js
      → j.id ≡ id
      → is_hosted_active j ≡ true
      → (recover_loop c ios n js s).0 ≡ ok tt
      → Tracks id (IsSameCheckpoint x) s
      → Tracks id (IsIdleAt x) (recover_loop c ios n js s).1
  unfolding recover_loop
  loop_clears n [] s j i same busy done t = absurd (i tt)
  loop_clears n (k ∷ rest) s j (inl first) same busy done t =
      let k_busy = ap is_hosted_active first ∙ busy in
      elim (Result-cases (updated (ios n) k s).0) [
        | inr (e, lost) ↦ cc (rw (recover_loop, k_busy, lost) at done)
        | inl (k', kept) ↦
            rw (recover_loop, k_busy, kept)
              (idle_kept (n + 1) rest (updated (ios n) k s).1
                (update_clears (ios n) k k' s (ap (λ (y : Job). y.id) first ∙ same) kept t))
      ]
  loop_clears n (k ∷ rest) s j (inr i) same busy done t = elim (Bool-cases (is_hosted_active k)) [
    | inr idle ↦
        rw (recover_loop, idle)
          (loop_clears n rest s j i same busy (rw (recover_loop, idle) at done) t)
    | inl k_busy ↦
        let t' : Tracks id (IsSameCheckpoint x) (updated (ios n) k s).1 =
          update-Tracks c (ios n) k.id "recovered" "worker" recovery_text "" _ s
            (recovered-Respects-same x) t in
        elim (Result-cases (updated (ios n) k s).0) [
          | inr (e, lost) ↦ cc (rw (recover_loop, k_busy, lost) at done)
          | inl (k', kept) ↦
              rw (recover_loop, k_busy, kept)
                (loop_clears (n + 1) rest (updated (ios n) k s).1 j i same busy
                  (rw (recover_loop, k_busy, kept) at done) t')
        ]
  ]

-- When Recover succeeds, each job that the store held is held under its ID still, with the cursor, the
-- counts and the end of its source as before; and if it is a job of the hosted engine, it is neither
-- running nor asked to cancel any more.
pub recover_clears :
    (c : Codec) (ios : ℕ → Io) (s : Store) (id : String) (x : Job)
    → IsKeyed s.jobs
    → lookup id s.jobs ≡ some x
    → (recover c ios s).0 ≡ ok tt
    → (j : Job) × (lookup id (recover c ios s).1.jobs ≡ some j)
      × IsSameCheckpoint x j
      × (is_hosted_active j ≡ false)
unfolding recover list
recover_clears c ios s id x keyed at done =
    let same : IsSameCheckpoint x x = (refl, refl, refl, refl) in
    let t : Tracks id (IsIdleAt x) (recover c ios s).1 = elim (Bool-cases (is_hosted_active x)) [
      | inr idle ↦
          idle_kept c ios id x 0 (list s) s
            (record { keyed = keyed; job = x; at = at; holds = (same, idle) })
      | inl busy ↦
          loop_clears c ios id x 0 (list s) s x
            (sort_newest-In x (values s.jobs) (lookup-In id x s.jobs at))
            (IsKeyed-lookup s.jobs id x keyed at) busy done
            (record { keyed = keyed; job = x; at = at; holds = same })
    ] in
    (t.job, t.at, t.holds.0, t.holds.1)
