-- ===== src/Control/Engine/Execute/Delivery.antt =====
-- The steps of the executor, and what is delivered of a job.
use vector_transfer.Base.{
  ℕ, zero, suc, String, ◌≡◌, refl, sym, ap, ◌∙◌, subst, ◌⊎◌, inl, inr, Bool, true, false, none,
  some, List, arith, if◌then◌else◌, length, All, In, ◌<>◌, decimal, ℤ,
}
use vector_transfer.Base.Result.{Result, ok, err}
use vector_transfer.Base.Dict.{lookup}
use vector_transfer.Connector.{Record, Page}
use vector_transfer.Control.Job.{Job, Spec, State, queued, succeeded, failed, canceled}
use vector_transfer.Control.Journal.{Codec, Store}
use vector_transfer.Control.Store.{get}
use vector_transfer.Control.Store.Tracks.{Tracks, update-turns}
use vector_transfer.Control.Engine.{Engine}
use vector_transfer.Control.Engine.Execute.{
  Moment, Run, Fault, transient, permanent, arrive, run_get, run_update, finish, checkpoint_change,
}
use vector_transfer.Control.Engine.Execute.Loop.{
  Verdict, stop, again, transfer, give_up, record_page, advance, round, revoked_text, changed_text,
  execute_loop,
}
use vector_transfer.Control.Engine.Execute.Frozen.{IsFresh, Holds, arrive-Tracks}
use vector_transfer.Control.Engine.Execute.Retry.{Follows, Follows-trans}
use vector_transfer.Control.Engine.Execute.Backed.{
  IsBacked, IsFrozen-refl, IsBacked-frozen, IsBacked-checkpoint,
}
use vector_transfer.Control.Engine.Execute.Transfer.{transfer-Follows}
use vector_transfer.Control.Engine.Execute.Stops

module _ (c : Codec) (json_valid : String → Bool) (pages : String → ℤ → Page)
    (receipt : List Record → String) (env : ℕ → Moment) (id : String)
    (fresh : (n : ℕ) → All (IsFresh id) (env n).requests) (batch : ℤ) where
  abbrev page : String → Page
  page cursor = pages cursor batch

  abbrev Safe : Run → Type 0
  Safe = Stops.Safe c json_valid pages receipt env id fresh batch

  -- The update that records a checkpoint.
  checkpointed_run : Job → Run → Run
  checkpointed_run j r =
      let p = pages j.cursor j.spec.batch_size in
      (run_update c env j.id (if p.done then "succeeded" else "checkpoint")
        ("Acknowledged " <> decimal (length p.records) <> " records") (receipt p.records)
        (λ m. checkpoint_change m.io.now p) r).1

  checkpoint-Safe :
      (j : Job) (r : Run)
      → Holds c j id r.store
      → IsBacked page r.delivered j
      → j.spec.batch_size ≡ batch
      → j.source_exhausted ≡ false
      → ((x : Record) → In x (pages j.cursor j.spec.batch_size).records → In x r.delivered)
      → Safe (checkpointed_run j r)
  unfolding checkpointed_run run_update arrive checkpoint_change
  checkpoint-Safe j r t b size open_end written =
      let p = pages j.cursor j.spec.batch_size in
      let m = env r.step in
      update-turns c m.io j.id _ "worker" _ (receipt p.records)
        (λ x. ok (checkpoint_change m.io.now p x)) (arrive c env r).store
        (λ x f. (
          IsBacked-frozen page r.delivered r.delivered j x b (λ y i. i) f,
          ap (λ (s : Spec). s.batch_size) f.same_spec ∙ size,
        ))
        (λ x x' e. ground arith)
        (λ at x x' f e.
          let same : checkpoint_change m.io.now p x ≡ x' = cc in
          subst
            (λ (y : Job).
              IsBacked page r.delivered (record y { updated_at = at })
              × (y.spec.batch_size ≡ batch))
            same
            (
              IsBacked-checkpoint page p r.delivered m.io.now at j x (ap (pages j.cursor) size) b
                  open_end written f,
              ap (λ (s : Spec). s.batch_size) f.same_spec ∙ size,
            ))
        (arrive-Tracks c j id env fresh r t)

  record_page_shape :
      (j : Job) (r : Run)
      → let result = record_page c json_valid pages receipt env j r in
        (result.1 ≡ (finish c env j.id failed "Could not encode batch receipt" r).1)
        ⊎ (result.1 ≡ checkpointed_run j r)
        ⊎ (result.1 ≡ (run_get c env j.id (checkpointed_run j r)).1)
  unfolding record_page checkpointed_run
  record_page_shape j r = ground arith

  record_page-Safe :
      (j : Job) (r : Run)
      → Holds c j id r.store
      → IsBacked page r.delivered j
      → j.spec.batch_size ≡ batch
      → j.source_exhausted ≡ false
      → ((x : Record) → In x (pages j.cursor j.spec.batch_size).records → In x r.delivered)
      → Safe (record_page c json_valid pages receipt env j r).1
  record_page-Safe j r t b size open_end written =
      let safe = checkpoint-Safe j r t b size open_end written in
      elim (record_page_shape j r) [
        | inl e ↦ subst Safe (sym e) (
            Stops.Follows-Safe c json_valid pages receipt env id fresh batch j r _ b size (
              Stops.finish-Follows c json_valid pages receipt env id fresh batch j j.id failed _ r
                (λ h. cc) t))
        | inr (inl e) ↦ subst Safe (sym e) safe
        | inr (inr e) ↦ subst Safe (sym e) (
            Stops.run_get-Safe c json_valid pages receipt env id fresh batch j.id
              (checkpointed_run j r) safe)
      ]

  after_transfer : Job → Run → Run
  after_transfer j r = (transfer c json_valid pages receipt env j r).1

  abbrev done_text : String
  done_text = "Source scan was already fully acknowledged"

  advance_shape :
      (e : Engine) (stopped : Bool) (i : String) (j : Job) (r : Run)
      → let result = (advance c json_valid pages receipt env e stopped i j r).1 in
        let given = λ (fault : Fault).
          (give_up c json_valid pages receipt env j fault (after_transfer j r)).1 in
        (result ≡ (finish c env i canceled "" r).1)
        ⊎ (result ≡ (finish c env i queued "" r).1)
        ⊎ ((j.source_exhausted ≡ true) × (result ≡ (finish c env i succeeded done_text r).1))
        ⊎ (result ≡ (finish c env i failed revoked_text r).1)
        ⊎ (result ≡ (finish c env i failed changed_text r).1)
        ⊎ (result ≡ given transient)
        ⊎ (result ≡ given permanent)
        ⊎ (((transfer c json_valid pages receipt env j r).0 ≡ none)
            × (j.source_exhausted ≡ false)
            × (result ≡ (record_page c json_valid pages receipt env j (after_transfer j r)).1))
  unfolding advance after_transfer
  advance_shape e stopped i j r = ground arith

  advance-Safe :
      (e : Engine) (stopped : Bool) (i : String) (j : Job) (r : Run)
      → Holds c j id r.store
      → IsBacked page r.delivered j
      → j.spec.batch_size ≡ batch
      → Safe (advance c json_valid pages receipt env e stopped i j r).1
  unfolding after_transfer
  advance-Safe e stopped i j r t b size =
      let (f, written) = transfer-Follows c json_valid pages receipt env id fresh j j r t in
      let r' = after_transfer j r in
      let b' =
        IsBacked-frozen page r.delivered r'.delivered j j b f.grown (IsFrozen-refl j b.success) in
      let follow = λ (x : Run) (g : Follows c j id r x).
        Stops.Follows-Safe c json_valid pages receipt env id fresh batch j r x b size g in
      let finished =
        λ (state : State) (text : String) (h : state ≡ succeeded → j.source_exhausted ≡ true).
          follow _ (
            Stops.finish-Follows c json_valid pages receipt env id fresh batch j i state text r h
              t) in
      let given = λ (fault : Fault). follow _ (
        Follows-trans c j id env fresh f (
          Stops.give_up-Follows c json_valid pages receipt env id fresh batch j j fault r'
            f.held)) in
      elim (advance_shape e stopped i j r) [
        | inl q ↦ subst Safe (sym q) (finished canceled "" (λ h. cc))
        | inr (inl q) ↦ subst Safe (sym q) (finished queued "" (λ h. cc))
        | inr (inr (inl (ended, q))) ↦
            subst Safe (sym q) (finished succeeded done_text (λ h. ended))
        | inr (inr (inr (inl q))) ↦ subst Safe (sym q) (finished failed revoked_text (λ h. cc))
        | inr (inr (inr (inr (inl q)))) ↦
            subst Safe (sym q) (finished failed changed_text (λ h. cc))
        | inr (inr (inr (inr (inr (inl q))))) ↦ subst Safe (sym q) (given transient)
        | inr (inr (inr (inr (inr (inr (inl q)))))) ↦ subst Safe (sym q) (given permanent)
        | inr (inr (inr (inr (inr (inr (inr (moved, open_end, q))))))) ↦
            subst Safe (sym q) (record_page-Safe j r' f.held b' size open_end (written moved))
      ]

  found_job :
      (i : String) (P : Job → Type 0) (s : Store) (j : Job)
      → i ≡ id
      → (t : Tracks id P s) → get i s ≡ ok j
      → t.job ≡ j
  unfolding get
  found_job i P s j same t e =
      let at_i : lookup i s.jobs ≡ some t.job =
        subst (λ k. lookup k s.jobs ≡ some t.job) (sym same) t.at in
      ground (arith, at_i, e)

  round-Safe : (r : Run) → Safe r → Safe (round c json_valid pages receipt env id r).1
  unfolding round run_get
  round-Safe r t = by_state (get id (arrive c env r).store) refl
    where
      r1 : Run
      r1 = arrive c env r

      t1 : Safe r1
      t1 = Stops.run_get-Safe c json_valid pages receipt env id fresh batch id r t

      went : Result Job → Verdict × Run
      went state = elim state [
        | err e ↦ (stop (err e), r1)
        | ok current ↦
            advance c json_valid pages receipt env (env r.step).engine (env r.step).stopped id
              current r1
      ]

      by_state : (state : Result Job) → get id r1.store ≡ state → Safe (went state).1
      by_state (err e) found = t1
      by_state (ok current) found =
          let same = found_job id _ r1.store current refl t1 found in
          advance-Safe _ _ id current r1
            (subst (λ k. Holds c k id r1.store) same
              (Stops.Safe-Holds c json_valid pages receipt env id fresh batch r1 t1))
            (subst (IsBacked page r1.delivered) same t1.holds.0)
            (subst (λ (k : Job). k.spec.batch_size ≡ batch) same t1.holds.1)

  pub execute_loop-Safe :
      (fuel : ℕ) (r : Run) → Safe r → Safe (execute_loop c json_valid pages receipt env fuel id r).1
  unfolding execute_loop
  execute_loop-Safe zero r t = t
  execute_loop-Safe (suc fuel) r t =
      by_verdict (round c json_valid pages receipt env id r) (round-Safe r t)
        (execute_loop-Safe fuel)
    where
      next : Verdict × Run → Verdict × Run
      next (verdict, r') = elim verdict [
        | stop result ↦ (stop result, r')
        | again ↦ execute_loop c json_valid pages receipt env fuel id r'
      ]

      by_verdict :
          (x : Verdict × Run)
          → Safe x.1
          → ((r' : Run) → Safe r' → Safe (execute_loop c json_valid pages receipt env fuel id r').1)
          → Safe (next x).1
      by_verdict (stop result, r') t' rest = t'
      by_verdict (again, r') t' rest = rest r' t'
