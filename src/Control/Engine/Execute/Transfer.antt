-- ===== src/Control/Engine/Execute/Transfer.antt =====
-- One page: read, tested, and written by the sink.
use vector_transfer.Base.{
  ℕ, String, ◌≡◌, refl, sym, subst, ◌≢◌, ◌⊎◌, inl, inr, Bool, true, Option, none, some, List, [],
  ◌∷◌, ◌++◌, arith, eqb, length, All, In, ℤ,
}
use vector_transfer.Connector.{Record, Page}
use vector_transfer.Control.Job.{Job, read, write}
use vector_transfer.Control.Journal.{Codec}
use vector_transfer.Control.Engine.Execute.{Moment, Run, Fault, retry_loop}
use vector_transfer.Control.Engine.Execute.Loop.{attempts, read_call, write_call, transfer}
use vector_transfer.Control.Engine.Execute.Frozen.{IsFresh, Holds}
use vector_transfer.Control.Engine.Execute.Retry.{
  IsCall, Follows, Follows-trans, retry_loop-Follows,
}
use vector_transfer.Control.Engine.Execute.Backed.{In-append_left, In-append_right}

module _ (c : Codec) (json_valid : String → Bool) (pages : String → ℤ → Page)
    (receipt : List Record → String) (env : ℕ → Moment) (id : String)
    (fresh : (n : ℕ) → All (IsFresh id) (env n).requests) where
  read_call-IsCall : IsCall (λ r. Unit) (read_call)
  unfolding read_call
  read_call-IsCall = record {
    call_store = λ m r. refl;
    call_grows = λ m r x i. i;
    call_done = λ m r h. tt;
  }

  write_call-IsCall :
      (records : List Record)
      → IsCall (λ r. (x : Record) → In x records → In x r.delivered) (write_call records)
  unfolding write_call
  write_call-IsCall records = record {
    call_store = λ m r. ground arith;
    call_grows = λ m r x i. by_fault m.write_fault r x i;
    call_done = λ m r h x i. acknowledged m.write_fault r h x i;
  }
    where
      answer : Option Fault → Run → Option Fault × Run
      answer f r = elim f [
        | none ↦ (none, record r { delivered = r.delivered ++ records })
        | some g ↦ (some g, r)
      ]

      by_fault :
          (f : Option Fault) (r : Run) (x : Record)
          → In x r.delivered
          → In x (answer f r).1.delivered
      by_fault none r x i = In-append_left x r.delivered records i
      by_fault (some g) r x i = i

      acknowledged :
          (f : Option Fault) (r : Run)
          → (answer f r).0 ≡ none
          → (x : Record) → In x records
          → In x (answer f r).1.delivered
      acknowledged none r h x i = In-append_right x r.delivered records i
      acknowledged (some g) r h x i = cc

  after_read : Job → Run → Run
  after_read j r = (retry_loop c env (attempts j) 1 j read "read" (read_call) r).1

  transfer_shape :
      (j : Job) (r : Run)
      → let result = transfer c json_valid pages receipt env j r in
        let p = pages j.cursor j.spec.batch_size in
        ((result.0 ≢ none) × (result.1 ≡ after_read j r))
        ⊎ ((eqb (length p.records) 0 ≡ true) × (result.1 ≡ after_read j r))
        ⊎ (result
            ≡ retry_loop c env
                (attempts j)
                1
                j
                write
                "write"
                (write_call p.records)
                (after_read j r))
  unfolding transfer after_read
  transfer_shape j r = ground arith

  no_In : (x : Record) (xs : List Record) → eqb (length xs) 0 ≡ true → In x xs → ⊥
  no_In x [] h i = i tt
  no_In x (y ∷ xs) h i = ground arith

  -- After a transfer that returns nil, the page's records are acknowledged.
  pub transfer-Follows :
      (k j : Job) (r : Run)
      → Holds c k id r.store
      → let result = transfer c json_valid pages receipt env j r in
        Follows c k id r result.1
        × (result.0 ≡ none
            → (x : Record) → In x (pages j.cursor j.spec.batch_size).records
            → In x result.1.delivered)
  unfolding after_read
  transfer-Follows k j r t =
      let (f, done) =
        retry_loop-Follows c k id env fresh j read "read" (read_call) read_call-IsCall (attempts j)
          1 r t in
      elim (transfer_shape j r) [
        | inl (lost, e) ↦ (subst (Follows c k id r) (sym e) f, λ h. absurd (lost h))
        | inr (inl (nothing, e)) ↦
            (subst (Follows c k id r) (sym e) f, λ h x i. absurd (no_In x _ nothing i))
        | inr (inr e) ↦ rw e (
            let (g, written) =
              retry_loop-Follows c k id env fresh j write "write"
                (write_call (pages j.cursor j.spec.batch_size).records)
                (write_call-IsCall (pages j.cursor j.spec.batch_size).records) (attempts j) 1
                (after_read j r) f.held in
            (Follows-trans c k id env fresh f g, written))
      ]
