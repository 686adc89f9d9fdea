-- ===== src/Control/Engine/Execute/Attempts.antt =====
-- The fuel of the retry loop.
use vector_transfer.Base.{
  ℕ, zero, suc, ◌+◌, ◌-◌, ◌≤◌, ◌<◌, String, ◌≡◌, ap, ◌∙◌, subst, inl, inr, true, false, Option,
  arith, Bool-cases, ℤ, pos, negsuc, pos_part, ltb_ℤ,
}
use vector_transfer.Control.Job.{Job, Phase}
use vector_transfer.Control.Journal.{Codec}
use vector_transfer.Control.Engine.Execute.{Run, Moment, Fault, retry_loop}
use vector_transfer.Control.Engine.Execute.Loop.{attempts}
use vector_transfer.Control.Engine.Execute.Retry.{after_retry}

below : (a : ℕ) (m : ℤ) → ltb_ℤ (pos a) m ≡ true → a < pos_part m
below a (pos m) h = ground (arith, h)
below a (negsuc m) h = ground (arith, h)

module _ (c : Codec) (env : ℕ → Moment) (j : Job) (phase : Phase) (operation : String)
    (call : Moment → Run → Option Fault × Run) where
  last_attempt :
      (fuel attempt : ℕ) (r : Run)
      → ltb_ℤ (pos attempt) j.spec.max_attempts ≡ false
      → retry_loop c env (suc (suc fuel)) attempt j phase operation call r
        ≡ retry_loop c env (suc fuel) attempt j phase operation call r
  unfolding retry_loop
  last_attempt fuel attempt r h = ground (arith, h)

  later_attempt :
      (fuel fuel' attempt : ℕ) (r : Run)
      → ((r' : Run)
          → retry_loop c env fuel (attempt + 1) j phase operation call r'
            ≡ retry_loop c env fuel' (attempt + 1) j phase operation call r')
      → retry_loop c env (suc fuel) attempt j phase operation call r
        ≡ retry_loop c env (suc fuel') attempt j phase operation call r
  unfolding retry_loop after_retry
  later_attempt fuel fuel' attempt r h =
      ground (arith, h (after_retry c env attempt j phase operation call r))

  one_more :
      (fuel attempt : ℕ) (r : Run)
      → pos_part j.spec.max_attempts ≤ attempt + fuel
      → retry_loop c env (suc (suc fuel)) attempt j phase operation call r
        ≡ retry_loop c env (suc fuel) attempt j phase operation call r
  one_more zero attempt r h = elim (Bool-cases (ltb_ℤ (pos attempt) j.spec.max_attempts)) [
    | inr last ↦ last_attempt zero attempt r last
    | inl more ↦ absurd (omega (arith, h, below attempt j.spec.max_attempts more))
  ]
  one_more (suc g) attempt r h =
      later_attempt (suc (suc g)) (suc g) attempt r
        (λ r'. one_more g (attempt + 1) r' (omega (arith, h)))

  enough :
      (extra fuel : ℕ) (r : Run)
      → pos_part j.spec.max_attempts ≤ 1 + fuel
      → retry_loop c env (suc fuel + extra) 1 j phase operation call r
        ≡ retry_loop c env (suc fuel) 1 j phase operation call r
  enough zero fuel r h = ap (λ n. retry_loop c env n 1 j phase operation call r) (omega arith)
  enough (suc extra) fuel r h =
      ap (λ n. retry_loop c env n 1 j phase operation call r) (omega arith)
      ∙ one_more (fuel + extra) 1 r (omega (arith, h))
      ∙ ap (λ n. retry_loop c env n 1 j phase operation call r) (omega arith)
      ∙ enough extra fuel r h

  -- The fuel with which `execute` starts the retry loop, the number of attempts that the job allows
  -- and at least one, is enough: with any more of it the loop does the same.
  pub retry_enough :
      (extra : ℕ) (r : Run)
      → retry_loop c env (attempts j + extra) 1 j phase operation call r
        ≡ retry_loop c env (attempts j) 1 j phase operation call r
  retry_enough extra r =
      let n = attempts j in
      let whole : suc (n - 1) ≡ n = omega arith in
      subst
        (λ k.
          retry_loop c env (k + extra) 1 j phase operation call r
          ≡ retry_loop c env k 1 j phase operation call r)
        whole (enough extra (n - 1) r (omega arith))
