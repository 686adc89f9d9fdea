-- ===== src/Control/Store/Keyed.antt =====
-- The store's map holds each job under its own ID, once.
use vector_transfer.Base.{
  String, ◌≡◌, refl, sym, ap, ◌∙◌, ◌⊎◌, inl, inr, Bool, true, false, ◌&&◌, ◌||◌, none, some, List,
  [], ◌∷◌, arith, ◌==◌, eq_iff, ltb, if◌then◌else◌, Bool-cases, In, ==_refl,
}
use vector_transfer.Base.Result.{ok}
use vector_transfer.Base.Dict.{Dict, lookup, insert, values, lookup-insert}
use vector_transfer.Control.Job.{Job}
use vector_transfer.Control.Journal.{Codec, Store, Io, append}
use vector_transfer.Control.Journal.Changes.{append_lem}
use vector_transfer.Control.Store.{then_job_at}
use vector_transfer.Control.Store.Claiming.{pick_oldest}

abbrev pub IsKeyed : Dict Job → Type 0
IsKeyed [] = Unit
IsKeyed ((k, j) ∷ m) = (j.id ≡ k) × (lookup k m ≡ none) × IsKeyed m

pub IsKeyed-lookup :
    (m : Dict Job) (k : String) (j : Job) → IsKeyed m → lookup k m ≡ some j → j.id ≡ k
unfolding lookup
IsKeyed-lookup [] k j h e = cc
IsKeyed-lookup ((i, x) ∷ m) k j h e = elim (Bool-cases (i == k)) [
  | inl same ↦ ground (arith, eq_iff i k, same, h.0)
  | inr other ↦ IsKeyed-lookup m k j h.2 (rw other at e)
]

-- Storing a job under its ID keeps the map so.
pub IsKeyed-insert : (m : Dict Job) (j : Job) → IsKeyed m → IsKeyed (insert j.id j m)
unfolding insert lookup
IsKeyed-insert [] j h = (refl, refl, tt)
IsKeyed-insert ((i, x) ∷ m) j h = elim (Bool-cases (i == j.id)) [
  | inl same ↦ rw (same, insert) (refl, rw (← (eq_iff i j.id).0 same) h.1, h.2)
  | inr other ↦
      rw (other, insert)
        (
          h.0,
          ground (arith, lookup-insert i j.id j m, eq_iff j.id i, eq_iff i j.id, other, h.1),
          IsKeyed-insert m j h.2,
        )
]

-- A job that a `range` loop meets is the one stored under its ID.
pub IsKeyed-In : (m : Dict Job) (j : Job) → IsKeyed m → In j (values m) → lookup j.id m ≡ some j
unfolding lookup
IsKeyed-In [] j h i = absurd (i tt)
IsKeyed-In ((k, x) ∷ m) j h (inl e) = ground (arith, e, h.0, eq_iff k j.id)
IsKeyed-In ((k, x) ∷ m) j h (inr i) =
    let rest = IsKeyed-In m j h.2 i in
    elim (Bool-cases (k == j.id)) [
      | inl same ↦ ground (arith, h.1, rest, eq_iff k j.id, same)
      | inr other ↦ rw (other, lookup) rest
    ]

-- Every append keeps the map so.
pub append-IsKeyed :
    (c : Codec) (io : Io) (j : Job) (kind actor text batch : String) (s : Store)
    → IsKeyed s.jobs
    → IsKeyed (append c io j kind actor text batch s).1.jobs
append-IsKeyed c io j kind actor text batch s h = elim (append_lem c io j kind actor text batch s) [
  | inl (done, jobs, poison, clean) ↦
      rw jobs (IsKeyed-insert s.jobs (record j { updated_at = io.now }) h)
  | inr (e, failed, jobs) ↦ rw jobs h
]

-- What an append gives back through `then_job_at` is the stamped job.
pub appended_job :
    (c : Codec) (io : Io) (j : Job) (kind actor text : String) (s : Store) (j' : Job)
    → (then_job_at j.id (append c io j kind actor text "" s)).0 ≡ ok j'
    → j' ≡ record j { updated_at = io.now }
unfolding then_job_at
appended_job c io j kind actor text s j' h = elim (append_lem c io j kind actor text "" s) [
  | inl (done, jobs, poison, clean) ↦ ground (
    arith,
    done,
    jobs,
    lookup-insert j.id j.id (record j { updated_at = io.now }) s.jobs,
    ==_refl j.id,
  )
  | inr (e, failed, jobs) ↦ ground arith
]

-- One round of the loop, from what it keeps to what the rest of it gives.
pick_round :
    (eligible : Job → Bool) (picked j x q : Job) (rest : List Job)
    → (x ≡ picked) ⊎ ((j ≡ x) × (eligible x ≡ true))
    → (q ≡ x) ⊎ (In q rest × (eligible q ≡ true))
    → (q ≡ picked) ⊎ (In q (j ∷ rest) × (eligible q ≡ true))
pick_round eligible picked j x q rest kept (inr (i, e)) = inr (inr i, e)
pick_round eligible picked j x q rest (inl e) (inl same) = inl (same ∙ e)
pick_round eligible picked j x q rest (inr (e, good)) (inl same) =
    inr (inl (e ∙ sym same), ap eligible same ∙ good)

keeps_either :
    (eligible : Job → Bool) (picked j : Job) (older : Bool)
    → let x = if eligible j && older then j else picked in
      (x ≡ picked) ⊎ ((j ≡ x) × (eligible x ≡ true))
keeps_either eligible picked j older = by_cases (eligible j) older refl
  where
    by_cases :
        (a b : Bool)
        → eligible j ≡ a
        → let x = if a && b then j else picked in (x ≡ picked) ⊎ ((j ≡ x) × (eligible x ≡ true))
    by_cases true true e = inr (refl, e)
    by_cases true false e = inl refl
    by_cases false b e = inl refl

-- The picked job is the one picked before, or one of the list that is eligible.
pub pick_oldest-In :
    (eligible : Job → Bool) (picked : Job) (js : List Job)
    → (pick_oldest eligible picked js ≡ picked)
      ⊎ (In (pick_oldest eligible picked js) js
          × (eligible (pick_oldest eligible picked js) ≡ true))
unfolding pick_oldest
pick_oldest-In eligible picked [] = inl refl
pick_oldest-In eligible picked (j ∷ rest) =
    let older = picked.id == "" || ltb j.created_at picked.created_at in
    let x = if eligible j && older then j else picked in
    pick_round eligible picked j x (pick_oldest eligible x rest) rest
      (keeps_either eligible picked j older) (pick_oldest-In eligible x rest)
