-- ===== src/Control/Routes/Shown.antt =====
-- What the API shows.
use vector_transfer.Base.{
  ℕ, zero, suc, ◌+◌, ◌-◌, ◌≤◌, min, String, ◌≡◌, refl, sym, subst, inl, inr, true, ◌&&◌, ◌||◌,
  Option, List, [], ◌∷◌, arith, ◌==◌, Bool-cases, Option-cases, &&-eq_true, length, take, drop, In,
  length-take-le, ℤ, pos, pos_part,
}
use vector_transfer.Base.Result.{ok, bind_parts}
use vector_transfer.Connector.{Binding}
use vector_transfer.Connector.Access.{allows_read, allows_write}
use vector_transfer.Control.Job.{Job, Owner, same_owner, state_name}
use vector_transfer.Control.Journal.{Store}
use vector_transfer.Control.Store.{list}
use vector_transfer.Control.Views.{public_job, query_int}
use vector_transfer.Control.Routes.Jobs.{JobsReply, get_jobs, jobs_page, page_of, filter_jobs}

-- The jobs of a list that pass the filter.
filter-In :
    (owner : Option Owner) (state : String) (js : List Job) (shown : Job)
    → In shown (filter_jobs owner state js)
    → (j : Job) × In j js
      × (same_owner j.owner owner ≡ true)
      × ((state == "" || state_name j.state == state) ≡ true)
      × (shown ≡ public_job j)
unfolding filter_jobs
filter-In owner state [] shown h = absurd (h tt)
filter-In owner state (j ∷ rest) shown h =
    elim (Bool-cases (same_owner j.owner owner && (state == "" || state_name j.state == state))) [
      | inr other ↦ later (filter-In owner state rest shown (rw other at h))
      | inl mine ↦ first mine (filter-In owner state rest shown) (rw mine at h)
    ]
  where
    later :
        ((k : Job) × In k rest
          × (same_owner k.owner owner ≡ true)
          × ((state == "" || state_name k.state == state) ≡ true)
          × (shown ≡ public_job k))
        → (k : Job) × In k (j ∷ rest)
          × (same_owner k.owner owner ≡ true)
          × ((state == "" || state_name k.state == state) ≡ true)
          × (shown ≡ public_job k)
    later (k, i, a, b, e) = (k, inr i, a, b, e)

    first :
        (same_owner j.owner owner && (state == "" || state_name j.state == state)) ≡ true
        → (In shown (filter_jobs owner state rest)
            → (k : Job) × In k rest
              × (same_owner k.owner owner ≡ true)
              × ((state == "" || state_name k.state == state) ≡ true)
              × (shown ≡ public_job k))
        → In shown (public_job j ∷ filter_jobs owner state rest)
        → (k : Job) × In k (j ∷ rest)
          × (same_owner k.owner owner ≡ true)
          × ((state == "" || state_name k.state == state) ≡ true)
          × (shown ≡ public_job k)
    first mine next (inl e) = (j, inl refl, (&&-eq_true _ _ mine).0, (&&-eq_true _ _ mine).1, sym e)
    first mine next (inr i) = later (next i)

module _ {ℓ} {A : Type ℓ} where
  take-In : (n : ℕ) (x : A) (xs : List A) → In x (take n xs) → In x xs
  take-In zero x xs h = absurd (h tt)
  take-In (suc n) x [] h = h
  take-In (suc n) x (y ∷ xs) (inl e) = inl e
  take-In (suc n) x (y ∷ xs) (inr i) = inr (take-In n x xs i)

  drop-In : (n : ℕ) (x : A) (xs : List A) → In x (drop n xs) → In x xs
  drop-In zero x xs h = h
  drop-In (suc n) x [] h = h
  drop-In (suc n) x (y ∷ xs) h = inr (drop-In n x xs h)

  page-In : (o l : ℕ) (x : A) (xs : List A) → In x (page_of o l xs) → In x xs
  unfolding page_of
  page-In o l x xs h = drop-In _ x xs (take-In _ x _ h)

query-within :
    (atoi : String → Option ℤ) (text : String) (l : ℤ)
    → query_int atoi "limit" text (pos 100) (pos 1) (pos 1000) ≡ ok l
    → pos_part l ≤ 1000
unfolding query_int
query-within atoi text l h = elim (Option-cases (atoi text)) [
  | inl lost ↦ ground (arith, lost, h)
  | inr (v, read) ↦ ground (arith, read, h)
]

page_bounded : (o n : ℕ) (xs : List Job) → n ≤ 1000 → length (page_of o n xs) ≤ 1000
unfolding page_of
page_bounded o n xs few = omega (
  arith,
  few,
  length-take-le (min (min o (length xs) + n) (length xs) - min o (length xs))
      (drop (min o (length xs)) xs),
)

-- An answer of at most 1000 jobs, each of which shows a job of the requester's.
abbrev pub IsPrivatePage : Option Owner → String → Store → JobsReply → Type 0
IsPrivatePage owner state s r =
    (length r.jobs ≤ 1000)
    × ((shown : Job)
        → In shown r.jobs
        → (j : Job) × In j (list s)
          × (same_owner j.owner owner ≡ true)
          × ((state == "" || state_name j.state == state) ≡ true)
          × (shown ≡ public_job j))

page-IsPrivate :
    (owner : Option Owner) (state : String) (s : Store) (o n : ℕ)
    → n ≤ 1000
    → IsPrivatePage owner state s (jobs_page o n (filter_jobs owner state (list s)))
unfolding jobs_page
page-IsPrivate owner state s o n few =
    let filtered = filter_jobs owner state (list s) in
    (
      page_bounded o n filtered few,
      λ shown i. filter-In owner state (list s) shown (page-In o n shown filtered i),
    )

ok_injective : {A : Type 0} {a b : A} → ok a ≡ ok b → a ≡ b
ok_injective h = cc h

-- Every job in an answer of the job list is the public view of a job in the store's list that belongs
-- to the requester and has the state that was asked for, and no answer has more than 1000 jobs.
pub jobs_private :
    (atoi : String → Option ℤ) (owner : Option Owner) (limit offset state : String) (s : Store)
    (r : JobsReply)
    → get_jobs atoi owner limit offset state s ≡ ok r
    → IsPrivatePage owner state s r
unfolding get_jobs
jobs_private atoi owner limit offset state s r h =
    let (l, limited, rest) =
      bind_parts (query_int atoi "limit" limit (pos 100) (pos 1) (pos 1000)) _ r h in
    let (o, placed, answered_) =
      bind_parts (query_int atoi "offset" offset (pos 0) (pos 0) (pos 100000000)) _ r rest in
    subst (IsPrivatePage owner state s) (ok_injective answered_)
      (page-IsPrivate owner state s (pos_part o) (pos_part l) (query-within atoi limit l limited))

-- One of the connections, as it is shown to the requester, who has rights on it.
abbrev pub Shows : Owner → List Binding → Binding → Type 0
Shows o bs shown =
    (b : Binding) × In b bs
    × (shown ≡ record b {
      can_read = allows_read b o.subject;
      can_write = allows_write b o.subject;
      fingerprint = "";
      resource = "";
    })
    × ((allows_read b o.subject || allows_write b o.subject) ≡ true)
