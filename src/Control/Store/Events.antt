-- ===== src/Control/Store/Events.antt =====
-- Reading a job's events back from the file, Events of control/store.go.
use vector_transfer.Base.{
  ℕ, ◌≤◌, ◌<◌, String, ◌≡◌, refl, subst, inl, inr, Bool, true, false, ◌&&◌, Option, none, some,
  List, [], ◌∷◌, ◌++◌, arith, ◌==◌, eqb, if◌then◌else◌, Bool-cases, &&-eq_true, length, All,
  length-append, ℤ, pos, ltb_ℤ,
}
use vector_transfer.Base.Result.{not_found, message, Result, ok, err}
use vector_transfer.Base.Dict.{lookup}
use vector_transfer.Control.Journal.{Event, Entry, Codec, Store, newline}

-- What one line adds to the events found so far.
unfoldable pub add_event : String → ℤ → Entry → List Event → List Event
add_event id after e found =
    if e.job.id == id && ltb_ℤ after (pos e.event.sequence) then found ++ e.event ∷ [] else found

-- The loop of `Events`, one byte at a time: `line` is what has been read of the line.
unfoldable pub events_loop :
    Codec → String → ℤ → ℤ → List ℕ → List ℕ → List Event → Result (List Event)
unfolding add_event
events_loop c id after limit [] line found = ok found
events_loop c id after limit (b ∷ rest) line found = elim (ltb_ℤ (pos (length found)) limit) [
  | false ↦ ok found
  | true ↦ elim (eqb b newline) [
    | false ↦ events_loop c id after limit rest (line ++ b ∷ []) found
    | true ↦ elim (c.unmarshal (line ++ b ∷ [])) [
      | none ↦ err (message "json: syntax error")
      | some e ↦ events_loop c id after limit rest [] (add_event id after e found)
    ]
  ]
]

-- `Events`. `stat` says whether the file's size can be read.
unfoldable pub events : Codec → Bool → String → ℤ → ℤ → Store → Result (List Event)
unfolding events_loop
events c stat id after limit s = elim (lookup id s.jobs) [
  | none ↦ err not_found
  | some j ↦ if stat then events_loop c id after limit s.file [] [] else err (message "stat failed")
]

-- The events answered so far keep to the limit and come after `after`.
abbrev IsAnswer : ℤ → ℕ → List Event → Type 0
IsAnswer after limit found =
    (length found ≤ limit) × All (λ e. ltb_ℤ after (pos e.sequence) ≡ true) found

All-append {ℓ κ} :
    {A : Type ℓ} (P : A → Type κ) (xs ys : List A) → All P xs → All P ys → All P (xs ++ ys)
All-append P [] ys h g = g
All-append P (x ∷ xs) ys h g = (h.0, All-append P xs ys h.1 g)

module _ (c : Codec) (id : String) (after : ℤ) (limit : ℕ) where
  add_event-IsAnswer :
      (e : Entry) (found : List Event)
      → length found < limit
      → IsAnswer after limit found
      → IsAnswer after limit (add_event id after e found)
  unfolding add_event
  add_event-IsAnswer e found room h =
      elim (Bool-cases (e.job.id == id && ltb_ℤ after (pos e.event.sequence))) [
        | inr skipped ↦ rw (add_event, skipped) h
        | inl added ↦
            rw (add_event, added)
              (
                ground (arith, length-append found (e.event ∷ []), room),
                All-append _ found (e.event ∷ []) h.1 ((&&-eq_true _ _ added).1, tt),
              )
      ]

  events_loop-IsAnswer :
      (bytes line : List ℕ) (found answer : List Event)
      → IsAnswer after limit found
      → events_loop c id after (pos limit) bytes line found ≡ ok answer
      → IsAnswer after limit answer
  unfolding events_loop
  events_loop-IsAnswer [] line found answer h e = subst (IsAnswer after limit) (cc e) h
  events_loop-IsAnswer (b ∷ rest) line found answer h e =
      by_tests (ltb_ℤ (pos (length found)) (pos limit)) refl (eqb b newline)
        (c.unmarshal (line ++ b ∷ [])) e (events_loop-IsAnswer rest)
    where
      by_tests :
          (room : Bool)
          → ltb_ℤ (pos (length found)) (pos limit) ≡ room
          → (ends : Bool) (r : Option Entry)
          → (elim room as (λ _. Result (List Event)) [
            | false ↦ ok found
            | true ↦ elim ends [
              | false ↦ events_loop c id after (pos limit) rest (line ++ b ∷ []) found
              | true ↦ elim r [
                | none ↦ err (message "json: syntax error")
                | some x ↦ events_loop c id after (pos limit) rest [] (add_event id after x found)
              ]
            ]
          ])
            ≡ ok answer
          → ((line' : List ℕ) (found' answer' : List Event)
              → IsAnswer after limit found'
              → events_loop c id after (pos limit) rest line' found' ≡ ok answer'
              → IsAnswer after limit answer')
          → IsAnswer after limit answer
      by_tests false full ends r g rec = subst (IsAnswer after limit) (cc g) h
      by_tests true room false r g rec = rec (line ++ b ∷ []) found answer h g
      by_tests true room true none g rec = cc
      by_tests true room true (some x) g rec =
          rec [] (add_event id after x found) answer
            (add_event-IsAnswer x found (ground (arith, room)) h) g

  -- Events answers with at most `limit` events, each with a sequence number greater than `after`.
  pub events_bounded :
      (stat : Bool) (s : Store) (answer : List Event)
      → events c stat id after (pos limit) s ≡ ok answer
      → (length answer ≤ limit) × All (λ e. ltb_ℤ after (pos e.sequence) ≡ true) answer
  unfolding events
  events_bounded stat s answer h = events_loop-IsAnswer s.file [] [] answer (ground arith, tt) run
    where
      run : events_loop c id after (pos limit) s.file [] [] ≡ ok answer
      run = ground (arith, h)
