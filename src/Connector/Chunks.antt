-- ===== src/Connector/Chunks.antt =====
-- Sending records in bounded requests, `chunks` of connector/http.go.
use vector_transfer.Base.{
  ℕ, zero, suc, ◌+◌, ◌/◌, ◌≤◌, ◌<◌, min, max, ◌≡◌, refl, sym, ap, ◌∙◌, ◌≢◌, ◌⊎◌, inl, inr, Bool,
  true, false, Option, none, some, List, [], ◌∷◌, ◌++◌, append_assoc, arith, leb, eqb,
  if◌then◌else◌, Bool-cases, length, take, drop, All, take-append-drop, length-take-le, length-drop,
}
use vector_transfer.Base.Result.{Error, message}

-- How the loop ends; `stuck` means that the fuel ran out first.
pub data Ending : Type 0 where
  sent_all : Ending
  failed_with : Error → Ending
  stuck : Ending

-- `size` is the length of the encoded body of some records, `none` where it cannot be encoded, and
-- `accepts k` whether the k-th request succeeds.
module _ {ℓ} {A : Type ℓ} (max_records max_bytes : ℕ) (size : List A → Option ℕ)
    (accepts : ℕ → Bool) where
  -- The inner loop: the number of records for the next request, halved until the body fits. The
  -- fuel is the number of tries.
  unfoldable pub fit : ℕ → ℕ → List A → Ending ⊎ ℕ
  fit zero n records = inl stuck
  fit (suc fuel) n records =
      let smaller = fit fuel (max 1 (n / 2)) records in
      elim (size (take n records)) [
        | none ↦ inl (failed_with (message "json: unsupported value"))
        | some bytes ↦
            if leb bytes max_bytes
            then inr n
            else if eqb n 1
            then inl (failed_with (message "a record exceeds the destination request size limit"))
            else smaller
      ]

  -- `chunks`. The result lists the requests that succeeded, in order.
  unfoldable pub chunks_loop : ℕ → ℕ → List A → Ending × List (List A)
  unfolding fit
  chunks_loop fuel k [] = (sent_all, [])
  chunks_loop zero k (r ∷ records) = (stuck, [])
  chunks_loop (suc fuel) k (r ∷ records) =
      let all_records = r ∷ records in
      let n = min (length all_records) max_records in
      elim (fit n n all_records) [
        | inl e ↦ (e, [])
        | inr m ↦
            let (e, sent) = chunks_loop fuel (k + 1) (drop m all_records) in
            if accepts k
            then (e, take m all_records ∷ sent)
            else (failed_with (message "request failed"), [])
      ]

  unfoldable pub chunks : List A → Ending × List (List A)
  unfolding chunks_loop
  chunks records = chunks_loop (length records) 0 records

  abbrev pub concat : List (List A) → List A
  concat [] = []
  concat (c ∷ rest) = c ++ concat rest

  -- A request's size: at least one record, at most what the destination takes.
  abbrev pub IsFit : List A → ℕ → Type 0
  IsFit records m = (0 < m) × (m ≤ max_records) × (m ≤ length records)

  fit-IsFit :
      (fuel n : ℕ) (records : List A)
      → IsFit records n
      → n ≤ fuel
      → (fit fuel n records ≢ inl stuck)
        × (fit fuel n records ≢ inl sent_all)
        × ((m : ℕ) → fit fuel n records ≡ inr m → IsFit records m)
  unfolding fit
  fit-IsFit zero n records h enough = absurd (omega (arith, h, enough))
  fit-IsFit (suc fuel) n records h enough = elim (Bool-cases (eqb n 1)) [
    | inl single ↦ (
      λ e. ground (arith, single, e),
      λ e. ground (arith, single, e),
      λ m e. ground (arith, single, e, h),
    )
    | inr several ↦
        let half : IsFit records (max 1 (n / 2)) = omega (arith, h) in
        let (moves, ends, fits) =
          fit-IsFit fuel (max 1 (n / 2)) records half (ground (arith, several, h.0, enough)) in
        (
          λ e. ground (arith, several, moves, e),
          λ e. ground (arith, several, ends, e),
          λ m e. ground (arith, several, fits m, e, h),
        )
  ]

  abbrev pub IsSent : List A → Ending × List (List A) → Type ℓ
  IsSent records r =
      (r.0 ≢ stuck)
      × ((rest : List A) × (records ≡ concat r.1 ++ rest) × (r.0 ≡ sent_all → rest ≡ []))
      × All (λ c. length c ≤ max_records) r.1

  send_first :
      (records : List A) (m : ℕ) (good : Bool) (r : Ending × List (List A))
      → m ≤ max_records
      → IsSent (drop m records) r
      → IsSent records (
          if good
          then (r.0, take m records ∷ r.1)
          else (failed_with (message "request failed"), []))
  send_first records m false r small h = (λ e. cc, (records, refl, λ e. cc), tt)
  send_first records m true (e, sent) small (moves, (rest, parts, last), sizes) = (
    moves,
    (
      rest,
      sym (take-append-drop m records)
          ∙ ap (λ t. take m records ++ t) parts
          ∙ sym (append_assoc (take m records) (concat sent) rest),
      last,
    ),
    (omega (arith, length-take-le m records, small), sizes),
  )

  loop-IsSent :
      (fuel k : ℕ) (records : List A)
      → 0 < max_records
      → length records ≤ fuel
      → IsSent records (chunks_loop fuel k records)
  unfolding chunks_loop
  loop-IsSent fuel k [] some_room enough = (λ e. cc, ([], refl, λ e. refl), tt)
  loop-IsSent zero k (r ∷ records) some_room enough = absurd (omega (arith, enough))
  loop-IsSent (suc fuel) k (r ∷ records) some_room enough =
      by_fit (fit n n all_records)
        (fit-IsFit n n all_records (omega (arith, some_room)) (omega arith))
        (λ m. loop-IsSent fuel (k + 1) (drop m all_records) some_room)
    where
      all_records : List A
      all_records = r ∷ records

      n : ℕ
      n = min (length all_records) max_records

      by_fit :
          (f : Ending ⊎ ℕ)
          → (f ≢ inl stuck) × (f ≢ inl sent_all) × ((m : ℕ) → f ≡ inr m → IsFit all_records m)
          → ((m : ℕ)
              → length (drop m all_records) ≤ fuel
              → IsSent (drop m all_records) (chunks_loop fuel (k + 1) (drop m all_records)))
          → IsSent all_records (elim f as (λ _. Ending × List (List A)) [
            | inl e ↦ (e, [])
            | inr m ↦
                let (e, sent) = chunks_loop fuel (k + 1) (drop m all_records) in
                if accepts k
                then (e, take m all_records ∷ sent)
                else (failed_with (message "request failed"), [])
          ])
      by_fit (inl e) (moves, ends, fits) rec =
          (λ h. moves (ap inl h), (all_records, refl, λ h. absurd (ends (ap inl h))), tt)
      by_fit (inr m) (moves, ends, fits) rec =
          let fit_m = fits m refl in
          send_first all_records m (accepts k) (chunks_loop fuel (k + 1) (drop m all_records))
            fit_m.1 (rec m (omega (arith, fit_m, length-drop m all_records, enough)))

  -- With room for at least one record in a request, the loop ends within as many requests as there
  -- are records, and each of its searches for a size within as many tries; the requests that
  -- succeed hold the records in order, from the first one on, all of them where it returns nil, and
  -- each at most `max_records` of them.
  pub chunks_delivers :
      (records : List A)
      → 0 < max_records
      → ((chunks records).0 ≢ stuck)
        × ((rest : List A) × (records ≡ concat (chunks records).1 ++ rest)
            × ((chunks records).0 ≡ sent_all → rest ≡ []))
        × All (λ c. length c ≤ max_records) (chunks records).1
  unfolding chunks
  chunks_delivers records some_room = loop-IsSent (length records) 0 records some_room (omega arith)
