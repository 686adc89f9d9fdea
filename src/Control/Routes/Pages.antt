-- ===== src/Control/Routes/Pages.antt =====
-- The pages of the job list.
use vector_transfer.Base.{
  ℕ, zero, suc, ◌+◌, ◌-◌, ◌*◌, ◌≤◌, min, ◌≡◌, refl, sym, ap, ◌∙◌, inl, inr, List, [], ◌∷◌, ◌++◌,
  arith, leb, leb→le, leb→lt, Bool-cases, length, take, drop, take-append-drop, length-drop,
  take-all,
}
use vector_transfer.Control.Routes.Jobs.{page_of}

module _ {ℓ} {A : Type ℓ} where
  take_empty : (n : ℕ) → take {A = A} n [] ≡ []
  take_empty zero = refl
  take_empty (suc n) = refl

  drop_empty : (n : ℕ) → drop {A = A} n [] ≡ []
  drop_empty zero = refl
  drop_empty (suc n) = refl

  drop_all : (o : ℕ) (xs : List A) → length xs ≤ o → drop o xs ≡ []
  drop_all o [] h = drop_empty o
  drop_all zero (x ∷ xs) h = absurd (omega arith)
  drop_all (suc o) (x ∷ xs) h = drop_all o xs (omega arith)

  drop-drop : (o l : ℕ) (xs : List A) → drop l (drop o xs) ≡ drop (o + l) xs
  drop-drop o l [] = ap (drop l) (drop_empty o) ∙ drop_empty l ∙ sym (drop_empty (o + l))
  drop-drop zero l (x ∷ xs) = ap (λ k. drop k (x ∷ xs)) (sum l)
    where
      sum : (k : ℕ) → k ≡ 0 + k
      sum k = omega arith
  drop-drop (suc o) l (x ∷ xs) = drop-drop o l xs ∙ ap (λ k. drop k (x ∷ xs)) (sum o l)
    where
      sum : (k m : ℕ) → suc (k + m) ≡ suc k + m
      sum k m = omega arith

  window :
      (o l start n : ℕ) (xs : List A)
      → min o (length xs) ≡ start
      → min (min o (length xs) + l) (length xs) - min o (length xs) ≡ n
      → page_of o l xs ≡ take n (drop start xs)
  unfolding page_of
  window o l start n xs s e =
      ap (λ k. take k (drop (min o (length xs)) xs)) e ∙ ap (λ k. take n (drop k xs)) s

  page_lem : (o l : ℕ) (xs : List A) → page_of o l xs ≡ take l (drop o xs)
  page_lem o l xs = elim (Bool-cases (leb o (length xs))) [
    | inr outside ↦
        let past = leb→lt o (length xs) outside in
        let start : min o (length xs) ≡ length xs = omega (arith, past) in
        window o l (length xs) _ xs start refl
        ∙ ap (take _) (drop_all (length xs) xs (omega arith))
        ∙ take_empty _
        ∙ sym (ap (take l) (drop_all o xs (omega (arith, past))) ∙ take_empty l)
    | inl inside ↦
        let within = leb→le o (length xs) inside in
        let start : min o (length xs) ≡ o = omega (arith, within) in
        elim (Bool-cases (leb (o + l) (length xs))) [
          | inl whole ↦
              window o l o l xs start (omega (arith, within, leb→le (o + l) (length xs) whole))
          | inr part ↦
              let past = leb→lt (o + l) (length xs) part in
              window o l o (length xs - o) xs start (omega (arith, within, past))
              ∙ take-all (length xs - o) (drop o xs) (omega (arith, length-drop o xs))
              ∙ sym (take-all l (drop o xs) (omega (arith, length-drop o xs, past)))
        ]
  ]

  -- The first `n` pages from an offset on.
  abbrev pub pages : ℕ → ℕ → ℕ → List A → List A
  pages l zero o xs = []
  pages l (suc n) o xs = page_of o l xs ++ pages l n (o + l) xs

  pages_lem : (l n o : ℕ) (xs : List A) → length xs ≤ o + n * l → pages l n o xs ≡ drop o xs
  pages_lem l zero o xs h = sym (drop_all o xs (omega arith))
  pages_lem l (suc n) o xs h =
      ap (λ page. page ++ pages l n (o + l) xs) (page_lem o l xs)
      ∙ ap (λ rest. take l (drop o xs) ++ rest)
          (pages_lem l n (o + l) xs (omega (arith, h)) ∙ sym (drop-drop o l xs))
      ∙ take-append-drop l (drop o xs)

  -- A client that asks for page after page of a list that does not change, each at the offset where the
  -- last one ended, gets the whole list in order, without a gap and without a job twice, as soon as the
  -- pages reach its length.
  pub pages_complete : (l n : ℕ) (xs : List A) → length xs ≤ n * l → pages l n 0 xs ≡ xs
  pages_complete l n xs h = pages_lem l n 0 xs (omega (arith, h))
