-- ===== src/Connector/Validate/Exact.antt =====
-- `Validate` accepts exactly the well-formed pages.
use vector_transfer.Base.{
  String, ◌≡◌, refl, ◌↔◌, inl, inr, Bool, true, false, not, List, [], ◌∷◌, arith, ◌==◌, eq_iff,
  Bool-cases, length, any, In, any-In, ==_refl, ℤ, pos, eqb_ℤ, eqb_ℤ_sound, any-false, false-any,
  All-map,
}
use vector_transfer.Base.Result.{ok}
use vector_transfer.Connector.{Record}
use vector_transfer.Connector.Validate.{
  not_finite, contains, validate_loop, validate, IsRecord, IsPage,
}

contains_sound : (seen : List String) (id : String) → contains seen id ≡ true → In id seen
unfolding contains
contains_sound [] id h = cc
contains_sound (x ∷ seen) id h = elim (Bool-cases (x == id)) [
  | inl e ↦ inl ((eq_iff x id).0 e)
  | inr e ↦ inr (contains_sound seen id (rw e at h))
]

contains_complete : (seen : List String) (id : String) → In id seen → contains seen id ≡ true
unfolding contains
contains_complete seen id i = any-In (λ x. x == id) id seen i (==_refl id)

module _ (json_valid : String → Bool) where
  -- What the tests of one round say.
  abbrev Passes : ℤ → List String → Record → Type 0
  Passes dimension seen r =
      ((r.id == "") ≡ false)
      × (contains seen r.id ≡ false)
      × (eqb_ℤ (pos (length r.values)) dimension ≡ true)
      × (any not_finite r.values ≡ false)
      × (any (λ (v : String × String). not (json_valid v.1)) r.metadata ≡ false)

  round-Passes :
      (dimension : ℤ) (seen : List String) (r : Record) (rest : List Record)
      → validate_loop json_valid dimension seen (r ∷ rest) ≡ ok tt
      → Passes dimension seen r × (validate_loop json_valid dimension (r.id ∷ seen) rest ≡ ok tt)
  unfolding validate_loop
  round-Passes dimension seen r rest h = ground arith

  Passes-round :
      (dimension : ℤ) (seen : List String) (r : Record) (rest : List Record)
      → Passes dimension seen r
      → validate_loop json_valid dimension (r.id ∷ seen) rest ≡ ok tt
      → validate_loop json_valid dimension seen (r ∷ rest) ≡ ok tt
  unfolding validate_loop
  Passes-round dimension seen r rest p h = rw (p.0, p.1, p.2, p.3, p.4) h

  Passes-IsRecord :
      (dimension : ℤ) (seen : List String) (r : Record)
      → Passes dimension seen r
      → (¬ In r.id seen) × IsRecord json_valid dimension r
  Passes-IsRecord dimension seen r p = (
    λ i. cc (p.1, contains_complete seen r.id i),
    (
      λ e. cc (p.0, (eq_iff r.id "").1 e),
      eqb_ℤ_sound _ _ p.2,
      any-false not_finite r.values p.3,
      All-map _ _ r.metadata (λ m e. ground arith) (any-false _ r.metadata p.4),
    ),
  )

  IsRecord-Passes :
      (dimension : ℤ) (seen : List String) (r : Record)
      → ¬ In r.id seen
      → IsRecord json_valid dimension r
      → Passes dimension seen r
  IsRecord-Passes dimension seen r new w = (
    elim (Bool-cases (r.id == "")) [ inl e ↦ absurd (w.0 ((eq_iff r.id "").0 e)) | inr e ↦ e ],
    elim (Bool-cases (contains seen r.id)) [
      | inl e ↦ absurd (new (contains_sound seen r.id e))
      | inr e ↦ e
    ],
    ground arith,
    false-any not_finite r.values w.2,
    false-any _ r.metadata (All-map _ _ r.metadata (λ m e. rw e) w.3),
  )

  loop_iff :
      (dimension : ℤ) (seen : List String) (rs : List Record)
      → (validate_loop json_valid dimension seen rs ≡ ok tt) ↔ IsPage json_valid dimension seen rs
  loop_iff dimension seen [] = (λ h. tt, λ h. unfold validate_loop in refl)
  loop_iff dimension seen (r ∷ rest) = (
    λ h.
        let (p, h') = round-Passes dimension seen r rest h in
        let (new, w) = Passes-IsRecord dimension seen r p in
        (new, w, (loop_iff dimension (r.id ∷ seen) rest).0 h'),
    λ w.
        Passes-round dimension seen r rest (IsRecord-Passes dimension seen r w.0 w.1)
          ((loop_iff dimension (r.id ∷ seen) rest).1 w.2),
  )

  -- `Validate` returns no error exactly for the pages whose records have nonempty and pairwise
  -- different IDs, the job's dimension, finite values only and valid JSON metadata only.
  pub validate_iff :
      (rs : List Record) (dimension : ℤ)
      → (validate json_valid rs dimension ≡ ok tt) ↔ IsPage json_valid dimension [] rs
  unfolding validate
  validate_iff rs dimension = loop_iff dimension [] rs
