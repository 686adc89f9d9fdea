-- ===== src/Connector/Validate.antt =====
-- `Validate` of connector/connector.go.
pub mod Exact
use vector_transfer.Base.{
  ℕ, zero, suc, ◌+◌, ◌-◌, ◌*◌, ◌/◌, ◌%◌, ◌^◌, ◌≤◌, ◌<◌, min, max, String, ◌≡◌, refl, sym, ap, ◌∙◌,
  subst, ◌≢◌, ◌↔◌, ◌⊎◌, inl, inr, Bool, true, false, not, ◌&&◌, ◌||◌, Option, none, some, List, [],
  ◌∷◌, ◌++◌, append-nil, append_assoc, arith, ◌==◌, eq_iff, ltb, leb, eqb, if◌then◌else◌, ltb→lt,
  ltb→le, leb→le, leb→lt, tests, Bool-cases, Option-cases, is_some, is_none, &&-eq_true, ||-eq_true,
  length, take, drop, any, all, count, All, In, length-append, take-append-drop, length-take-le,
  length-drop, any-In, all-In, ◌!=◌, ◌<>◌, byte_length, ==_refl, ==_sound, String-discrete, decimal,
  decimal_ℤ, ℤ, pos, negsuc, pos_part, neg_part, ltb_ℤ, eqb_ℤ, ◌≤ℤ◌, eqb_ℤ_sound,
}
use vector_transfer.Base.Result.{Result, ok, err, message}
use vector_transfer.Connector.{Record}

-- `IsNaN(v) || IsInf(v, 0)` of the number with these 32 bits: the exponent's bits are all ones.
unfoldable pub not_finite : ℕ → Bool
not_finite bits = eqb (bits / 2 ^ 23 % 256) 255

-- `seen[id]`.
unfoldable pub contains : List String → String → Bool
contains seen id = any (λ x. x == id) seen

-- `json_valid` is the standard library's `json.Valid`.
module _ (json_valid : String → Bool) where
  unfoldable pub validate_loop : ℤ → List String → List Record → Result (Unit {0})
  unfolding not_finite contains
  validate_loop dimension seen [] = ok tt
  validate_loop dimension seen (r ∷ rest) =
      if r.id == ""
      then err (message "source returned an empty record ID")
      else if contains seen r.id
      then err (message "source page contains duplicate record IDs")
      else if not (eqb_ℤ (pos (length r.values)) dimension)
      then err (
          message (
            "vector dimension "
            <> decimal (length r.values)
            <> " does not match job dimension "
            <> decimal_ℤ dimension))
      else if any not_finite r.values
      then err (message "vector contains a non-finite value")
      else if any (λ v. not (json_valid v.1)) r.metadata
      then err (message "invalid metadata JSON")
      else validate_loop dimension (r.id ∷ seen) rest

  unfoldable pub validate : List Record → ℤ → Result (Unit {0})
  unfolding validate_loop
  validate records dimension = validate_loop dimension [] records

  -- What a page must be: each record has an ID that is not empty and not among those before it,
  -- the job's dimension, finite values and valid metadata.
  abbrev pub IsRecord : ℤ → Record → Type 0
  IsRecord dimension r =
      (r.id ≢ "")
      × (pos (length r.values) ≡ dimension)
      × All (λ v. not_finite v ≡ false) r.values
      × All (λ (m : String × String). json_valid m.1 ≡ true) r.metadata

  abbrev pub IsPage : ℤ → List String → List Record → Type 0
  IsPage dimension seen [] = Unit
  IsPage dimension seen (r ∷ rest) =
      (¬ In r.id seen) × IsRecord dimension r × IsPage dimension (r.id ∷ seen) rest
