-- ===== src/Connector/Access.antt =====
-- The account grants of connector/connector.go: AllowsRead, AllowsWrite, containsSubject.
use vector_transfer.Base.{
  String, ◌≡◌, ◌≢◌, ◌↔◌, inl, inr, Bool, true, false, ◌&&◌, Option, List, [], ◌∷◌, arith, ◌==◌,
  eq_iff, if◌then◌else◌, Bool-cases, is_some, &&-eq_true, In, ==_refl,
}
use vector_transfer.Connector.{Binding, Handle}

-- The loop of `containsSubject`.
granted : List String → String → Bool
granted [] subject = false
granted (allowed ∷ rest) subject = if allowed == subject then true else granted rest subject

unfoldable pub contains_subject : List String → String → Bool
unfolding granted
contains_subject subjects subject = if subject == "" then false else granted subjects subject

unfoldable pub allows_read : Binding → String → Bool
unfolding contains_subject
allows_read b subject = is_some b.source && contains_subject b.read_subjects subject

unfoldable pub allows_write : Binding → String → Bool
unfolding contains_subject
allows_write b subject = is_some b.sink && contains_subject b.write_subjects subject

granted_sound : (subjects : List String) (s : String) → granted subjects s ≡ true → In s subjects
unfolding granted
granted_sound [] s h = cc
granted_sound (a ∷ rest) s h = elim (Bool-cases (a == s)) [
  | inl e ↦ inl ((eq_iff a s).0 e)
  | inr e ↦ inr (granted_sound rest s (rw e at h))
]

granted_complete : (subjects : List String) (s : String) → In s subjects → granted subjects s ≡ true
unfolding granted
granted_complete [] s h = absurd (h tt)
granted_complete (a ∷ rest) s (inl e) = rw (e, ==_refl s)
granted_complete (a ∷ rest) s (inr i) = ground (arith, granted_complete rest s i)

contains_subject_lem :
    (subjects : List String) (s : String)
    → (contains_subject subjects s ≡ true) ↔ ((s ≢ "") × In s subjects)
unfolding contains_subject
contains_subject_lem subjects s = (
  λ h. elim (Bool-cases (s == "")) [
    | inl e ↦ absurd (ground (arith, e))
    | inr e ↦ (λ p. cc (e, (eq_iff s "").1 p), granted_sound subjects s (rw e at h))
  ],
  λ h. elim (Bool-cases (s == "")) [
    | inl e ↦ absurd (h.0 ((eq_iff s "").0 e))
    | inr e ↦ rw e (granted_complete subjects s h.1)
  ],
)

allows_side :
    (o : Option Handle) (subjects : List String) (s : String)
    → ((is_some o && contains_subject subjects s) ≡ true)
      ↔ ((is_some o ≡ true) × (s ≢ "") × In s subjects)
allows_side o subjects s = (
  λ h.
      let (some_o, found) = &&-eq_true (is_some o) (contains_subject subjects s) h in
      let (ne, i) = (contains_subject_lem subjects s).0 found in (some_o, ne, i),
  λ h. rw (h.0, (contains_subject_lem subjects s).1 (h.1, h.2)),
)

-- A subject may read exactly when the connection has a source and the nonempty subject is one of
-- those granted reading; it may write exactly when the connection has a sink and the nonempty
-- subject is one of those granted writing.
pub allows_iff :
    (b : Binding) (s : String)
    → ((allows_read b s ≡ true) ↔ ((is_some b.source ≡ true) × (s ≢ "") × In s b.read_subjects))
      × ((allows_write b s ≡ true) ↔ ((is_some b.sink ≡ true) × (s ≢ "") × In s b.write_subjects))
unfolding allows_read allows_write
allows_iff b s = (allows_side b.source b.read_subjects s, allows_side b.sink b.write_subjects s)
