-- ===== src/Connector/Personal/Documents/Roundtrip.antt =====
-- Documents that are written, sent as JSON and read back.
use vector_transfer.Base.{
  String, ◌≡◌, refl, sym, ap, ◌∙◌, inl, inr, true, false, Option, none, some, [], ◌∷◌, arith, ◌==◌,
  eq_iff, eqb, Bool-cases, Option-cases, length, ==_refl, ==_sound,
}
use vector_transfer.Base.Result.{ok, bind_parts}
use vector_transfer.Base.Dict.{Dict, lookup, insert, lookup-insert}
use vector_transfer.Connector.{Record}
use vector_transfer.Connector.Personal.{PersonalConfig}
use vector_transfer.Connector.Personal.Documents.{
  Json, Key, Value, raw_json, id_value, vector_value, decode_id, is_reserved, other_fields,
  document_record, put_fields, record_document, marshaled, add_field, sent,
}

ok_injective : {A : Type 0} {a b : A} → ok a ≡ ok b → a ≡ b
ok_injective h = cc h

lookup-other_fields :
    (c : PersonalConfig) (k : String) (doc : Dict String)
    → is_reserved c k ≡ false
    → lookup k (other_fields c doc) ≡ lookup k doc
unfolding other_fields lookup
lookup-other_fields c k [] h = refl
lookup-other_fields c k ((j, v) ∷ rest) h =
    let later = lookup-other_fields c k rest h in
    elim (Bool-cases (j == k)) [
      | inl same ↦
          let kept : is_reserved c j ≡ false = ap (is_reserved c) (==_sound j k same) ∙ h in
          rw (kept, lookup, same) refl
      | inr other ↦ ground (arith, other, later)
    ]

lookup-other_fields_reserved :
    (c : PersonalConfig) (k : String) (doc : Dict String)
    → is_reserved c k ≡ true
    → lookup k (other_fields c doc) ≡ none
unfolding other_fields lookup
lookup-other_fields_reserved c k [] h = refl
lookup-other_fields_reserved c k ((j, v) ∷ rest) h =
    let later = lookup-other_fields_reserved c k rest h in
    elim (Bool-cases (j == k)) [
      | inl same ↦
          let dropped : is_reserved c j ≡ true = ap (is_reserved c) (==_sound j k same) ∙ h in
          rw dropped later
      | inr other ↦ ground (arith, other, later)
    ]

abbrev raw_value : Option String → Option Value
raw_value none = none
raw_value (some v) = some (raw_json v)

lookup-put_fields :
    (c : PersonalConfig) (k : String) (metadata : Dict String) (doc : Dict Value)
    → put_fields c metadata ≡ ok doc
    → lookup k doc ≡ raw_value (lookup k metadata)
unfolding put_fields lookup
lookup-put_fields c k [] doc h = ap (lookup k) (sym (ok_injective h))
lookup-put_fields c k ((j, v) ∷ rest) doc h = elim (Bool-cases (is_reserved c j)) [
  | inl reserved ↦ cc (rw reserved at h)
  | inr free ↦
      let (fields, put, made) = bind_parts (put_fields c rest) _ doc (rw free at h) in
      let later = lookup-put_fields c k rest fields put in
      ap (lookup k) (sym (ok_injective made))
      ∙ lookup-insert k j (raw_json v) fields
      ∙ ground (arith, later)
]

-- The collision test: accepted metadata has neither of the two fields.
lookup-metadata_reserved :
    (c : PersonalConfig) (k : String) (metadata : Dict String) (doc : Dict Value)
    → put_fields c metadata ≡ ok doc
    → is_reserved c k ≡ true
    → lookup k metadata ≡ none
unfolding put_fields lookup
lookup-metadata_reserved c k [] doc h r = refl
lookup-metadata_reserved c k ((j, v) ∷ rest) doc h r = elim (Bool-cases (is_reserved c j)) [
  | inl reserved ↦ cc (rw reserved at h)
  | inr free ↦
      let (fields, put, made) = bind_parts (put_fields c rest) _ doc (rw free at h) in
      let later = lookup-metadata_reserved c k rest fields put r in
      elim (Bool-cases (j == k)) [
        | inl same ↦ cc (ap (is_reserved c) (==_sound j k same), free, r)
        | inr other ↦ ground (arith, other, later)
      ]
]

abbrev marshaled_at : Json → Option Value → Option String
marshaled_at x none = none
marshaled_at x (some v) = marshaled x v

lookup-sent :
    (x : Json) (k : String) (doc : Dict Value) (wire : Dict String)
    → sent x doc ≡ some wire
    → lookup k wire ≡ marshaled_at x (lookup k doc)
unfolding sent lookup add_field
lookup-sent x k [] wire h = ground (arith, h)
lookup-sent x k ((j, v) ∷ rest) wire h = elim (Option-cases (sent x rest)) [
  | inl lost ↦ ground (arith, lost, h)
  | inr (later, there) ↦ ground (arith, there, h, lookup-sent x k rest later there)
]

module _ (c : PersonalConfig) (r : Record) (id : Key) (fields : Dict Value) where
  abbrev stored : Dict Value
  stored = insert c.vector_field (vector_value r.values) (insert c.id_field (id_value id) fields)

  vector_stored : lookup c.vector_field stored ≡ some (vector_value r.values)
  vector_stored =
      lookup-insert c.vector_field c.vector_field (vector_value r.values)
        (insert c.id_field (id_value id) fields)
      ∙ rw (==_refl c.vector_field) refl

  id_stored : (c.vector_field == c.id_field) ≡ false → lookup c.id_field stored ≡ some (id_value id)
  id_stored distinct =
      lookup-insert c.id_field c.vector_field (vector_value r.values)
        (insert c.id_field (id_value id) fields)
      ∙ rw distinct
          (lookup-insert c.id_field c.id_field (id_value id) fields ∙ rw (==_refl c.id_field) refl)

  other_stored : (k : String) → is_reserved c k ≡ false → lookup k stored ≡ lookup k fields
  other_stored k free = ground (
    arith,
    free,
    eq_iff k c.id_field,
    eq_iff c.id_field k,
    eq_iff k c.vector_field,
    eq_iff c.vector_field k,
    lookup-insert k c.vector_field (vector_value r.values) (insert c.id_field (id_value id) fields),
    lookup-insert k c.id_field (id_value id) fields,
  )

-- What json.Marshal makes of the metadata under a key.
abbrev pub compacted_at : Json → Option String → Option String
compacted_at x none = none
compacted_at x (some v) = x.compacted v

raw-compacted :
    (x : Json) (found : Option String) → marshaled_at x (raw_value found) ≡ compacted_at x found
raw-compacted x none = refl
raw-compacted x (some v) = refl

-- A record that is written as a document, sent as JSON and read back is the same record: if
-- recordDocument accepts it and json.Marshal the document, the fields of the ID and of the vector differ,
-- the JSON of the ID decodes to the record's ID and that of its vector to its vector, and the vector is
-- not empty, then documentRecord gives back its ID, its vector and its metadata, which has the same keys and
-- under each the text that json.Marshal makes of the value.
pub document_roundtrip :
    (x : Json) (c : PersonalConfig) (r : Record) (id : Key) (doc : Dict Value) (wire : Dict String)
    (id_text vector_text : String)
    → record_document c r id ≡ ok doc
    → sent x doc ≡ some wire
    → (c.vector_field == c.id_field) ≡ false
    → x.of_id id ≡ some id_text
    → decode_id x id_text ≡ ok r.id
    → x.of_vector r.values ≡ some vector_text
    → x.as_vector vector_text ≡ some r.values
    → eqb (length r.values) 0 ≡ false
    → (r' : Record) × (document_record x c wire ≡ ok r')
      × (r'.id ≡ r.id)
      × (r'.values ≡ r.values)
      × ((k : String) → lookup k r'.metadata ≡ compacted_at x (lookup k r.metadata))
unfolding record_document document_record
document_roundtrip x c r id doc wire id_text vector_text h way distinct id_made id_ok vector_made
      vector_ok full =
    let (fields, put, made) = bind_parts (put_fields c r.metadata) _ doc h in
    let same : stored c r id fields ≡ doc = ok_injective made in
    let on_wire : (k : String) → lookup k wire ≡ marshaled_at x (lookup k (stored c r id fields)) =
      λ k.
        lookup-sent x k doc wire way
        ∙ ap (λ (d : Dict Value). marshaled_at x (lookup k d)) (sym same) in
    let at_id : lookup c.id_field wire ≡ some id_text =
      on_wire c.id_field ∙ ap (marshaled_at x) (id_stored c r id fields distinct) ∙ id_made in
    let at_vector : lookup c.vector_field wire ≡ some vector_text =
      on_wire c.vector_field ∙ ap (marshaled_at x) (vector_stored c r id fields) ∙ vector_made in
    let r' : Record = record { id = r.id; values = r.values; metadata = other_fields c wire } in
    (
      r',
      ground (arith, at_id, id_ok, at_vector, vector_ok, full),
      refl,
      refl,
      λ k. elim (Bool-cases (is_reserved c k)) [
        | inl reserved ↦
            lookup-other_fields_reserved c k wire reserved
            ∙ ap (compacted_at x)
                (sym (lookup-metadata_reserved c k r.metadata fields put reserved))
        | inr free ↦
            lookup-other_fields c k wire free
            ∙ on_wire k
            ∙ ap (marshaled_at x)
                (other_stored c r id fields k free ∙ lookup-put_fields c k r.metadata fields put)
            ∙ raw-compacted x (lookup k r.metadata)
      ],
    )
