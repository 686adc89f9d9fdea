-- ===== src/Connector/Personal/Documents.antt =====
-- Records as documents of a database: decodeID, documentRecord and recordDocument of
-- connector/additional.go. A raw JSON value is its text.
pub mod Roundtrip
use vector_transfer.Base.{
  ℕ, String, Bool, ◌||◌, Option, none, some, List, [], ◌∷◌, ◌==◌, eqb, if◌then◌else◌, length, ◌!=◌,
  ℤ,
}
use vector_transfer.Base.Result.{message, Result, ok, err, ◌>>=◌}
use vector_transfer.Base.Dict.{Dict, lookup, insert, values}
use vector_transfer.Connector.{Record}
use vector_transfer.Connector.Personal.{PersonalConfig}

-- The ID that a document is given: the record's text, or the integer that it has been parsed to.
pub data Key : Type 0 where
  text_key : String → Key
  integer_key : ℤ → Key

-- A value of a document, of Go's type `any`.
pub data Value : Type 0 where
  raw_json : String → Value
  id_value : Key → Value
  vector_value : List ℕ → Value

-- encoding/json: a text as a string, as a number, as the components of a vector, and whether a number's
-- text is a signed or an unsigned 64-bit integer; what Marshal makes of such components, of an ID, and of
-- a raw value, which it compacts and whose HTML characters it escapes: `none` for an error.
pub record Json : Type 0 where
  pub as_string : String → Option String
  pub as_number : String → Option String
  pub as_vector : String → Option (List ℕ)
  pub of_vector : List ℕ → Option String
  pub of_id : Key → Option String
  pub compacted : String → Option String
  pub is_int64 : String → Bool
  pub is_uint64 : String → Bool

-- `doc[key]`, which is empty for a missing key.
abbrev pub raw_at : String → Dict String → String
raw_at key doc = elim (lookup key doc) [ none ↦ "" | some raw ↦ raw ]

-- `decodeID`.
unfoldable pub decode_id : Json → String → Result String
decode_id x raw =
    let by_number : Result String = elim (x.as_number raw) [
      | none ↦ err (message "unsupported or missing record ID")
      | some n ↦
          if x.is_int64 n || x.is_uint64 n
          then ok n
          else err (message "unsupported or missing record ID")
    ] in
    elim (x.as_string raw) [ none ↦ by_number | some s ↦ if s != "" then ok s else by_number ]

abbrev pub is_reserved : PersonalConfig → String → Bool
is_reserved c k = k == c.id_field || k == c.vector_field

-- The loop of `documentRecord`.
unfoldable pub other_fields : PersonalConfig → Dict String → Dict String
other_fields c [] = []
other_fields c ((k, v) ∷ rest) =
    let others = other_fields c rest in if is_reserved c k then others else (k, v) ∷ others

-- `documentRecord`.
unfoldable pub document_record : Json → PersonalConfig → Dict String → Result Record
unfolding decode_id other_fields
document_record x c doc = decode_id x (raw_at c.id_field doc) >>= λ id.
    elim (x.as_vector (raw_at c.vector_field doc)) [
      | none ↦ err (message "missing or unsupported dense vector field")
      | some values ↦
          if eqb (length values) 0
          then err (message "missing or unsupported dense vector field")
          else ok (record { id = id; values = values; metadata = other_fields c doc })
    ]

-- The loop of `recordDocument`.
unfoldable pub put_fields : PersonalConfig → Dict String → Result (Dict Value)
put_fields c [] = ok []
put_fields c ((k, v) ∷ rest) =
    let others = put_fields c rest in
    if is_reserved c k
    then err (message "metadata collides with configured ID or vector field")
    else others >>= λ doc. ok (insert k (raw_json v) doc)

-- `recordDocument`.
unfoldable pub record_document : PersonalConfig → Record → Key → Result (Dict Value)
unfolding put_fields
record_document c r id = put_fields c r.metadata >>= λ doc.
    ok (insert c.vector_field (vector_value r.values) (insert c.id_field (id_value id) doc))

-- json.Marshal of one value.
abbrev pub marshaled : Json → Value → Option String
marshaled x (raw_json v) = x.compacted v
marshaled x (id_value id) = x.of_id id
marshaled x (vector_value values) = x.of_vector values

add_field : String → Option String → Option (Dict String) → Option (Dict String)
add_field k (some v) (some doc) = some ((k, v) ∷ doc)
add_field k v doc = none

-- A document on its way: json.Marshal of its values, and json.Unmarshal into raw values.
unfoldable pub sent : Json → Dict Value → Option (Dict String)
unfolding add_field
sent x [] = some []
sent x ((k, v) ∷ rest) = add_field k (marshaled x v) (sent x rest)
