-- ===== src/Control/Connections.antt =====
-- The users' own connections, control/connections.go: Create, Get, List, Rotate, Delete, Health.
pub mod Private
pub mod Retries
use vector_transfer.Base.{
  ℕ, zero, suc, ◌+◌, ◌-◌, ◌*◌, ◌/◌, ◌%◌, ◌^◌, ◌≤◌, ◌<◌, min, max, String, ◌≡◌, refl, sym, ap, ◌∙◌,
  subst, ◌≢◌, ◌↔◌, ◌⊎◌, inl, inr, Bool, true, false, not, ◌&&◌, ◌||◌, Option, none, some, List, [],
  ◌∷◌, ◌++◌, append-nil, append_assoc, arith, ◌==◌, eq_iff, ltb, leb, eqb, if◌then◌else◌, ltb→lt,
  ltb→le, leb→le, leb→lt, tests, Bool-cases, Option-cases, is_some, is_none, &&-eq_true, ||-eq_true,
  length, take, drop, any, all, count, All, In, length-append, take-append-drop, length-take-le,
  length-drop, any-In, all-In, ◌!=◌, ◌<>◌, byte_length, ==_refl, ==_sound, String-discrete, decimal,
  decimal_ℤ, ℤ, pos, negsuc, pos_part, neg_part, ltb_ℤ, eqb_ℤ, ◌≤ℤ◌, eqb_ℤ_sound, any-false,
  false-any, All-map, take-all, take-append_left, any-take, codes, trim_space,
}
use vector_transfer.Base.Result.{
  Error, not_found, conflict, forbidden, unavailable, unauthorized, canceled_context,
  journal_failed, vault_unavailable, workers_unavailable, message, Result, ok, err, ◌>>=◌, is_ok,
}
use vector_transfer.Base.Dict.{
  Dict, lookup, insert, delete, values, lookup-insert, lookup-delete, lookup-In, dict_laws,
}
use vector_transfer.Connector.{Binding}
use vector_transfer.Control.Job.{Owner, same_owner}

-- `ConnectionDefinition`, over connector.PersonalConfig and connector.PersonalCredentials.
pub record Definition (C K : Type 0) : Type 0 where
  pub label : String
  pub direction : String
  pub config : C
  pub credentials : K

-- `personalEntry`.
pub record Entry (C K : Type 0) : Type 0 where
  pub id : String
  pub owner : Owner
  pub definition : Definition C K
  pub request_digest : String
  pub created_at : ℕ

-- `Connections`. `files` is what the directory holds under each name, as the entry sealed in it.
pub record Connections (C K : Type 0) : Type 0 where
  pub realm : String
  pub files : Dict (Entry C K)
  pub entries : Dict (Entry C K)
  pub bindings : Dict Binding
  pub poison : Option Error

-- What the vault calls: connector.OpenPersonal, connector.Fingerprint of a list, json.Marshal of a
-- definition, and the HMAC under the vault's key, in hexadecimal.
pub record Provider (C K : Type 0) : Type 0 where
  pub open_personal : C → K → Result Binding
  pub fingerprint : List String → String
  pub encode : Definition C K → List ℕ
  pub mac : List ℕ → String

-- Which of the calls of `persist` succeed.
pub record Sealing : Type 0 where
  pub marshaled : Bool
  pub nonce_drawn : Bool
  pub temp_created : Bool
  pub temp_written : Bool
  pub temp_synced : Bool
  pub temp_closed : Bool
  pub renamed : Bool
  pub directory_opened : Bool
  pub directory_synced : Bool

-- Which of the calls of `Delete` succeed.
pub record Removal : Type 0 where
  pub removed : Bool
  pub directory_opened : Bool
  pub directory_synced : Bool

-- `s[:n]` of a text of ASCII characters.
unfoldable pub prefix : ℕ → String → String
prefix zero s = ""
prefix (suc n) String.[] = ""
prefix (suc n) (String.◌∷◌ c s) = String.◌∷◌ c (prefix n s)

abbrev pub zero_binding : Binding
zero_binding = record {
  label = "";
  personal = false;
  read_subjects = [];
  write_subjects = [];
  name = "";
  kind = "";
  description = "";
  fingerprint = "";
  resource = "";
  can_read = false;
  can_write = false;
  source = none;
  sink = none;
}

-- `v.bindings[id]`, which is `Binding{}` for an unknown ID.
abbrev pub binding_at : String → Dict Binding → Binding
binding_at id bindings = elim (lookup id bindings) [ none ↦ zero_binding | some b ↦ b ]

module _ {C K : Type 0} where
  -- What `personalBinding` makes of the opened binding.
  unfoldable pub restrict : Provider C K → Entry C K → Binding → Binding
  restrict p entry b =
      let direction = entry.definition.direction in
      let named = record b { name = entry.id; label = entry.definition.label; personal = true } in
      let one_way =
        if direction == "source"
        then record named {
          sink = none;
          can_write = false;
          read_subjects = entry.owner.subject ∷ [];
        }
        else record named {
          source = none;
          can_read = false;
          write_subjects = entry.owner.subject ∷ [];
        } in
      record one_way { fingerprint = p.fingerprint (b.fingerprint ∷ direction ∷ []) }

  -- `personalBinding`.
  unfoldable pub personal_binding : Provider C K → Entry C K → Result Binding
  personal_binding p entry =
      let d = entry.definition in
      if trim_space d.label == ""
        || ltb 128 (byte_length d.label)
        || (d.direction != "source" && d.direction != "sink")
      then err (message "provide a connection name and choose source or destination")
      else p.open_personal d.config d.credentials >>= λ b. ok (restrict p entry b)

  -- `persist`.
  unfoldable pub persist :
      Sealing → Entry C K → Connections C K → Result (Unit {0}) × Connections C K
  persist io entry v =
      let stored = record v { files = insert entry.id entry v.files } in
      let poisoned = record stored { poison = some vault_unavailable } in
      if not (
        io.marshaled && io.nonce_drawn && io.temp_created && io.temp_written && io.temp_synced
        && io.temp_closed && io.renamed)
      then (err vault_unavailable, v)
      else if not (io.directory_opened && io.directory_synced)
      then (err vault_unavailable, poisoned)
      else (ok tt, stored)

  -- What `Create` and `Rotate` do when the entry has been persisted, or not.
  unfoldable pub keep :
      Entry C K → Binding → Result (Unit {0}) × Connections C K → Result Binding × Connections C K
  keep entry b (err e, v) = (err e, v)
  keep entry b (ok _, v) = (
    ok b,
    record v { entries = insert entry.id entry v.entries; bindings = insert entry.id b v.bindings },
  )

  -- `personalBinding` of an entry, then `persist`, then the two maps.
  unfoldable pub install :
      Provider C K → Sealing → Entry C K → Connections C K → Result Binding × Connections C K
  install p io entry v = elim (personal_binding p entry) [
    | err e ↦ (err e, v)
    | ok b ↦ keep entry b (persist io entry v)
  ]

  abbrev pub with_created :
      Bool → Result Binding × Connections C K → Result (Binding × Bool) × Connections C K
  with_created created (ok b, v) = (ok (b, created), v)
  with_created created (err e, v) = (err e, v)

  -- The ID that `Create` derives from the owner and the idempotency key.
  unfoldable pub connection_id : Provider C K → Owner → String → String
  connection_id p owner key = "personal-" <> prefix 32 (p.mac (codes owner.id ++ 0 ∷ codes key))

  abbrev pub trimmed : Definition C K → Definition C K
  trimmed d = record d { label = trim_space d.label }

  -- `Create`.
  unfoldable pub create :
      Provider C K
      → Sealing
      → ℕ
      → Owner
      → Definition C K
      → String
      → Connections C K
      → Result (Binding × Bool) × Connections C K
  create p io now owner definition key v =
      let d = trimmed definition in
      let id = connection_id p owner key in
      let digest = p.mac (p.encode d) in
      let owned = count (λ e. same_owner (some e.owner) (some owner)) (values v.entries) in
      let entry : Entry C K = record {
        id = id;
        owner = owner;
        definition = d;
        request_digest = digest;
        created_at = now;
      } in
      elim v.poison [
        | some failure ↦ (err failure, v)
        | none ↦
            if owner.id == "" || owner.subject == "" || owner.realm != v.realm
            then (err forbidden, v)
            else if key == "" || ltb 128 (byte_length key)
            then (err (message "a connection idempotency key of 1–128 bytes is required"), v)
            else elim (lookup id v.entries) [
              | some known ↦
                  if not (same_owner (some known.owner) (some owner))
                    || known.request_digest != digest
                  then (err conflict, v)
                  else (ok (binding_at id v.bindings, false), v)
              | none ↦
                  if leb 50 owned || leb 2000 (length v.entries)
                  then (
                    err (message "saved connection limit reached; remove unused connections"),
                    v,
                  )
                  else with_created true (install p io entry v)
            ]
      ]

  -- `Get`.
  unfoldable pub get : String → Connections C K → Option Binding
  get id v = elim (lookup id v.entries) [
    | none ↦ none
    | some entry ↦
        if entry.owner.realm != v.realm || is_some v.poison
        then none
        else some (binding_at id v.bindings)
  ]

  -- `Rotate`.
  unfoldable pub rotate :
      Provider C K
      → Sealing
      → Owner
      → String
      → K
      → Connections C K
      → Result Binding × Connections C K
  rotate p io owner id credentials v = elim v.poison [
    | some failure ↦ (err failure, v)
    | none ↦ elim (lookup id v.entries) [
      | none ↦ (err not_found, v)
      | some entry ↦
          if not (same_owner (some entry.owner) (some owner)) || owner.realm != v.realm
          then (err not_found, v)
          else install p io
              (record entry { definition = record entry.definition { credentials = credentials } })
              v
    ]
  ]

  -- `Delete`.
  unfoldable pub remove :
      Removal → Owner → String → Connections C K → Result (Unit {0}) × Connections C K
  remove io owner id v =
      let unlinked = record v { files = delete id v.files } in
      elim v.poison [
        | some failure ↦ (err failure, v)
        | none ↦ elim (lookup id v.entries) [
          | none ↦ (err not_found, v)
          | some entry ↦
              if not (same_owner (some entry.owner) (some owner)) || owner.realm != v.realm
              then (err not_found, v)
              else if not io.removed
              then (err vault_unavailable, v)
              else if not (io.directory_opened && io.directory_synced)
              then (err vault_unavailable, record unlinked { poison = some vault_unavailable })
              else (
                ok tt,
                record unlinked { bindings = delete id v.bindings; entries = delete id v.entries },
              )
        ]
      ]

  -- `Health`.
  abbrev pub health : Connections C K → Option Error
  health v = v.poison
