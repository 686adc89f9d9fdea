-- ===== src/Control/Connections/Private.antt =====
-- Who may use a saved connection, and for what.
use vector_transfer.Base.{
  ℕ, String, ◌≡◌, refl, sym, ap, ◌∙◌, subst, ◌⊎◌, inl, inr, Bool, true, false, not, ◌&&◌, ◌||◌,
  none, some, List, [], ◌∷◌, arith, ◌==◌, eq_iff, ltb, if◌then◌else◌, Bool-cases, Option-cases,
  ◌!=◌, byte_length, ==_sound, trim_space,
}
use vector_transfer.Base.Result.{Error, message, Result, ok, err, ◌>>=◌}
use vector_transfer.Base.Dict.{lookup, insert, delete, lookup-insert, lookup-delete}
use vector_transfer.Connector.{Binding}
use vector_transfer.Control.Job.{Owner, same_owner}
use vector_transfer.Control.Connections.{
  Connections, Entry, Definition, Provider, Sealing, Removal, create, get, rotate, remove, restrict,
  personal_binding, install, keep, persist, connection_id, with_created, trimmed,
}

-- A binding that lets its owner read, or write, and nothing else.
abbrev pub IsPrivateTo : Owner → Binding → Type 0
IsPrivateTo owner b =
    ((b.sink ≡ none) × (b.can_write ≡ false) × (b.read_subjects ≡ owner.subject ∷ []))
    ⊎ ((b.source ≡ none) × (b.can_read ≡ false) × (b.write_subjects ≡ owner.subject ∷ []))

-- A request to the vault.
pub data Request (C K : Type 0) : Type 0 where
  creating : Sealing → ℕ → Owner → Definition C K → String → Request C K
  rotating : Sealing → Owner → String → K → Request C K
  removing : Removal → Owner → String → Request C K

module _ {C K : Type 0} where
  -- Every entry has its binding, and it is private to the owner of the entry.
  abbrev pub IsVault : Connections C K → Type 0
  IsVault v =
      (id : String) (entry : Entry C K)
      → lookup id v.entries ≡ some entry
      → (entry.id ≡ id)
        × ((b : Binding) × (lookup id v.bindings ≡ some b) × IsPrivateTo entry.owner b)

  restrict-IsPrivateTo :
      (p : Provider C K) (entry : Entry C K) (b : Binding)
      → IsPrivateTo entry.owner (restrict p entry b)
  unfolding restrict
  restrict-IsPrivateTo p entry b = elim (Bool-cases (entry.definition.direction == "source")) [
    | inl e ↦ inl (rw e (refl, refl, refl))
    | inr e ↦ inr (rw e (refl, refl, refl))
  ]

  personal_binding_cases :
      (p : Provider C K) (entry : Entry C K)
      → ((e : Error) × (personal_binding p entry ≡ err e))
        ⊎ ((b : Binding) × (personal_binding p entry ≡ ok (restrict p entry b)))
  unfolding personal_binding
  personal_binding_cases p entry =
      by_opening (p.open_personal entry.definition.config entry.definition.credentials) (
        trim_space entry.definition.label == ""
        || ltb 128 (byte_length entry.definition.label)
        || (entry.definition.direction != "source" && entry.definition.direction != "sink"))
    where
      outcome : Bool → Result Binding → Result Binding
      outcome refused r =
          if refused
          then err (message "provide a connection name and choose source or destination")
          else r >>= λ b. ok (restrict p entry b)

      by_opening :
          (r : Result Binding) (refused : Bool)
          → ((e : Error) × (outcome refused r ≡ err e))
            ⊎ ((b : Binding) × (outcome refused r ≡ ok (restrict p entry b)))
      by_opening r true = inl (_, refl)
      by_opening (err e) false = inl (e, refl)
      by_opening (ok b) false = inr (b, refl)

  persist_keeps :
      (io : Sealing) (entry : Entry C K) (v : Connections C K)
      → ((persist io entry v).1.entries ≡ v.entries)
        × ((persist io entry v).1.bindings ≡ v.bindings)
  unfolding persist
  persist_keeps io entry v = ground arith

  abbrev Installed : Provider C K → Entry C K → Connections C K → Connections C K → Type 0
  Installed p entry v v' =
      ((v'.entries ≡ v.entries) × (v'.bindings ≡ v.bindings))
      ⊎ ((b : Binding) × (v'.entries ≡ insert entry.id entry v.entries)
          × (v'.bindings ≡ insert entry.id (restrict p entry b) v.bindings))

  keep_shape :
      (p : Provider C K) (entry : Entry C K) (v : Connections C K) (b : Binding)
      (r : Result (Unit {0}) × Connections C K)
      → (r.1.entries ≡ v.entries) × (r.1.bindings ≡ v.bindings)
      → Installed p entry v (keep entry (restrict p entry b) r).1
  unfolding keep
  keep_shape p entry v b (err e, v') h = inl h
  keep_shape p entry v b (ok _, v') h =
      inr (b, ap (insert entry.id entry) h.0, ap (insert entry.id (restrict p entry b)) h.1)

  install_shape :
      (p : Provider C K) (io : Sealing) (entry : Entry C K) (v : Connections C K)
      → Installed p entry v (install p io entry v).1
  unfolding install
  install_shape p io entry v = elim (personal_binding_cases p entry) [
    | inl (e, h) ↦ rw (install, h) (inl (refl, refl))
    | inr (b, h) ↦
        rw (install, h) (keep_shape p entry v b (persist io entry v) (persist_keeps io entry v))
  ]

  install-IsVault :
      (p : Provider C K) (io : Sealing) (entry : Entry C K) (v : Connections C K)
      → IsVault v
      → IsVault (install p io entry v).1
  install-IsVault p io entry v h = elim (install_shape p io entry v) [
    | inl (entries, bindings) ↦
        λ id x at. rw bindings (h id x (sym (ap (λ m. lookup id m) entries) ∙ at))
    | inr (b, entries, bindings) ↦ λ id x at.
        let at' : (if entry.id == id then some entry else lookup id v.entries) ≡ some x =
          sym (lookup-insert id entry.id entry v.entries)
          ∙ sym (ap (λ m. lookup id m) entries)
          ∙ at in
        let where_is = lookup-insert id entry.id (restrict p entry b) v.bindings in
        elim (Bool-cases (entry.id == id)) [
          | inl same ↦
              let e : entry ≡ x = cc (rw same at at') in
              subst
                (λ y.
                  (y.id ≡ id)
                  × ((b' : Binding) × (lookup id (install p io entry v).1.bindings ≡ some b')
                      × IsPrivateTo y.owner b'))
                e
                (
                  ==_sound entry.id id same,
                  (
                    restrict p entry b,
                    rw bindings (where_is ∙ rw same refl),
                    restrict-IsPrivateTo p entry b,
                  ),
                )
          | inr other ↦
              let old = h id x (rw other at at') in
              (old.0, (old.1.0, rw bindings (where_is ∙ rw other old.1.1), old.1.2))
        ]
  ]

  delete-IsVault :
      (id : String) (v : Connections C K)
      → IsVault v
      → IsVault (record v { entries = delete id v.entries; bindings = delete id v.bindings })
  delete-IsVault i v h id x at = elim (Bool-cases (i == id)) [
    | inl same ↦ cc (rw (lookup-delete id i v.entries, same) at at)
    | inr other ↦
        let old = h id x (rw (lookup-delete id i v.entries, other) at at) in
        (old.0, (old.1.0, rw (lookup-delete id i v.bindings, other) old.1.1, old.1.2))
  ]

  with_created_state :
      (f : Bool) (r : Result Binding × Connections C K) → (with_created f r).1 ≡ r.1
  with_created_state f (ok b, v) = refl
  with_created_state f (err e, v) = refl

  create-IsVault :
      (p : Provider C K) (io : Sealing) (now : ℕ) (owner : Owner) (d : Definition C K)
      (key : String) (v : Connections C K)
      → IsVault v
      → IsVault (create p io now owner d key v).1
  unfolding create
  create-IsVault p io now owner d key v h = elim shape [
    | inl same ↦ subst IsVault (sym same) h
    | inr made ↦ subst IsVault (sym made) (install-IsVault p io fresh v h)
  ]
    where
      fresh : Entry C K
      fresh = record {
        id = connection_id p owner key;
        owner = owner;
        definition = trimmed d;
        request_digest = p.mac (p.encode (trimmed d));
        created_at = now;
      }

      shape :
          ((create p io now owner d key v).1 ≡ v)
          ⊎ ((create p io now owner d key v).1 ≡ (install p io fresh v).1)
      shape = ground (arith, with_created_state true (install p io fresh v))

  rotate-IsVault :
      (p : Provider C K) (io : Sealing) (owner : Owner) (id : String) (credentials : K)
      (v : Connections C K)
      → IsVault v
      → IsVault (rotate p io owner id credentials v).1
  unfolding rotate
  rotate-IsVault p io owner id credentials v h = elim shape [
    | inl same ↦ subst IsVault (sym same) h
    | inr (entry, made) ↦ subst IsVault (sym made) (install-IsVault p io (rotated entry) v h)
  ]
    where
      rotated : Entry C K → Entry C K
      rotated entry = record entry {
        definition = record entry.definition { credentials = credentials };
      }

      shape :
          ((rotate p io owner id credentials v).1 ≡ v)
          ⊎ ((entry : Entry C K) × ((rotate p io owner id credentials v).1
                ≡ (install p io (rotated entry) v).1))
      shape = elim (Option-cases (lookup id v.entries)) [
        | inl none_there ↦ inl (ground (arith, none_there))
        | inr (entry, there) ↦ elim (Option-cases v.poison) [
          | inr (e, sick) ↦ inl (ground (arith, sick))
          | inl well ↦
              elim (Bool-cases
                (not (same_owner (some entry.owner) (some owner)) || owner.realm != v.realm)) [
                  | inl refused ↦ inl (ground (arith, well, there, refused))
                  | inr allowed ↦ inr (entry, ground (arith, well, there, allowed))
                ]
        ]
      ]

  remove-IsVault :
      (io : Removal) (owner : Owner) (id : String) (v : Connections C K)
      → IsVault v
      → IsVault (remove io owner id v).1
  unfolding remove
  remove-IsVault io owner id v h = elim shape [
    | inl (entries, bindings) ↦
        λ i x at. rw bindings (h i x (sym (ap (λ m. lookup i m) entries) ∙ at))
    | inr (entries, bindings) ↦
        λ i x at. rw bindings (delete-IsVault id v h i x (sym (ap (λ m. lookup i m) entries) ∙ at))
  ]
    where
      shape :
          (((remove io owner id v).1.entries ≡ v.entries)
            × ((remove io owner id v).1.bindings ≡ v.bindings))
          ⊎ (((remove io owner id v).1.entries ≡ delete id v.entries)
              × ((remove io owner id v).1.bindings ≡ delete id v.bindings))
      shape = ground arith

  abbrev pub handle : Provider C K → Request C K → Connections C K → Connections C K
  handle p (creating io now owner d key) v = (create p io now owner d key v).1
  handle p (rotating io owner id credentials) v = (rotate p io owner id credentials v).1
  handle p (removing io owner id) v = (remove io owner id v).1

  abbrev pub handle_all : Provider C K → List (Request C K) → Connections C K → Connections C K
  handle_all p [] v = v
  handle_all p (r ∷ rest) v = handle_all p rest (handle p r v)

  pub handle_all-IsVault :
      (p : Provider C K) (rs : List (Request C K)) (v : Connections C K)
      → IsVault v
      → IsVault (handle_all p rs v)
  handle_all-IsVault p [] v h = h
  handle_all-IsVault p (creating io now owner d key ∷ rs) v h =
      handle_all-IsVault p rs _ (create-IsVault p io now owner d key v h)
  handle_all-IsVault p (rotating io owner id k ∷ rs) v h =
      handle_all-IsVault p rs _ (rotate-IsVault p io owner id k v h)
  handle_all-IsVault p (removing io owner id ∷ rs) v h =
      handle_all-IsVault p rs _ (remove-IsVault io owner id v h)

  -- From an empty vault, after any requests: a connection that Get finds belongs to the owner of the
  -- entry with that ID, whose realm is the vault's, and it lets that owner read and nobody write, or
  -- that owner write and nobody read.
  pub connections_private :
      (p : Provider C K) (realm : String) (rs : List (Request C K)) (id : String) (b : Binding)
      → let v =
          handle_all p rs
            (record { realm = realm; files = []; entries = []; bindings = []; poison = none }) in
        get id v ≡ some b
        → (entry : Entry C K) × (lookup id v.entries ≡ some entry)
          × (entry.id ≡ id)
          × (entry.owner.realm ≡ v.realm)
          × IsPrivateTo entry.owner b
  unfolding get lookup
  connections_private p realm rs id b h = found (Option-cases (lookup id v.entries))
    where
      v : Connections C K
      v =
          handle_all p rs
            (record { realm = realm; files = []; entries = []; bindings = []; poison = none })

      sound : IsVault v
      sound = handle_all-IsVault p rs _ (λ i x at. cc at)

      found :
          (lookup id v.entries ≡ none) ⊎ ((x : Entry C K) × (lookup id v.entries ≡ some x))
          → (entry : Entry C K) × (lookup id v.entries ≡ some entry)
            × (entry.id ≡ id)
            × (entry.owner.realm ≡ v.realm)
            × IsPrivateTo entry.owner b
      found (inl missing) = absurd (ground (arith, missing, h))
      found (inr (x, at)) =
          let (named, (b', bound, own)) = sound id x at in
          let realm_and : (x.owner.realm ≡ v.realm) × (b' ≡ b) =
            ground (arith, at, bound, h, eq_iff x.owner.realm v.realm) in
          (x, at, named, realm_and.0, subst (IsPrivateTo x.owner) realm_and.1 own)
