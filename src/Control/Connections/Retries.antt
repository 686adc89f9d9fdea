-- ===== src/Control/Connections/Retries.antt =====
-- Requests that create a connection, sent again.
use vector_transfer.Base.{
  ℕ, String, ◌≡◌, refl, sym, ap, ◌∙◌, subst, Bool, true, false, ◌||◌, Option, none, some, arith,
  ◌==◌, ltb, ◌!=◌, byte_length, ==_refl,
}
use vector_transfer.Base.Result.{Result, ok, err}
use vector_transfer.Base.Dict.{lookup, insert, lookup-insert}
use vector_transfer.Connector.{Binding}
use vector_transfer.Control.Job.{Owner, same_owner}
use vector_transfer.Control.Connections.{
  Connections, Entry, Definition, Provider, Sealing, create, personal_binding, install, keep,
  persist, connection_id, with_created, trimmed,
}

pub same_owner_refl : (o : Option Owner) → same_owner o o ≡ true
unfolding same_owner
same_owner_refl none = refl
same_owner_refl (some o) = ground (arith, ==_refl o.id, ==_refl o.subject, ==_refl o.realm)

module _ {C K : Type 0} (p : Provider C K) where
  -- An installation that succeeds has stored the entry and its binding, and poisons nothing.
  pub install_stored :
      (io : Sealing) (entry : Entry C K) (v : Connections C K) (b : Binding)
      → (install p io entry v).0 ≡ ok b
      → let v' = (install p io entry v).1 in
        (v'.entries ≡ insert entry.id entry v.entries)
        × (v'.bindings ≡ insert entry.id b v.bindings)
        × (v'.poison ≡ v.poison)
        × (v'.realm ≡ v.realm)
        × (v'.files ≡ insert entry.id entry v.files)
  unfolding install keep persist
  install_stored io entry v b h = by_binding (personal_binding p entry) h
    where
      by_binding :
          (r : Result Binding)
          → (elim r as (λ x. Result Binding × Connections C K) [
            | err e ↦ (err e, v)
            | ok b' ↦ keep entry b' (persist io entry v)
          ]).0
            ≡ ok b
          → let v' =
              (elim r as (λ x. Result Binding × Connections C K) [
                | err e ↦ (err e, v)
                | ok b' ↦ keep entry b' (persist io entry v)
              ]).1 in
            (v'.entries ≡ insert entry.id entry v.entries)
            × (v'.bindings ≡ insert entry.id b v.bindings)
            × (v'.poison ≡ v.poison)
            × (v'.realm ≡ v.realm)
            × (v'.files ≡ insert entry.id entry v.files)
      by_binding (err e) g = cc
      by_binding (ok b') g = ground (arith, g)

  with_created_ok :
      (f : Bool) (r : Result Binding × Connections C K) (b : Binding)
      → (with_created f r).0 ≡ ok (b, true)
      → (r.0 ≡ ok b) × ((with_created f r).1 ≡ r.1)
  with_created_ok f (ok b', v) b h = (ground arith, refl)
  with_created_ok f (err e, v) b h = cc

  module _ (io : Sealing) (now : ℕ) (owner : Owner) (d : Definition C K) (key : String) where
    abbrev pub fresh : Entry C K
    fresh = record {
      id = connection_id p owner key;
      owner = owner;
      definition = trimmed d;
      request_digest = p.mac (p.encode (trimmed d));
      created_at = now;
    }

    create_shape :
        (v : Connections C K) (b : Binding)
        → (create p io now owner d key v).0 ≡ ok (b, true)
        → (v.poison ≡ none)
          × ((owner.id == "" || owner.subject == "" || owner.realm != v.realm) ≡ false)
          × ((key == "" || ltb 128 (byte_length key)) ≡ false)
          × ((install p io fresh v).0 ≡ ok b)
          × ((create p io now owner d key v).1 ≡ (install p io fresh v).1)
    unfolding create
    create_shape v b h = ground (arith, with_created_ok true (install p io fresh v) b)

    create_known :
        (v : Connections C K) (b : Binding) (io' : Sealing) (now' : ℕ)
        → v.poison ≡ none
        → (owner.id == "" || owner.subject == "" || owner.realm != v.realm) ≡ false
        → (key == "" || ltb 128 (byte_length key)) ≡ false
        → lookup (connection_id p owner key) v.entries ≡ some fresh
        → lookup (connection_id p owner key) v.bindings ≡ some b
        → create p io' now' owner d key v ≡ (ok (b, false), v)
    unfolding create
    create_known v b io' now' well allowed keyed at bound =
        let same = same_owner_refl (some owner) in
        let digest = ==_refl (p.mac (p.encode (trimmed d))) in
        ground (arith, well, allowed, keyed, at, bound, same, digest)

    -- Create after a successful Create with the same owner, definition and key, whatever the clock
    -- and the file system do then, gives the same connection back as an old one and changes nothing.
    pub create_retry :
        (v : Connections C K) (b : Binding) (io' : Sealing) (now' : ℕ)
        → (create p io now owner d key v).0 ≡ ok (b, true)
        → let v' = (create p io now owner d key v).1 in
          create p io' now' owner d key v' ≡ (ok (b, false), v')
    create_retry v b io' now' h =
        let id = connection_id p owner key in
        let (well, allowed, keyed, installed, same) = create_shape v b h in
        let stored = install_stored io fresh v b installed in
        let here = ==_refl id in
        let at = lookup-insert id id fresh v.entries ∙ rw here refl in
        let bound = lookup-insert id id b v.bindings ∙ rw here refl in
        subst (λ w. create p io' now' owner d key w ≡ (ok (b, false), w)) (sym same)
          (create_known (install p io fresh v).1 b io' now' (stored.2 ∙ well) (rw stored.3 allowed)
            keyed (ap (lookup id) stored.0 ∙ at) (ap (lookup id) stored.1 ∙ bound))
