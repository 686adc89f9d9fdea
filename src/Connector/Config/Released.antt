-- ===== src/Connector/Config/Released.antt =====
-- What becomes of the adapters that are opened while a configuration is loaded.
use vector_transfer.Base.{
  ℕ, ◌+◌, String, ◌≡◌, refl, ap, ◌∙◌, inl, inr, Option, none, some, List, [], ◌∷◌, ◌++◌, arith, eqb,
  count,
}
use vector_transfer.Base.Result.{Error, Result, ok, err, Result-cases}
use vector_transfer.Base.Dict.{Dict}
use vector_transfer.Connector.{Handle}
use vector_transfer.Connector.Config.{
  Connection, Adapter, Opened, Loader, Outcome, built, handles, use_adapter, open_custom,
  opens_nothing, granted_binding, close_all, load_one, load_loop, load_config,
}

-- How often a handle occurs.
abbrev pub times : Handle → List Handle → ℕ
times k xs = count (eqb k) xs

times-append : (k : Handle) (xs ys : List Handle) → times k (xs ++ ys) ≡ times k xs + times k ys
times-append k [] ys = omega arith
times-append k (x ∷ xs) ys = ground (arith, times-append k xs ys)

-- What one opening leaves: everything closed, or exactly the closer of its result open.
abbrev IsSettled : Outcome Opened → Type 0
IsSettled u =
    ((e : Error) → u.result ≡ err e → u.closed ≡ u.opened)
    × ((o : Opened) → u.result ≡ ok o → (u.closed ≡ []) × (u.opened ≡ handles o.closer))

adapter-IsSettled :
    (l : Loader) (name : String) (c : Connection) (a : Adapter) → IsSettled (use_adapter l name c a)
unfolding use_adapter
adapter-IsSettled l name c a = (λ e h. ground (arith, h), λ o h. ground (arith, h))

refused-IsSettled : (e : Error) → IsSettled (opens_nothing (err e))
refused-IsSettled e = (λ e' h. refl, λ o h. cc)

built-IsSettled : (r : Result Opened) → IsSettled (built r)
built-IsSettled (err e) = refused-IsSettled e
built-IsSettled (ok o) = (λ e h. cc, λ o' h. ground (arith, h))

custom-IsSettled :
    (l : Loader) (name : String) (c : Connection) (made : Result Adapter)
    → IsSettled (open_custom l name c made)
unfolding open_custom
custom-IsSettled l name c (err e) = (λ e' h. ground (arith, h), λ o h. ground (arith, h))
custom-IsSettled l name c (ok a) =
    let settled = adapter-IsSettled l name c a in
    (λ e h. ground (arith, h, settled.0 e), λ o h. ground (arith, h, settled.1 o))

one-IsSettled :
    (l : Loader) (name : String) (c : Connection) (made : Option (Result Adapter))
    → IsSettled (load_one l name c made)
unfolding load_one
one-IsSettled l name c none =
    let settled = built-IsSettled (l.build name c) in
    (λ e h. ground (arith, h, settled.0 e), λ o h. ground (arith, h, settled.1 o))
one-IsSettled l name c (some made) =
    let settled = custom-IsSettled l name c made in
    (λ e h. ground (arith, h, settled.0 e), λ o h. ground (arith, h, settled.1 o))

granted_closer : (c : Connection) (o : Opened) → (granted_binding c o).closer ≡ o.closer
unfolding granted_binding
granted_closer c o = refl

-- What a loading that started with `r` leaves: each handle that it opened, or that `r` had, is closed if
-- it fails, and is in the registry if it succeeds.
abbrev IsReleased : Handle → Dict Opened → Outcome (Dict Opened) → Type 0
IsReleased k r u =
    ((e : Error) → u.result ≡ err e → times k u.closed ≡ times k u.opened + times k (close_all r))
    × ((r' : Dict Opened)
        → u.result ≡ ok r'
        → (u.closed ≡ []) × (times k (close_all r') ≡ times k u.opened + times k (close_all r)))

loop-IsReleased :
    (l : Loader) (factory : Connection → Option (Result Adapter)) (k : Handle) (r : Dict Opened)
    (cs : List (String × Connection))
    → IsReleased k r (load_loop l factory r cs)
unfolding load_loop close_all
loop-IsReleased l factory k r [] = (λ e h. cc, λ r' h. ground (arith, h))
loop-IsReleased l factory k r ((name, c) ∷ rest) =
    let one = load_one l name c (factory c) in
    let settled = one-IsSettled l name c (factory c) in
    elim (Result-cases one.result) [
      | inr (e, failed) ↦
          rw (load_loop, failed)
            (
              (λ e' h.
                  times-append k one.closed (close_all r)
                  ∙ ap (λ xs. times k xs + times k (close_all r)) (settled.0 e failed)),
              λ r' h. cc,
            )
      | inl (o, came_up) ↦
          let later = loop-IsReleased l factory k ((name, granted_binding c o) ∷ r) rest in
          let held = ap (times k) (settled.1 o came_up).1 in
          let all_opened =
            times-append k one.opened
              (load_loop l factory ((name, granted_binding c o) ∷ r) rest).opened in
          let all_held = times-append k (handles o.closer) (close_all r) in
          rw (load_loop, came_up)
            (
              (λ e h. omega (arith, later.0 e h, held, all_opened, all_held)),
              λ r' h.
                  ((later.1 r' h).0, omega (arith, (later.1 r' h).1, held, all_opened, all_held)),
            )
    ]

-- Loading a configuration releases what it has opened. For each handle of an adapter's Close: if the
-- loading fails, the handle is closed exactly as often as an adapter with it has been opened, the one that
-- was refused included; and if it succeeds, nothing has been closed, and closing the registry closes the
-- handle exactly as often as it has been opened.
pub load_releases :
    (l : Loader) (factory : Connection → Option (Result Adapter))
    (connections : List (String × Connection)) (k : Handle)
    → let u = load_config l factory connections in
      ((e : Error) → u.result ≡ err e → times k u.closed ≡ times k u.opened)
      × ((r : Dict Opened)
          → u.result ≡ ok r
          → (u.closed ≡ []) × (times k (close_all r) ≡ times k u.opened))
unfolding load_config close_all
load_releases l factory connections k =
    let released = loop-IsReleased l factory k [] connections in
    (
      (λ e h. omega (arith, released.0 e h)),
      λ r h. ((released.1 r h).0, omega (arith, (released.1 r h).1)),
    )
