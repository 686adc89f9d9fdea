-- ===== src/Connector/Personal/Dial.antt =====
-- The connections to the endpoints of users, resolvedPublicDial of connector/personal.go.
use vector_transfer.Base.{
  String, ◌≡◌, refl, inl, inr, true, false, not, Option, none, some, List, [], ◌∷◌, arith, eqb,
  if◌then◌else◌, Bool-cases, length, all, In, all-In,
}
use vector_transfer.Base.Result.{message, Result, ok, err, Result-cases}
use vector_transfer.Connector.Personal.{Net, public_address}

module _ {Ip Conn : Type 0} (n : Net Ip) where
  -- The loop that dials: the connection, and the addresses that were dialed.
  unfoldable pub dial_each : (Ip → Result Conn) → List Ip → Result Conn × List Ip
  dial_each dial [] = (err (message "provider endpoint could not be reached"), [])
  dial_each dial (ip ∷ rest) =
      let (later, dialed) = dial_each dial rest in
      elim (dial ip) [ ok conn ↦ (ok conn, ip ∷ []) | err e ↦ (later, ip ∷ dialed) ]

  -- What is done with the resolver's answers.
  unfoldable pub dial_answers : (Ip → Result Conn) → List Ip → Result Conn × List Ip
  unfolding dial_each
  dial_answers dial ips =
      if eqb (length ips) 0
      then (err (message "provider endpoint could not be resolved"), [])
      else if not (all (public_address n) ips)
      then (err (message "provider endpoint resolves to a restricted network"), [])
      else dial_each dial ips

  -- `resolvedPublicDial`. `host` is the host that net.SplitHostPort finds, `resolve` the resolver, and
  -- `dial` what becomes of a connection to an address.
  unfoldable pub resolved_public_dial :
      Option String → (String → Result (List Ip)) → (Ip → Result Conn) → Result Conn × List Ip
  unfolding dial_answers
  resolved_public_dial none resolve dial = (err (message "invalid provider address"), [])
  resolved_public_dial (some h) resolve dial = elim (resolve h) [
    | err e ↦ (err (message "provider endpoint could not be resolved"), [])
    | ok ips ↦ dial_answers dial ips
  ]

  dialed-In :
      (dial : Ip → Result Conn) (ips : List Ip) (ip : Ip) → In ip (dial_each dial ips).1 → In ip ips
  unfolding dial_each
  dialed-In dial [] ip h = h
  dialed-In dial (x ∷ rest) ip h = elim (Result-cases (dial x)) [
    | inl (conn, reached) ↦ first_only (rw (dial_each, reached) at h)
    | inr (e, lost) ↦ first_or_later (dialed-In dial rest ip) (rw (dial_each, lost) at h)
  ]
    where
      first_only : In ip (x ∷ []) → In ip (x ∷ rest)
      first_only (inl same) = inl same
      first_only (inr other) = absurd (other tt)

      first_or_later :
          (In ip (dial_each dial rest).1 → In ip rest)
          → In ip (x ∷ (dial_each dial rest).1)
          → In ip (x ∷ rest)
      first_or_later among (inl same) = inl same
      first_or_later among (inr later) = inr (among later)

  answers_sound :
      (dial : Ip → Result Conn) (ips : List Ip) (ip : Ip)
      → In ip (dial_answers dial ips).1
      → In ip ips × (public_address n ip ≡ true)
  unfolding dial_answers
  answers_sound dial ips ip h = elim (Bool-cases (eqb (length ips) 0)) [
    | inl empty ↦ absurd ((rw (dial_answers, empty) at h) tt)
    | inr full ↦ elim (Bool-cases (all (public_address n) ips)) [
      | inr mixed ↦ absurd ((rw (dial_answers, full, mixed) at h) tt)
      | inl all_public ↦
          let there = dialed-In dial ips ip (rw (dial_answers, full, all_public) at h) in
          (there, all-In (public_address n) ip ips there all_public)
    ]
  ]

  answers_refused :
      (dial : Ip → Result Conn) (ips : List Ip) (bad : Ip)
      → In bad ips
      → public_address n bad ≡ false
      → (dial_answers dial ips).1 ≡ []
  unfolding dial_answers
  answers_refused dial ips bad there private_ = elim (Bool-cases (all (public_address n) ips)) [
    | inl all_public ↦ cc (all-In (public_address n) bad ips there all_public, private_)
    | inr mixed ↦ ground (arith, mixed)
  ]

  -- A dial for a user's connection reaches nothing but public addresses that the one lookup of the host
  -- has answered: whatever the resolver answers, each address dialed is among its answers and public, and
  -- if one of the answers is not public, nothing is dialed at all.
  pub dial_public :
      (host : Option String) (resolve : String → Result (List Ip)) (dial : Ip → Result Conn)
      → let dialed = (resolved_public_dial host resolve dial).1 in
        ((ip : Ip)
          → In ip dialed
          → (h : String) × (ips : List Ip) × (host ≡ some h)
            × (resolve h ≡ ok ips)
            × In ip ips
            × (public_address n ip ≡ true))
        × ((h : String) (ips : List Ip) (bad : Ip)
            → host ≡ some h
            → resolve h ≡ ok ips
            → In bad ips
            → public_address n bad ≡ false
            → dialed ≡ [])
  unfolding resolved_public_dial
  dial_public none resolve dial = ((λ ip h. absurd (h tt)), (λ h ips bad named. cc))
  dial_public (some host) resolve dial = (
    λ ip h. elim (Result-cases (resolve host)) [
      | inr (e, lost) ↦ absurd ((rw (resolved_public_dial, lost) at h) tt)
      | inl (ips, found) ↦
          let sound = answers_sound dial ips ip (rw (resolved_public_dial, found) at h) in
          (host, ips, refl, found, sound.0, sound.1)
    ],
    λ h ips bad named found there private_.
        rw (resolved_public_dial, resolved h ips named found)
          (answers_refused dial ips bad there private_),
  )
    where
      resolved :
          (h : String) (ips : List Ip)
          → some host ≡ some h
          → resolve h ≡ ok ips
          → resolve host ≡ ok ips
      resolved h ips named found = cc (named, found)
