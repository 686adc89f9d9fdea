-- ===== src/Account/Flow/Kept.antt =====
-- What the service's other requests leave of a session.
use vector_transfer.Base.{
  ℕ, ◌+◌, ◌*◌, ◌<◌, String, ◌≡◌, refl, sym, ap, ◌∙◌, subst, ◌⊎◌, inl, inr, false, Option, none,
  some, List, [], ◌∷◌, arith, ◌==◌, eq_iff, eqb, Bool-cases, Option-cases, All, ==_sound,
}
use vector_transfer.Base.Result.{ok}
use vector_transfer.Base.Dict.{Dict, lookup, lookup-insert, lookup-delete}
use vector_transfer.Account.{Config, Web, Request, Tokens, Principal, digest, principal}
use vector_transfer.Control.Job.{second}
use vector_transfer.Account.Sessions.{
  Service, Session, Provider, login, live_sessions, take_transaction, open_session, find_session,
  use_session, renewed, confirm, close_session, drop_session, forget, set_cell,
}
use vector_transfer.Account.Sessions.Handlers.{
  Step, logs_in, takes, opens, finds, uses, closes, drops, step, steps,
}
use vector_transfer.Account.Flow.Logins.{names}

live_sessions-some :
    (now : ℕ) (cell : ℕ → Session) (k : String) (ref : ℕ) (m : Dict ℕ)
    → lookup k m ≡ some ref
    → now < (cell ref).deadline
    → lookup k (live_sessions now cell m) ≡ some ref
unfolding live_sessions lookup
live_sessions-some now cell k ref [] h timely = h
live_sessions-some now cell k ref ((j, ref') ∷ m) h timely =
    let later = live_sessions-some now cell k ref m in
    elim (Bool-cases (j == k)) [
      | inl here ↦
          let same : ref' ≡ ref = ground (arith, here, h) in
          let alive : now < (cell ref').deadline = rw same timely in ground (arith, here, h, alive)
      | inr there ↦ ground (arith, there, h, timely, later)
    ]

module _ (web : Web) (cfg : Config) where
  module _ (d : String) (ref : ℕ) (x : Session) where
    -- The session is in the map under this digest.
    abbrev pub IsHeld : Service → Type 0
    IsHeld s = (ref < s.next) × (lookup d s.sessions ≡ some ref) × (s.cell ref ≡ x)

    -- The step comes before the session's deadline, and neither closes it, replaces it, nor draws an ID
    -- of its digest; where it uses the session, its access token is fresh and is still the subject's.
    abbrev pub IsApart : Step → Type 0
    IsApart (logs_in now state browser verifier r) = now < x.deadline
    IsApart (takes now r) = Unit
    IsApart (opens now id csrf r tok who) =
        ((digest web id == d) ≡ false)
        × (names web cfg r.session_cookie d ≡ false)
        × (now < x.deadline)
    IsApart (finds now r) = now < x.deadline
    IsApart (uses now p r k) =
        (eqb k ref ≡ false)
        ⊎ ((now + 30 * second < x.expires)
            × ((who : Principal) × (principal web cfg (p.me x.access) ≡ ok who)
                × (who.profile.subject ≡ x.subject)))
    IsApart (closes r k) = eqb k ref ≡ false
    IsApart (drops r) = names web cfg r.session_cookie d ≡ false

    live-IsHeld :
        (now : ℕ) (s : Service)
        → now < x.deadline
        → IsHeld s
        → lookup d (live_sessions now s.cell s.sessions) ≡ some ref
    live-IsHeld now s timely h = live_sessions-some now s.cell d ref s.sessions h.1 (rw h.2 timely)

    forget-other :
        (cookie : Option String) (m : Dict ℕ)
        → names web cfg cookie d ≡ false
        → lookup d (forget web cookie m) ≡ lookup d m
    forget-other none m other = refl
    forget-other (some c) m other = lookup-delete d (digest web c) m ∙ rw other refl

    login-IsHeld :
        (now : ℕ) (state browser verifier : String) (r : Request) (s : Service)
        → now < x.deadline
        → IsHeld s
        → IsHeld (login web cfg now state browser verifier r s).1
    unfolding login
    login-IsHeld now state browser verifier r s timely h =
        ground (arith, h, live-IsHeld now s timely h)

    open-IsHeld :
        (now : ℕ) (id csrf : String) (r : Request) (tok : Tokens) (who : Principal) (s : Service)
        → (digest web id == d) ≡ false
        → names web cfg r.session_cookie d ≡ false
        → now < x.deadline
        → IsHeld s
        → IsHeld (open_session web now id csrf r tok who s).1
    unfolding open_session
    open-IsHeld now id csrf r tok who s other unnamed timely h =
        let live = live_sessions now s.cell s.sessions in
        ground (
          arith,
          h,
          other,
          live-IsHeld now s timely h,
          forget-other r.session_cookie live unnamed,
          lookup-insert d (digest web id) s.next (forget web r.session_cookie live),
        )

    find-IsHeld :
        (now : ℕ) (r : Request) (s : Service)
        → now < x.deadline
        → IsHeld s
        → IsHeld (find_session web now r s).1
    unfolding find_session
    find-IsHeld now r s timely h = elim (Option-cases r.session_cookie) [
      | inl nothing ↦ ground (arith, h, nothing)
      | inr (c, there) ↦ elim (Bool-cases (digest web c == d)) [
        | inl same ↦
            let at : lookup (digest web c) s.sessions ≡ some ref =
              ap (λ k. lookup k s.sessions) (==_sound (digest web c) d same) ∙ h.1 in
            let alive : now < (s.cell ref).deadline = rw h.2 timely in
            ground (arith, h, there, at, alive)
        | inr other ↦ ground (arith, h, there, other, lookup-delete d (digest web c) s.sessions)
      ]
    ]

    use_other-IsHeld :
        (now : ℕ) (p : Provider) (r : Request) (k : ℕ) (s : Service)
        → eqb k ref ≡ false
        → IsHeld s
        → IsHeld (use_session web cfg now p r k s).1
    unfolding use_session confirm
    use_other-IsHeld now p r k s other h = ground (arith, other, h)

    use_fresh :
        (now : ℕ) (p : Provider) (r : Request) (s : Service) (who : Principal)
        → now + 30 * second < x.expires
        → principal web cfg (p.me x.access) ≡ ok who
        → who.profile.subject ≡ x.subject
        → s.cell ref ≡ x
        → ((use_session web cfg now p r ref s).1 ≡ s)
          ⊎ ((use_session web cfg now p r ref s).1 ≡ record s { cell = set_cell ref x s.cell })
    unfolding use_session confirm renewed
    use_fresh now p r s who fresh seen same at =
        ground (arith, fresh, seen, at, same, eq_iff who.profile.subject x.subject)

    use_same-IsHeld :
        (now : ℕ) (p : Provider) (r : Request) (s : Service) (who : Principal)
        → now + 30 * second < x.expires
        → principal web cfg (p.me x.access) ≡ ok who
        → who.profile.subject ≡ x.subject
        → IsHeld s
        → IsHeld (use_session web cfg now p r ref s).1
    use_same-IsHeld now p r s who fresh seen same h =
        elim (use_fresh now p r s who fresh seen same h.2) [
          | inl kept ↦ subst IsHeld (sym kept) h
          | inr stored ↦ subst IsHeld (sym stored) (h.0, h.1, ground arith)
        ]

    use-IsHeld :
        (now : ℕ) (p : Provider) (r : Request) (k : ℕ) (s : Service)
        → IsApart (uses now p r k)
        → IsHeld s
        → IsHeld (use_session web cfg now p r k s).1
    use-IsHeld now p r k s (inl other) h = use_other-IsHeld now p r k s other h
    use-IsHeld now p r k s (inr (fresh, (who, seen, same))) h = elim (Bool-cases (eqb k ref)) [
      | inr other ↦ use_other-IsHeld now p r k s other h
      | inl here ↦
          let at : k ≡ ref = ground (arith, here) in
          subst (λ i. IsHeld (use_session web cfg now p r i s).1) (sym at)
            (use_same-IsHeld now p r s who fresh seen same h)
    ]

    step-IsHeld : (y : Step) (s : Service) → IsApart y → IsHeld s → IsHeld (step web cfg y s)
    unfolding step take_transaction close_session drop_session
    step-IsHeld (logs_in now state browser verifier r) s apart h =
        login-IsHeld now state browser verifier r s apart h
    step-IsHeld (takes now r) s apart h = ground (arith, h)
    step-IsHeld (opens now id csrf r tok who) s apart h =
        open-IsHeld now id csrf r tok who s apart.0 apart.1 apart.2 h
    step-IsHeld (finds now r) s apart h = find-IsHeld now r s apart h
    step-IsHeld (uses now p r k) s apart h = use-IsHeld now p r k s apart h
    step-IsHeld (closes r k) s apart h = ground (arith, apart, h)
    step-IsHeld (drops r) s apart h =
        (h.0, forget-other r.session_cookie s.sessions apart ∙ h.1, h.2)

    pub steps-IsHeld :
        (xs : List Step) (s : Service) → All IsApart xs → IsHeld s → IsHeld (steps web cfg xs s)
    unfolding steps
    steps-IsHeld [] s apart h = h
    steps-IsHeld (y ∷ ys) s apart h =
        steps-IsHeld ys (step web cfg y s) apart.1 (step-IsHeld y s apart.0 h)
