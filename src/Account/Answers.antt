-- ===== src/Account/Answers.antt =====
-- How the answers of the profile endpoint are told apart.
use vector_transfer.Base.{◌≤◌, ◌≡◌, refl, ◌↔◌, ◌⊎◌, true, none, some, arith}
use vector_transfer.Base.Result.{Error, unavailable, unauthorized, ok, err}
use vector_transfer.Account.{
  Config, Web, Reply, unreachable, answered, Profile, Principal, principal, is_sound_profile,
  owner_id,
}

-- The endpoint is down, or asks to come back later.
abbrev pub IsDown : Reply Profile → Type 0
IsDown unreachable = Unit
IsDown (answered status body) = (500 ≤ status) ⊎ (status ≡ 429)

-- The endpoint has named a principal.
abbrev pub Names : Reply Profile → Profile → Type 0
Names unreachable p = Unit → ⊥
Names (answered status body) p = (status ≡ 200) × (body ≡ some p) × (is_sound_profile p ≡ true)

-- The profile request fails with "unavailable" exactly when the endpoint cannot be reached or answers
-- 429 or a status of at least 500; it gives a principal exactly when the endpoint answers 200 with a
-- sound profile, the principal's, whose owner ID is the digest of the API's URL and the subject; and
-- it fails with no error but "unavailable" and "unauthorized".
pub principal_iff :
    (web : Web) (cfg : Config) (reply : Reply Profile) (who : Principal)
    → ((principal web cfg reply ≡ err unavailable) ↔ IsDown reply)
      × ((principal web cfg reply ≡ ok who)
          ↔ (Names reply who.profile × (who.owner_id ≡ owner_id web cfg who.profile.subject)))
      × ((e : Error) → principal web cfg reply ≡ err e → (e ≡ unavailable) ⊎ (e ≡ unauthorized))
unfolding principal
principal_iff web cfg unreachable who =
    ((λ h. tt, λ h. refl), (λ h. cc, λ h. absurd (h.0 tt)), λ e h. ground (arith, h))
principal_iff web cfg (answered status none) who = (
  (λ h. ground (arith, h), λ h. ground (arith, h)),
  (λ h. ground (arith, h), λ h. ground (arith, h)),
  λ e h. ground (arith, h),
)
principal_iff web cfg (answered status (some p)) who = (
  (λ h. ground (arith, h), λ h. ground (arith, h)),
  (λ h. ground (arith, h), λ h. ground (arith, h)),
  λ e h. ground (arith, h),
)
