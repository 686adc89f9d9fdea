-- ===== src/Connector/Personal/Accepted.antt =====
-- The connections of users that are accepted.
use vector_transfer.Base.{
  String, ◌≡◌, refl, ap, ◌∙◌, ◌⊎◌, inl, inr, Bool, true, false, ◌||◌, some, List, [], ◌∷◌, arith,
  ◌==◌, Bool-cases, Option-cases, All, ==_sound,
}
use vector_transfer.Base.Result.{Result, ok, err, ◌>>=◌}
use vector_transfer.Account.{Url}
use vector_transfer.Connector.Personal.{
  Net, PersonalConfig, PersonalCredentials, first_refusal, public_address, is_origin, is_local_name,
  is_additional, is_private_literal,
}
use vector_transfer.Connector.Personal.Validate.{
  validate, validate_first, check_settings, check_keyed, check_endpoint,
}
use vector_transfer.Connector.Personal.Additional.{validate_additional, check_texts, check_scheme}

refused_none : (xs : List (Bool × String)) → first_refusal xs ≡ ok tt → All (λ x. x.0 ≡ false) xs
unfolding first_refusal
refused_none [] h = tt
refused_none ((failed, text) ∷ rest) h = ground (arith, h, refused_none rest)

both_ok :
    (r : Result (Unit {0})) (f : Unit → Result (Unit {0}))
    → (r >>= f) ≡ ok tt
    → (r ≡ ok tt) × (f tt ≡ ok tt)
both_ok (ok tt) f h = (refl, h)
both_ok (err e) f h = cc

module _ {Ip : Type 0} (n : Net Ip) where
  -- What the endpoint and the credentials of an accepted connection are.
  abbrev pub IsPublicEndpoint : PersonalConfig → Type 0
  IsPublicEndpoint c =
      (u : Url) × (n.parse_url c.endpoint ≡ some u)
      × (is_origin u ≡ true)
      × ((u.scheme == "http") ≡ false)
      × ((u.scheme == "redis") ≡ false)
      × (is_local_name n (n.hostname u) ≡ false)
      × ((ip : Ip) → n.parse_addr (n.hostname u) ≡ some ip → public_address n ip ≡ true)

  not_plain :
      (s t : String)
      → (s == t) ≡ true
      → (t == "http") ≡ false
      → (t == "redis") ≡ false
      → ((s == "http") ≡ false) × ((s == "redis") ≡ false)
  not_plain s t same a b = (
    ap (λ x. x == "http") (==_sound s t same) ∙ a,
    ap (λ x. x == "redis") (==_sound s t same) ∙ b,
  )

  literal_public :
      (host : String)
      → is_private_literal n host ≡ false
      → (ip : Ip) → n.parse_addr host ≡ some ip
      → public_address n ip ≡ true
  literal_public host h ip parsed = ground (arith, h, parsed)

  check_endpoint-IsPublic :
      (c : PersonalConfig) → check_endpoint n c.endpoint ≡ ok tt → IsPublicEndpoint c
  unfolding check_endpoint
  check_endpoint-IsPublic c h = elim (Option-cases (n.parse_url c.endpoint)) [
    | inl lost ↦ cc (rw (check_endpoint, lost) at h)
    | inr (u, found) ↦
        let (scheme, (name, (literal, done))) = refused_none _ (rw (check_endpoint, found) at h) in
        let https : (u.scheme == "https") ≡ true = ground (arith, scheme) in
        let origin : is_origin u ≡ true = ground (arith, scheme) in
        let plain = not_plain u.scheme "https" https refl refl in
        (u, found, origin, plain.0, plain.1, name, literal_public (n.hostname u) literal)
  ]

  check_scheme-plain :
      (c : PersonalConfig) (k : PersonalCredentials) (u : Url)
      → check_scheme n true c k u ≡ ok tt
      → ((u.scheme == "http") ≡ false) × ((u.scheme == "redis") ≡ false)
  unfolding check_scheme first_refusal
  check_scheme-plain c k u h =
      elim (one_of (u.scheme == "https") (u.scheme == "postgresql") (u.scheme == "rediss")
        (u.scheme == "mongodb") (u.scheme == "mongodb+srv") (ground (arith, h))) [
          | inl https ↦ not_plain u.scheme "https" https refl refl
          | inr (inl postgresql) ↦ not_plain u.scheme "postgresql" postgresql refl refl
          | inr (inr (inl rediss)) ↦ not_plain u.scheme "rediss" rediss refl refl
          | inr (inr (inr (inl mongodb))) ↦ not_plain u.scheme "mongodb" mongodb refl refl
          | inr (inr (inr (inr srv))) ↦ not_plain u.scheme "mongodb+srv" srv refl refl
        ]
    where
      one_of :
          (a b d e f : Bool)
          → (a || b || d || e || f) ≡ true
          → (a ≡ true) ⊎ (b ≡ true) ⊎ (d ≡ true) ⊎ (e ≡ true) ⊎ (f ≡ true)
      one_of a b d e f h = ground (arith, h)

  -- The connection has credentials of its own.
  abbrev pub HasSecret : PersonalCredentials → Type 0
  HasSecret k = ((k.api_key == "") ≡ false) ⊎ ((k.password == "") ≡ false)

  texts-HasSecret :
      (c : PersonalConfig) (k : PersonalCredentials) → check_texts n true c k ≡ ok tt → HasSecret k
  unfolding check_texts
  texts-HasSecret c k h =
      let (x0, (x1, (x2, (x3, (x4, (x5, done)))))) = refused_none _ h in ground (arith, x5)

  keyed-HasSecret :
      (c : PersonalConfig) (k : PersonalCredentials) → check_keyed n c k ≡ ok tt → HasSecret k
  unfolding check_keyed
  keyed-HasSecret c k h = let (x0, (x1, done)) = refused_none _ h in inl x1

  additional-IsPublic :
      (c : PersonalConfig) (k : PersonalCredentials)
      → validate_additional n true c k ≡ ok tt
      → IsPublicEndpoint c × HasSecret k
  unfolding validate_additional
  additional-IsPublic c k h =
      let (texts, rest) = both_ok (check_texts n true c k) _ h in
      elim (Option-cases (n.parse_url c.endpoint)) [
        | inl lost ↦ cc (rw lost at rest)
        | inr (u, found) ↦
            let (o, rest1) = both_ok (first_refusal _) _ (rw found at rest) in
            let (scheme, rest2) = both_ok (check_scheme n true c k u) _ rest1 in
            let (hosts, rest3) = both_ok (first_refusal _) _ rest2 in
            let (name, (literal, done)) = refused_none _ hosts in
            let origin : is_origin u ≡ true = ground (arith, refused_none _ o) in
            let plain = check_scheme-plain c k u scheme in
            (
              (u, found, origin, plain.0, plain.1, name, literal_public (n.hostname u) literal),
              texts-HasSecret c k texts,
            )
      ]

  first-IsPublic :
      (c : PersonalConfig) (k : PersonalCredentials)
      → validate_first n c k ≡ ok tt
      → (c.kind == "s3vectors") ≡ false
      → IsPublicEndpoint c × HasSecret k
  unfolding validate_first
  first-IsPublic c k h not_s3 =
      let (settings, rest) = both_ok (check_settings n c k) _ h in
      let (keyed, rest1) = both_ok (check_keyed n c k) _ (rw not_s3 at rest) in
      let (endpoint, rest2) = both_ok (check_endpoint n c.endpoint) _ rest1 in
      (check_endpoint-IsPublic c endpoint, keyed-HasSecret c k keyed)

  -- When the settings of a user's own connection pass the tests, other than for S3 Vectors, whose endpoint
  -- is derived from a region, then the endpoint is an origin without user, query or path; its scheme is
  -- neither "http" nor "redis"; its host is not the local one by name, and, if it is written as an
  -- address, a public address; and the credentials have an API key or a password.
  pub personal_public :
      (c : PersonalConfig) (k : PersonalCredentials)
      → validate n c k ≡ ok tt
      → (c.kind == "s3vectors") ≡ false
      → IsPublicEndpoint c × HasSecret k
  unfolding validate
  personal_public c k h not_s3 = elim (Bool-cases (is_additional c.kind)) [
    | inl additional ↦ additional-IsPublic c k (rw additional at h)
    | inr first ↦ first-IsPublic c k (rw first at h) not_s3
  ]
