-- ===== src/Account.antt =====
-- The Polign account service, accountauth/session.go: its configuration, the origin of a request, and
-- what the token and profile endpoints answer.
pub mod Sessions
pub mod Closed
pub mod Once
pub mod Capacity
pub mod Flow
pub mod Answers
use vector_transfer.Base.{
  ℕ, zero, suc, ◌+◌, ◌-◌, ◌*◌, ◌/◌, ◌%◌, ◌^◌, ◌≤◌, ◌<◌, min, max, String, ◌≡◌, refl, sym, ap, ◌∙◌,
  subst, ◌≢◌, ◌↔◌, ◌⊎◌, inl, inr, Bool, true, false, not, ◌&&◌, ◌||◌, Option, none, some, List, [],
  ◌∷◌, ◌++◌, append-nil, append_assoc, arith, ◌==◌, eq_iff, ltb, leb, eqb, if◌then◌else◌, ltb→lt,
  ltb→le, leb→le, leb→lt, tests, Bool-cases, Option-cases, is_some, is_none, &&-eq_true, ||-eq_true,
  length, take, drop, any, all, count, All, In, length-append, take-append-drop, length-take-le,
  length-drop, any-In, all-In, ◌!=◌, ◌<>◌, byte_length, ==_refl, ==_sound, String-discrete, decimal,
  decimal_ℤ, ℤ, pos, negsuc, pos_part, neg_part, ltb_ℤ, eqb_ℤ, ◌≤ℤ◌, eqb_ℤ_sound, any-false,
  false-any, All-map, take-all, take-append_left, any-take, codes, trim_space, cut_prefix,
  trim_right_code,
}
use vector_transfer.Base.Result.{
  Error, not_found, conflict, forbidden, unavailable, unauthorized, canceled_context,
  journal_failed, vault_unavailable, workers_unavailable, message, Result, ok, err, ◌>>=◌, is_ok,
}

-- `Config`.
pub record Config : Type 0 where
  pub public_url : String
  pub account_url : String
  pub api_url : String
  pub cognito_url : String
  pub client_id : String

-- What net/url reads from a URL.
pub record Url : Type 0 where
  pub scheme : String
  pub host : String
  pub has_user : Bool
  pub raw_query : String
  pub fragment : String
  pub path : String

-- url.Parse, strings.EqualFold, and the hexadecimal SHA-256 of a text.
pub record Web : Type 0 where
  pub parse_url : String → Option Url
  pub equal_fold : String → String → Bool
  pub sha256_hex : List ℕ → String

-- `digest`, `Realm` and `Owner`.
unfoldable pub digest : Web → String → String
digest web s = web.sha256_hex (codes s)

unfoldable pub realm : Web → Config → String
unfolding digest
realm web cfg = digest web cfg.api_url

unfoldable pub owner_id : Web → Config → String → String
owner_id web cfg subject = web.sha256_hex (codes cfg.api_url ++ 0 ∷ codes subject)

-- The test of each URL in `New`.
unfoldable pub is_https_origin : Option Url → Bool
is_https_origin none = false
is_https_origin (some u) =
    u.scheme == "https"
    && u.host != ""
    && not u.has_user
    && u.raw_query == ""
    && u.fragment == ""
    && (u.path == "" || u.path == "/")

-- `New`: the configuration of the service.
unfoldable pub new_config : Web → Config → Result Config
unfolding is_https_origin
new_config web cfg =
    if not (
      all (λ v. is_https_origin (web.parse_url v))
        (cfg.public_url ∷ cfg.account_url ∷ cfg.api_url ∷ cfg.cognito_url ∷ []))
    then err (
        message
          "account authentication requires HTTPS origins without credentials, paths, or query strings")
    else if trim_space cfg.client_id == ""
    then err (message "account client_id is required")
    else ok (record cfg {
      public_url = trim_right_code b'/' cfg.public_url;
      account_url = trim_right_code b'/' cfg.account_url;
      api_url = trim_right_code b'/' cfg.api_url;
      cognito_url = trim_right_code b'/' cfg.cognito_url;
    })

-- What the service reads of a request. A cookie that is missing is `none`.
pub record Request : Type 0 where
  pub method : String
  pub host : String
  pub origin : String
  pub authorization : String
  pub csrf_token : String
  pub session_cookie : Option String
  pub login_cookie : Option String
  pub state : String
  pub login_code : String
  pub login_error : String
  pub over_tls : Bool
  pub forwarded_proto : String

-- `u.Host` of the public URL.
abbrev pub public_host : Web → Config → String
public_host web cfg = elim (web.parse_url cfg.public_url) [ none ↦ "" | some u ↦ u.host ]

-- `sameOrigin`.
unfoldable pub same_origin : Web → Config → Request → Bool
same_origin web cfg r =
    r.host == public_host web cfg && (r.origin == "" || r.origin == cfg.public_url)

-- What `SecureOrigin` does with a request.
pub data Scheme : Type 0 where
  https_required : Scheme
  redirects : Scheme
  serves : Scheme

abbrev pub is_read : Request → Bool
is_read r = r.method == "GET" || r.method == "HEAD"

unfoldable pub secure_origin : Request → Scheme
secure_origin r =
    if not r.over_tls && r.forwarded_proto != "https"
    then (if not (is_read r) then https_required else redirects)
    else serves

-- What an endpoint answers: nothing, or a status with the body, if that can be decoded.
pub data Reply {ℓ} (A : Type ℓ) : Type ℓ where
  unreachable : Reply A
  answered : ℕ → Option A → Reply A

-- `tokens`.
pub record Tokens : Type 0 where
  pub access : String
  pub refresh : String
  pub expires_in : ℤ
  pub token_type : String

-- What the profile endpoint sends of a `Principal`.
pub record Profile : Type 0 where
  pub subject : String
  pub email : String
  pub email_verified : Bool

-- `Principal`.
pub record Principal : Type 0 where
  pub profile : Profile
  pub owner_id : String

abbrev pub is_sound_tokens : Web → Tokens → Bool
is_sound_tokens web t =
    t.access != ""
    && not (ltb_ℤ t.expires_in (pos 1))
    && not (ltb_ℤ (pos 86400) t.expires_in)
    && web.equal_fold t.token_type "Bearer"

-- `exchange`, of the token endpoint's answer.
unfoldable pub exchange : Web → Reply Tokens → Result Tokens
exchange web unreachable = err unavailable
exchange web (answered status body) =
    if leb 500 status
    then err unavailable
    else if not (eqb status 200)
    then err unauthorized
    else elim body [
      | none ↦ err unauthorized
      | some t ↦ if is_sound_tokens web t then ok t else err unauthorized
    ]

abbrev pub is_sound_profile : Profile → Bool
is_sound_profile p =
    p.subject != "" && leb (byte_length p.subject) 256 && (p.email == "" || p.email_verified)

-- `profile`, of the profile endpoint's answer.
unfoldable pub principal : Web → Config → Reply Profile → Result Principal
unfolding owner_id
principal web cfg unreachable = err unavailable
principal web cfg (answered status body) =
    if leb 500 status || eqb status 429
    then err unavailable
    else if not (eqb status 200)
    then err unauthorized
    else elim body [
      | none ↦ err unauthorized
      | some p ↦
          if is_sound_profile p
          then ok (record { profile = p; owner_id = owner_id web cfg p.subject })
          else err unauthorized
    ]
