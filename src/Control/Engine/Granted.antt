-- ===== src/Control/Engine/Granted.antt =====
-- Who is admitted with what, by `Submit` of control/engine.go.
use vector_transfer.Base.{
  String, ◌≡◌, refl, sym, ap, ◌∙◌, Bool, true, false, not, ◌&&◌, List, [], ◌∷◌, arith, ◌==◌, ltb,
  if◌then◌else◌, ◌!=◌, byte_length, ==_sound,
}
use vector_transfer.Base.Result.{forbidden, message, Result, ok, err, ◌>>=◌}
use vector_transfer.Control.Job.{Spec, Owner}
use vector_transfer.Control.Engine.{Engine, connection, may_read, may_write}
use vector_transfer.Control.Engine.Submit.{
  Route, may_submit, normalize, worker_route, hosted_route, admit, head_owner,
}
use vector_transfer.Control.Engine.Admission.{normalize-IsNormal, bound_ok}

module _ (e : Engine) (spec : Spec) (key : String) (normal : Spec) (route : Route) where
  limits : Spec → List Owner → Result (Spec × Route)
  limits n owners =
      if ltb 128 (byte_length key)
      then err (message "idempotency key must not exceed 128 bytes")
      else (if n.worker_id != ""
          then worker_route e.workers n (head_owner owners)
          else hosted_route e n)
        >>= λ r. ok (n, r)

  admit_shape :
      (owners : List Owner)
      → admit e spec key owners ≡ ok (normal, route)
      → (may_submit e spec owners ≡ true)
        × ((normalize spec >>= λ n. limits n owners) ≡ ok (normal, route))
  unfolding admit limits
  admit_shape owners h =
      by_tests (may_submit e spec owners) (e.hosted_disabled && spec.worker_id == "") h
    where
      by_tests :
          (may off : Bool)
          → (if not may
              then err forbidden
              else if off
              then err (message "hosted execution is disabled; select a customer worker")
              else normalize spec >>= λ n. limits n owners)
            ≡ ok (normal, route)
          → (may ≡ true) × ((normalize spec >>= λ n. limits n owners) ≡ ok (normal, route))
      by_tests false off g = cc
      by_tests true true g = cc
      by_tests true false g = (refl, g)

  bind_route : Spec → Result Route → Result (Spec × Route)
  bind_route n r = r >>= λ x. ok (n, x)

  limits_shape :
      (n : Spec) (owners : List Owner)
      → (n.worker_id == "") ≡ true
      → limits n owners ≡ ok (normal, route)
      → (n ≡ normal) × (hosted_route e n ≡ ok route)
  unfolding limits bind_route
  limits_shape n owners hosted h = by_route (hosted_route e n) (ground (arith, hosted, h))
    where
      by_route :
          (r : Result Route) → bind_route n r ≡ ok (normal, route) → (n ≡ normal) × (r ≡ ok route)
      by_route (ok x) g = ground (arith, g)
      by_route (err f) g = cc

  owner_shape :
      (owners : List Owner)
      → (e.account_realm == "") ≡ false
      → (spec.worker_id == "") ≡ true
      → may_submit e spec owners ≡ true
      → (o : Owner) × (owners ≡ o ∷ [])
        × (o.realm ≡ e.account_realm)
        × (may_read (connection e spec.source) o.subject ≡ true)
        × (may_write (connection e spec.sink) o.subject ≡ true)
  unfolding may_submit
  owner_shape [] account hosted h = cc
  owner_shape (o ∷ []) account hosted h =
      let parts : ((o.realm == e.account_realm) ≡ true)
          × (may_read (connection e spec.source) o.subject ≡ true)
          × (may_write (connection e spec.sink) o.subject ≡ true) =
        ground (arith, account, hosted, h) in
      (o, refl, ==_sound o.realm e.account_realm parts.0, parts.1, parts.2)
  owner_shape (o ∷ p ∷ rest) account hosted h = cc

  -- In an engine with accounts, Submit admits a job without a worker only for a single owner, of the
  -- engine's realm, who may read the job's source and write its sink; the job's spec is the normalized
  -- one, and it goes where the engine's own connections lead.
  pub admitted_granted :
      (owners : List Owner)
      → (e.account_realm == "") ≡ false
      → (spec.worker_id == "") ≡ true
      → admit e spec key owners ≡ ok (normal, route)
      → ((o : Owner) × (owners ≡ o ∷ [])
          × (o.realm ≡ e.account_realm)
          × (may_read (connection e spec.source) o.subject ≡ true)
          × (may_write (connection e spec.sink) o.subject ≡ true))
        × (normalize spec ≡ ok normal)
        × (hosted_route e normal ≡ ok route)
  admitted_granted owners account hosted h =
      let (may, rest) = admit_shape owners h in
      let (n, normalized, limited) =
        bound_ok (normalize spec) (λ x. limits x owners) (normal, route) rest in
      let same_worker = (normalize-IsNormal spec n normalized).6 in
      let (same, routed) = limits_shape n owners (ap (λ w. w == "") same_worker ∙ hosted) limited in
      (
        owner_shape owners account hosted may,
        normalized ∙ ap ok same,
        ap (λ x. hosted_route e x) (sym same) ∙ routed,
      )
