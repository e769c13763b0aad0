-- ===== src/Http/Server/Readiness.antt =====
-- Who is served by the protected endpoints, and when the service counts as ready.
use ocis_ftp_bridge.Prelude.{
  ℕ, ◌≡◌, ◌≢◌, refl, sym, ap, ◌∙◌, true, false, Bytes, List, [], ◌∷◌, ◌↔◌, ◌⊎◌, inl, inr, arith,
  Bool-cases,
}
use ocis_ftp_bridge.Prelude.Map.{Map}
use ocis_ftp_bridge.Http.Auth.{AuthConfig, Request, authenticate, IsCredential, authenticate_iff}
use ocis_ftp_bridge.Http.Health.{Outside}
use ocis_ftp_bridge.Http.Server.{
  OperationsServer, Response, Handler, cached_health_checks, report, unauthorized, middleware,
  serve_readiness, readyz,
}

-- The middleware lets a request pass: there is no authentication, or it has the credentials.
pub data Passes (c : AuthConfig) (r : Request) : Type 0 where
  open_to_all : c.enabled ≡ false → Passes c r
  credential : c.enabled ≡ true → IsCredential c r → Passes c r

pub middleware-Passes :
    (c : AuthConfig) (next : Handler) (r : Request) (s : OperationsServer)
    → Passes c r
    → middleware c next r s ≡ next r s
unfolding middleware
middleware-Passes c next r s (open_to_all off) = simp off
middleware-Passes c next r s (credential on right) = simp (on, (authenticate_iff c r).1 right)

pub middleware_stops :
    (c : AuthConfig) (next : Handler) (r : Request) (s : OperationsServer)
    → ¬ Passes c r
    → middleware c next r s ≡ (unauthorized, s)
unfolding middleware
middleware_stops c next r s stopped = elim (Bool-cases c.enabled) [
  | inr off ↦ absurd (stopped (open_to_all off))
  | inl on ↦ elim (Bool-cases (authenticate c r)) [
    | inl right ↦ absurd (stopped (credential on ((authenticate_iff c r).0 right)))
    | inr wrong ↦ simp (on, wrong)
  ]
]

report-status :
    (timestamp : Bytes) (checks : Map Bytes Bytes) (failed : List Bytes)
    → ((report timestamp checks failed).status ≡ 200) ↔ (failed ≡ [])
unfolding report
report-status timestamp checks [] = (λ h. refl, λ h. refl)
report-status timestamp checks (e ∷ failed) = (λ h. ground arith, λ h. cc)

Passes-cases : (c : AuthConfig) (r : Request) → Passes c r ⊎ (¬ Passes c r)
Passes-cases c r = elim (Bool-cases c.enabled) [
  | inr off ↦ inl (open_to_all off)
  | inl on ↦ elim (Bool-cases (authenticate c r)) [
    | inl right ↦ inl (credential on ((authenticate_iff c r).0 right))
    | inr wrong ↦ inr (λ p. stopped on wrong p)
  ]
]
  where
    stopped : c.enabled ≡ true → authenticate c r ≡ false → Passes c r → ⊥
    stopped on wrong (open_to_all off) = cc
    stopped on wrong (credential h right) = ground (arith, (authenticate_iff c r).1 right)

unauthorized-status : unauthorized.status ≢ 200
unfolding unauthorized
unauthorized-status h = ground arith

serve_readiness-status :
    (o : Outside) (now after : ℕ) (timestamp : Bytes) (r : Request) (s : OperationsServer)
    → ((serve_readiness o now after timestamp r s).0.status ≡ 200)
      ↔ ((s.ready ≡ true) × ((cached_health_checks o now after s).0.1 ≡ []))
unfolding serve_readiness
serve_readiness-status o now after timestamp r s = elim (Bool-cases s.ready) [
  | inr off ↦
      let refused : (serve_readiness o now after timestamp r s).0.status ≡ 503 = simp off in
      (λ h. absurd (omega arith), λ h. cc)
  | inl on ↦
      let found = (cached_health_checks o now after s).0 in
      let answer : (serve_readiness o now after timestamp r s).0
          ≡ report timestamp found.0 found.1 =
        simp on in
      let (to, from) = report-status timestamp found.0 found.1 in
      (
        λ h. (on, to (sym (ap (λ (a : Response). a.status) answer) ∙ h)),
        λ h. ap (λ (a : Response). a.status) answer ∙ from h.1,
      )
]

-- /readyz answers 200 if and only if the request passes the authentication, the service is not
-- switched to unready, and the round that `cachedHealthChecks` gives has no failure.
pub readyz-status :
    (o : Outside) (now after : ℕ) (timestamp : Bytes) (r : Request) (s : OperationsServer)
    → ((readyz o now after timestamp r s).0.status ≡ 200)
      ↔ (Passes s.auth r × (s.ready ≡ true) × ((cached_health_checks o now after s).0.1 ≡ []))
unfolding readyz
readyz-status o now after timestamp r s = elim (Passes-cases s.auth r) [
  | inr stopped ↦
      let answer = middleware_stops s.auth (serve_readiness o now after timestamp) r s stopped in
      (
        λ h. absurd (unauthorized-status (sym (ap (λ a. a.0.status) answer) ∙ h)),
        λ h. absurd (stopped h.0),
      )
  | inl passes ↦
      let answer = middleware-Passes s.auth (serve_readiness o now after timestamp) r s passes in
      let (to, from) = serve_readiness-status o now after timestamp r s in
      (
        λ h. let (on, passed) = to (sym (ap (λ a. a.0.status) answer) ∙ h) in (passes, on, passed),
        λ h. ap (λ a. a.0.status) answer ∙ from (h.1, h.2),
      )
]
