-- ===== src/Http/Server/Ready.antt =====
-- When the readiness endpoint answers that the service is ready.
use ocis_ftp_bridge.Prelude.{
  ℕ, ◌-◌, ◌≤◌, ◌<◌, ltb, ◌≡◌, refl, sym, ◌∙◌, true, false, Option, none, some, Option-cases, Bytes,
  [], ◌↔◌, inl, inr, arith, Bool-cases,
}
use ocis_ftp_bridge.Http.Auth.{Request}
use ocis_ftp_bridge.Http.Health.{
  Outside, ocis_request, webdav_request, check_ocis_connectivity, check_webdav_connectivity,
  perform_health_checks,
}
use ocis_ftp_bridge.Http.Server.{
  OperationsServer, is_fresh, checked, cached_health_checks, health_check_cache_ttl, readyz,
}
use ocis_ftp_bridge.Http.Server.Readiness.{Passes, readyz-status}
use ocis_ftp_bridge.Http.Health.Failed.{
  HasOcis, HasWebdav, HasSpool, judge_ocis_iff, judge_webdav_iff, check_spool_directory_iff,
  perform_health_checks-failed,
}

-- The last round of checks is younger than five seconds and had no failure, or there is none so young
-- and oCIS, WebDAV and the spool directory are there now.
pub data IsPassing (o : Outside) (now : ℕ) (s : OperationsServer) : Type 0 where
  remembered :
      (at : ℕ)
      → s.health_cached_at ≡ some at
      → now - at < 5000000000
      → s.health_failed ≡ []
      → IsPassing o now s
  renewed :
      ((at : ℕ) → s.health_cached_at ≡ some at → 5000000000 ≤ now - at)
      → HasOcis o s.config
      → HasWebdav o s.config
      → HasSpool o s.config
      → IsPassing o now s

too_young : (n : ℕ) → 5000000000 ≤ n → n < 5000000000 → ⊥
too_young n h k = omega arith

-- No young round is remembered, so the checks were renewed.
renewed_parts :
    (o : Outside) (now : ℕ) (s : OperationsServer)
    → ((at : ℕ) → s.health_cached_at ≡ some at → 5000000000 ≤ now - at)
    → IsPassing o now s
    → HasOcis o s.config × HasWebdav o s.config × HasSpool o s.config
renewed_parts o now s old (remembered at ended young fine) =
    absurd (too_young (now - at) (old at ended) young)
renewed_parts o now s old (renewed older first second third) = (first, second, third)

kept :
    (o : Outside) (now at : ℕ) (s : OperationsServer)
    → s.health_cached_at ≡ some at
    → now - at < 5000000000
    → IsPassing o now s
    → s.health_failed ≡ []
kept o now at s ended young (remembered other there near fine) = fine
kept o now at s ended young (renewed old first second third) =
    absurd (too_young (now - at) (old at ended) young)

none_at : (at : ℕ) → ◌≡◌ {A = Option ℕ} none (some at) → ⊥
none_at at h = cc

renewed_result :
    (o : Outside) (now after : ℕ) (s : OperationsServer)
    → is_fresh s.health_cached_at now ≡ false
    → (cached_health_checks o now after s).0.1 ≡ (perform_health_checks o s.config).failed
unfolding cached_health_checks checked
renewed_result o now after s stale = rw stale refl

remembered_result :
    (o : Outside) (now after : ℕ) (s : OperationsServer)
    → is_fresh s.health_cached_at now ≡ true
    → (cached_health_checks o now after s).0.1 ≡ s.health_failed
unfolding cached_health_checks
remembered_result o now after s fresh = rw fresh refl

renewed_iff :
    (o : Outside) (now after : ℕ) (s : OperationsServer)
    → is_fresh s.health_cached_at now ≡ false
    → ((at : ℕ) → s.health_cached_at ≡ some at → 5000000000 ≤ now - at)
    → ((cached_health_checks o now after s).0.1 ≡ []) ↔ IsPassing o now s
unfolding check_ocis_connectivity check_webdav_connectivity
renewed_iff o now after s stale old =
    let is = renewed_result o now after s stale in
    let (to, from) = perform_health_checks-failed o s.config in
    let (to_ocis, from_ocis) = judge_ocis_iff (o.send (ocis_request s.config)) in
    let (to_webdav, from_webdav) = judge_webdav_iff (o.send (webdav_request s.config)) in
    let (to_spool, from_spool) = check_spool_directory_iff o s.config in
    (
      λ h.
          let (first, second, third) = to (sym is ∙ h) in
          renewed old (to_ocis first) (to_webdav second) (to_spool third),
      λ h.
          is
          ∙ from (
              let (first, second, third) = renewed_parts o now s old h in
              (from_ocis first, from_webdav second, from_spool third)),
    )

cached_health_checks_iff :
    (o : Outside) (now after : ℕ) (s : OperationsServer)
    → ((cached_health_checks o now after s).0.1 ≡ []) ↔ IsPassing o now s
unfolding is_fresh
cached_health_checks_iff o now after s = elim (Option-cases s.health_cached_at) [
  | inl never ↦
      renewed_iff o now after s (rw never refl) (λ at h. absurd (none_at at (sym never ∙ h)))
  | inr (at, ended) ↦ elim (Bool-cases (ltb (now - at) health_check_cache_ttl)) [
    | inr old ↦
        renewed_iff o now after s (rw ended old)
          (λ other h. let is : at ≡ other = ground (arith, ended, h) in ground (arith, old, is))
    | inl young ↦
        let fresh : is_fresh s.health_cached_at now ≡ true = rw ended young in
        let is = remembered_result o now after s fresh in
        let near : now - at < 5000000000 = ground (arith, young) in
        (λ h. remembered at ended near (sym is ∙ h), λ h. is ∙ kept o now at s ended near h)
  ]
]

-- `/readyz` answers 200 exactly if the request passes the authentication, the readiness is not
-- switched off, and either a round of checks ended less than five seconds ago and had no failure, or
-- none ended so recently and now oCIS answers with 200, its WebDAV endpoint with 200, 207, 401 or
-- 403, and the spool directory is a directory that takes a file.
pub readyz_iff :
    (o : Outside) (now after : ℕ) (timestamp : Bytes) (r : Request) (s : OperationsServer)
    → ((readyz o now after timestamp r s).0.status ≡ 200)
      ↔ (Passes s.auth r × (s.ready ≡ true) × IsPassing o now s)
readyz_iff o now after timestamp r s =
    let (to, from) = readyz-status o now after timestamp r s in
    let (passing, passed) = cached_health_checks_iff o now after s in
    (
      λ h. let (passes, ready, fine) = to h in (passes, ready, passing fine),
      λ h. from (h.0, h.1, passed h.2),
    )
