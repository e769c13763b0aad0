-- ===== src/Http/Server/CheckRate.antt =====
-- How often the readiness endpoint sends requests to oCIS.
use ocis_ftp_bridge.Prelude.{
  ℕ, ◌+◌, ◌-◌, ◌*◌, ◌≤◌, ◌<◌, ◌≡◌, refl, ap, true, false, ltb, Option, none, some, Bytes, List, [],
  ◌∷◌, ◌++◌, length, length-append, arith, Bool-cases, inl, inr,
}
use ocis_ftp_bridge.Http.Health.{
  HealthCheckConfig, CheckRequest, Answer, not_made, not_sent, answered, Outside, Round, add_check,
  sent_by, ocis_request, webdav_request, perform_health_checks,
}
use ocis_ftp_bridge.Http.Server.{
  OperationsServer, health_check_cache_ttl, is_fresh, checked, cached_health_checks,
}

-- One call of `cachedHealthChecks`.
pub record Call : Type 0 where
  pub outside : Outside
  pub now : ℕ
  pub after : ℕ

unfoldable pub after_calls : List Call → OperationsServer → OperationsServer
after_calls [] s = s
after_calls (c ∷ more) s = after_calls more (cached_health_checks c.outside c.now c.after s).1

-- The clock does not go back.
unfoldable pub Follows : ℕ → List Call → Type 0
Follows start [] = Unit
Follows start (c ∷ more) = (start ≤ c.now) × (c.now ≤ c.after) × Follows c.after more

unfoldable pub end_of : ℕ → List Call → ℕ
end_of start [] = start
end_of start (c ∷ more) = end_of c.after more

unfoldable pub IsPast : Option ℕ → ℕ → Type 0
IsPast none start = Unit
IsPast (some at) start = at ≤ start

add_check-sent :
    (name text : Bytes) (o : Option Bytes) (r : Round) → (add_check name text o r).sent ≡ r.sent
unfolding add_check
add_check-sent name text none r = refl
add_check-sent name text (some e) r = refl

sent_by-le : (r : CheckRequest) (a : Answer) → length (sent_by r a) ≤ 1
sent_by-le r (not_made e) = omega arith
sent_by-le r (not_sent e) = omega arith
sent_by-le r (answered code text) = omega arith

perform_health_checks-sent :
    (o : Outside) (c : HealthCheckConfig) → length (perform_health_checks o c).sent ≤ 2
unfolding perform_health_checks
perform_health_checks-sent o c =
    let requests =
      sent_by (ocis_request c) (o.send (ocis_request c))
      ++ sent_by (webdav_request c) (o.send (webdav_request c)) in
    let kept : (perform_health_checks o c).sent ≡ requests = simp add_check-sent in
    omega (
      arith,
      ap length kept,
      length-append {0} (sent_by (ocis_request c) (o.send (ocis_request c)))
          (sent_by (webdav_request c) (o.send (webdav_request c))),
      sent_by-le (ocis_request c) (o.send (ocis_request c)),
      sent_by-le (webdav_request c) (o.send (webdav_request c)),
    )

-- A call either leaves the state as it is, or the last round is as old as the time to live, and at
-- most two requests are sent.
served :
    (c : Call) (s : OperationsServer)
    → is_fresh s.health_cached_at c.now ≡ false
    → ((cached_health_checks c.outside c.now c.after s).1.health_cached_at ≡ some c.after)
      × (length (cached_health_checks c.outside c.now c.after s).1.sent ≤ length s.sent + 2)
unfolding cached_health_checks checked
served c s stale = (
  rw stale,
  rw stale (
      omega (
        arith,
        length-append {0} s.sent (perform_health_checks c.outside s.config).sent,
        perform_health_checks-sent c.outside s.config,
      )),
)

kept :
    (c : Call) (s : OperationsServer)
    → is_fresh s.health_cached_at c.now ≡ true
    → (cached_health_checks c.outside c.now c.after s).1 ≡ s
unfolding cached_health_checks
kept c s fresh = rw fresh

-- From the end of the last round on.
sent_since :
    (at start : ℕ) (calls : List Call) (s : OperationsServer)
    → s.health_cached_at ≡ some at
    → at ≤ start
    → Follows start calls
    → length (after_calls calls s).sent * health_check_cache_ttl + 2 * at
      ≤ length s.sent * health_check_cache_ttl + 2 * end_of start calls
unfolding after_calls Follows end_of is_fresh
sent_since at start [] s cached past f = omega arith
sent_since at start (c ∷ more) s cached past (begins, ends, f) =
    let s' = (cached_health_checks c.outside c.now c.after s).1 in
    elim (Bool-cases (ltb (c.now - at) health_check_cache_ttl)) [
      | inl fresh ↦
          let same = kept c s (rw cached fresh) in
          let rest = sent_since at c.after more s cached (omega arith) f in
          omega (arith, ap (λ t. length (after_calls more t).sent) same)
      | inr stale ↦
          let (new, few) = served c s (rw cached stale) in
          let old : health_check_cache_ttl ≤ c.now - at = ground arith in
          let rest = sent_since c.after c.after more s' new (omega arith) f in omega arith
    ]

-- After a call that sends.
sent_by_call :
    (start : ℕ) (c : Call) (more : List Call) (s : OperationsServer)
    → is_fresh s.health_cached_at c.now ≡ false
    → Follows start (c ∷ more)
    → length (after_calls (c ∷ more) s).sent * health_check_cache_ttl + 2 * start
      ≤ (length s.sent + 2) * health_check_cache_ttl + 2 * end_of start (c ∷ more)
unfolding after_calls Follows end_of
sent_by_call start c more s stale (begins, ends, f) =
    let s' = (cached_health_checks c.outside c.now c.after s).1 in
    let (new, few) = served c s stale in
    let rest = sent_since c.after c.after more s' new (omega arith) f in omega arith

rate_fresh :
    (start : ℕ) (c : Call) (more : List Call) (s : OperationsServer) (at : ℕ)
    → s.health_cached_at ≡ some at
    → at ≤ start
    → Follows start (c ∷ more)
    → ltb (c.now - at) health_check_cache_ttl ≡ true
    → length (after_calls (c ∷ more) s).sent * health_check_cache_ttl + 2 * start
      ≤ (length s.sent + 2) * health_check_cache_ttl + 2 * end_of start (c ∷ more)
unfolding Follows
rate_fresh start c more s at e past f fresh =
    let (begins, ends, follows) = f in
    let rest = sent_since at start (c ∷ more) s e past f in
    let recent : c.now < at + health_check_cache_ttl = ground arith in omega arith

rate_from :
    (start : ℕ) (c : Call) (more : List Call) (s : OperationsServer) (cached : Option ℕ)
    → s.health_cached_at ≡ cached
    → IsPast cached start
    → Follows start (c ∷ more)
    → length (after_calls (c ∷ more) s).sent * health_check_cache_ttl + 2 * start
      ≤ (length s.sent + 2) * health_check_cache_ttl + 2 * end_of start (c ∷ more)
unfolding IsPast is_fresh
rate_from start c more s none e past f = sent_by_call start c more s (rw e refl) f
rate_from start c more s (some at) e past f =
    elim (Bool-cases (ltb (c.now - at) health_check_cache_ttl)) [
      | inl fresh ↦ rate_fresh start c more s at e past f fresh
      | inr stale ↦ sent_by_call start c more s (rw e stale) f
    ]

-- Over any calls of `cachedHealthChecks` by a clock that does not go back, the checks send oCIS and
-- its WebDAV endpoint at most two requests for every five seconds that pass, and two more.
pub after_calls_rate :
    (start : ℕ) (calls : List Call) (s : OperationsServer)
    → IsPast s.health_cached_at start
    → Follows start calls
    → length (after_calls calls s).sent * health_check_cache_ttl + 2 * start
      ≤ (length s.sent + 2) * health_check_cache_ttl + 2 * end_of start calls
unfolding after_calls Follows end_of
after_calls_rate start [] s past f = omega arith
after_calls_rate start (c ∷ more) s past f = rate_from start c more s s.health_cached_at refl past f
