-- ===== src/Http/Health/Failed.antt =====
-- When a round of the health checks of pkg/http has no failure.
use ocis_ftp_bridge.Prelude.{
  ℕ, ◌≡◌, ◌≢◌, refl, sym, ap, ◌∙◌, false≢true, Option, none, some, Option-cases, Bytes, codes, same,
  same→eq, eq→same, List, [], ◌∷◌, ◌++◌, ◌↔◌, ◌⊎◌, inl, inr, arith, Bool-cases,
}
use ocis_ftp_bridge.Http.Health.{
  HealthCheckConfig, Answer, not_made, not_sent, answered, StatAnswer, missing, no_access, a_file,
  a_directory, Outside, Round, sent_by, ocis_request, webdav_request, judge_ocis, judge_webdav,
  judge_spool, check_ocis_connectivity, check_webdav_connectivity, check_spool_directory, add_check,
  perform_health_checks,
}

-- oCIS answers the status request with 200.
abbrev pub HasOcis : Outside → HealthCheckConfig → Type 0
HasOcis o c = (text : Bytes) × (o.send (ocis_request c) ≡ answered 200 text)

-- The statuses of a WebDAV endpoint that is there.
abbrev IsPresent : ℕ → Type 0
IsPresent code = (code ≡ 200) ⊎ ((code ≡ 207) ⊎ ((code ≡ 401) ⊎ (code ≡ 403)))

abbrev pub HasWebdav : Outside → HealthCheckConfig → Type 0
HasWebdav o c =
    (code : ℕ) × (text : Bytes) × (o.send (webdav_request c) ≡ answered code text) × IsPresent code

-- The spool directory is configured, is a directory, and takes a file.
abbrev pub HasSpool : Outside → HealthCheckConfig → Type 0
HasSpool o c =
    (c.spool_directory ≢ [])
    × (o.stat c.spool_directory ≡ a_directory)
    × (o.write c.spool_directory ≡ none)

pub judge_ocis_iff :
    (a : Answer) → (judge_ocis a ≡ none) ↔ ((text : Bytes) × (a ≡ answered 200 text))
unfolding judge_ocis
judge_ocis_iff (not_made e) = (λ h. cc, λ h. cc)
judge_ocis_iff (not_sent e) = (λ h. cc, λ h. cc)
judge_ocis_iff (answered code text) = (
  λ h. let is : code ≡ 200 = ground arith in (text, ap (λ k. answered k text) is),
  λ h. let (other, is) = h in ground arith,
)

pub judge_webdav_iff :
    (a : Answer)
    → (judge_webdav a ≡ none)
      ↔ ((code : ℕ) × (text : Bytes) × (a ≡ answered code text) × IsPresent code)
unfolding judge_webdav
judge_webdav_iff (not_made e) = (λ h. cc, λ h. let (code, text, is, present) = h in cc)
judge_webdav_iff (not_sent e) = (λ h. cc, λ h. let (code, text, is, present) = h in cc)
judge_webdav_iff (answered code text) = (
  λ h. (code, text, refl, ground arith),
  λ h. let (other, given, is, present) = h in ground arith,
)

judge_spool_iff :
    (o : Outside) (dir : Bytes) (a : StatAnswer)
    → (judge_spool o dir a ≡ none) ↔ ((a ≡ a_directory) × (o.write dir ≡ none))
unfolding judge_spool
judge_spool_iff o dir missing = (λ h. cc, λ h. let (is, written) = h in cc)
judge_spool_iff o dir (no_access e) = (λ h. cc, λ h. let (is, written) = h in cc)
judge_spool_iff o dir a_file = (λ h. cc, λ h. let (is, written) = h in cc)
judge_spool_iff o dir a_directory = elim (Option-cases (o.write dir)) [
  | inl written ↦ (λ h. (refl, written), λ h. ground (arith, written))
  | inr (e, failed) ↦
      (λ h. ground (arith, failed), λ h. let (is, written) = h in ground (arith, failed, written))
]

pub check_spool_directory_iff :
    (o : Outside) (c : HealthCheckConfig) → (check_spool_directory o c ≡ none) ↔ HasSpool o c
unfolding check_spool_directory
check_spool_directory_iff o c =
    let dir = c.spool_directory in
    let (to, from) = judge_spool_iff o dir (o.stat dir) in
    elim (Bool-cases (same dir [])) [
      | inl unset ↦ (λ h. ground (arith, unset), λ h. absurd (h.0 (same→eq dir [] unset)))
      | inr set ↦ (
        λ h.
            let (is, written) = to (ground (arith, set)) in
            (λ q. false≢true (sym set ∙ eq→same dir [] q), is, written),
        λ h.
            let (named, is, written) = h in
            let passed = from (is, written) in ground (arith, set, passed),
      )
    ]

append_one : (xs : List Bytes) (x : Bytes) → xs ++ x ∷ [] ≡ [] → ⊥
append_one [] x h = cc
append_one (y ∷ xs) x h = cc

add_check-failed :
    (name text : Bytes) (found : Option Bytes) (r : Round)
    → ((add_check name text found r).failed ≡ []) ↔ ((r.failed ≡ []) × (found ≡ none))
unfolding add_check
add_check-failed name text none r = (λ h. (h, refl), λ h. h.0)
add_check-failed name text (some e) r =
    (λ h. absurd (append_one r.failed _ h), λ h. let (before, found) = h in cc)

three_checks-failed :
    (n1 t1 n2 t2 n3 t3 : Bytes) (a b c : Option Bytes) (r : Round)
    → r.failed ≡ []
    → ((add_check n3 t3 c (add_check n2 t2 b (add_check n1 t1 a r))).failed ≡ [])
      ↔ ((a ≡ none) × (b ≡ none) × (c ≡ none))
three_checks-failed n1 t1 n2 t2 n3 t3 a b c r start =
    let r1 = add_check n1 t1 a r in
    let r2 = add_check n2 t2 b r1 in
    let (to3, from3) = add_check-failed n3 t3 c r2 in
    let (to2, from2) = add_check-failed n2 t2 b r1 in
    let (to1, from1) = add_check-failed n1 t1 a r in
    (
      λ h. let (h2, third) = to3 h in let (h1, second) = to2 h2 in ((to1 h1).1, second, third),
      λ h. from3 (from2 (from1 (start, h.0), h.1), h.2),
    )

pub perform_health_checks-failed :
    (o : Outside) (c : HealthCheckConfig)
    → ((perform_health_checks o c).failed ≡ []) ↔ (
        (check_ocis_connectivity o c ≡ none)
        × (check_webdav_connectivity o c ≡ none)
        × (check_spool_directory o c ≡ none))
unfolding perform_health_checks
perform_health_checks-failed o c =
    three_checks-failed (codes "ocis_connectivity") (codes "oCIS connectivity")
      (codes "webdav_connectivity") (codes "WebDAV connectivity") (codes "spool_directory")
      (codes "spool directory") _ _ _
      (record {
        checks = [];
        failed = [];
        sent =
            sent_by (ocis_request c) (o.send (ocis_request c))
            ++ sent_by (webdav_request c) (o.send (webdav_request c));
        logged = [];
      })
      refl
