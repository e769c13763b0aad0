-- ===== src/Server/Protected.antt =====
-- The operations endpoints of a service that `New` made.
use ocis_ftp_bridge.Prelude.{
  ℕ, ◌≡◌, ◌≢◌, refl, sym, ap, subst, ◌∙◌, true, false, false≢true, not, none, some, Option-cases,
  Bytes, codes, same, eq→same, [], ◌++◌, Result, ok, err, ok-injective, >>=-eq-ok, refuse-eq-ok,
  ◌↔◌, Bool-cases, inl, inr, arith,
}
use ocis_ftp_bridge.Go.Spaces.{is_blank, trim_space}
use ocis_ftp_bridge.Go.Strings.{trim_left, trim_right}
use ocis_ftp_bridge.Go.Utf8.{runes, runes_from, write_runes}
use ocis_ftp_bridge.Config.Types.{Config, HttpAuthConfig}
use ocis_ftp_bridge.Config.Certificates.{validate_tls_config}
use ocis_ftp_bridge.Config.Validation.{validate_with_env}
use ocis_ftp_bridge.Config.HttpAuth.{IsArmed, by_password, by_token, validate_with_env-IsArmed}
use ocis_ftp_bridge.Spool.Files.{Disk, Manager}
use ocis_ftp_bridge.Webdav.Types.{Transport}
use ocis_ftp_bridge.Http.Auth.{AuthConfig, Request, IsCredential, password, token, bearer_prefix}
use ocis_ftp_bridge.Http.Health.{Outside}
use ocis_ftp_bridge.Http.Server.{new_operations_server, readyz}
use ocis_ftp_bridge.Http.Server.Readiness.{Passes, open_to_all, credential}
use ocis_ftp_bridge.Http.Server.Ready.{IsPassing, readyz_iff}
use ocis_ftp_bridge.Ftp.Driver.{RateLimits}
use ocis_ftp_bridge.Server.{
  ServerError, invalid_config, invalid_certificate, observability_failed, Host, Service, wrapped,
  initialize_spool, generate_auth_password, with_password, auth_of, checked_config, assembled,
  after_spool, after_check, new_service,
}

wrapped-ok {ℓ} :
    {E : Type 0} {A : Type ℓ} (w : E → ServerError) (r : Result E A) {a : A}
    → wrapped w r ≡ ok a
    → r ≡ ok a
wrapped-ok w (err e) h = cc
wrapped-ok w (ok a) h = ap ok (ok-injective {E = ServerError} h)

-- Some request has the credentials.
abbrev pub CanPass : AuthConfig → Type 0
CanPass c = (q : Request) × IsCredential c q

auth_of-enabled : (auth : HttpAuthConfig) → (auth_of auth).enabled ≡ true → auth.enabled ≡ true
unfolding auth_of
auth_of-enabled auth on = on

not_blank : (s : Bytes) → is_blank s ≡ false → s ≢ []
unfolding trim_space trim_left trim_right runes runes_from write_runes
not_blank s h e =
    let blank : is_blank [] ≡ true = refl in false≢true (sym h ∙ ap is_blank e ∙ blank)

not_empty : (s : Bytes) → same s [] ≡ false → s ≢ []
not_empty s h e = false≢true (sym h ∙ eq→same s [] e)

password_passes :
    (auth : HttpAuthConfig)
    → auth.method ≡ codes "basic"
    → auth.password ≢ []
    → CanPass (auth_of auth)
unfolding auth_of
password_passes auth method filled = (
  record { basic_auth = some (auth.username, auth.password); authorization = [] },
  password (rw method refl) filled refl,
)

token_passes :
    (auth : HttpAuthConfig)
    → auth.method ≡ codes "bearer"
    → auth.bearer_token ≢ []
    → CanPass (auth_of auth)
unfolding auth_of
token_passes auth method filled = (
  record { basic_auth = none; authorization = bearer_prefix ++ auth.bearer_token },
  token (rw method refl) filled refl,
)

module _ (h : Host) (filled : (b : Bytes) → h.random ≡ some b → h.encode b ≢ []) where
  generate_auth_password-filled : (g : Bytes) → generate_auth_password h ≡ ok g → g ≢ []
  unfolding generate_auth_password
  generate_auth_password-filled g drawn = elim (Option-cases h.random) [
    | inl nothing ↦ ground (arith, nothing)
    | inr (b, given) ↦
        let is : h.encode b ≡ g = ok-injective {E = ServerError} (ground (arith, given)) in
        subst (λ (x : Bytes). x ≢ []) is (filled b given)
  ]

  with_password-CanPass :
      (auth auth' : HttpAuthConfig)
      → (auth.enabled ≡ true → IsArmed auth)
      → with_password h auth ≡ ok auth'
      → auth'.enabled ≡ true
      → CanPass (auth_of auth')
  unfolding with_password generate_auth_password
  with_password-CanPass auth auth' armed made on = elim (Bool-cases auth.enabled) [
    | inr off ↦
        let kept : auth ≡ auth' = ok-injective {E = ServerError} (ground (arith, off)) in
        absurd (false≢true (sym off ∙ ap (λ (a : HttpAuthConfig). a.enabled) kept ∙ on))
    | inl enabled ↦ elim (armed enabled) [
      | by_token method some_token ↦
          let no_basic : same auth.method (codes "basic") ≡ false =
            ap (λ x. same x (codes "basic")) method in
          let kept : auth ≡ auth' = ok-injective {E = ServerError} (ground (arith, no_basic)) in
          subst (λ (a : HttpAuthConfig). CanPass (auth_of a)) kept
            (token_passes auth method (not_blank auth.bearer_token some_token))
      | by_password method ↦ elim (Bool-cases (same auth.password [])) [
        | inr given ↦
            let kept : auth ≡ auth' = ok-injective {E = ServerError} (ground (arith, given)) in
            subst (λ (a : HttpAuthConfig). CanPass (auth_of a)) kept
              (password_passes auth method (not_empty auth.password given))
        | inl empty ↦
            let is_basic : same auth.method (codes "basic") ≡ true =
              eq→same auth.method (codes "basic") method in
            let with_it : Bytes → Result ServerError HttpAuthConfig =
              λ g. ok (record auth { password = g }) in
            let (made_up, drawn, kept) =
              >>=-eq-ok (generate_auth_password h) with_it {b = auth'}
                (ground (arith, enabled, is_basic, empty)) in
            subst (λ (a : HttpAuthConfig). CanPass (auth_of a))
              (ok-injective {E = ServerError} kept)
              (password_passes (record auth { password = made_up }) method
                (generate_auth_password-filled made_up drawn))
      ]
    ]
  ]

Passes-IsCredential :
    (c : AuthConfig) (r : Request) → c.enabled ≡ true → Passes c r → IsCredential c r
Passes-IsCredential c r on (open_to_all off) = absurd (false≢true (sym off ∙ on))
Passes-IsCredential c r on (credential enabled given) = given

module _ {S : Type 0} (t : Transport S) (limits : RateLimits) (h : Host) where
  assembled-ok :
      (cfg : Config) (m : Manager) (svc : Service S)
      → assembled t limits h cfg m ≡ ok svc
      → (auth : HttpAuthConfig) × (with_password h cfg.http.auth ≡ ok auth)
        × (svc.http_server.auth ≡ auth_of auth)
        × (svc.http_server.ready ≡ true)
  unfolding assembled new_operations_server
  assembled-ok cfg m svc made =
      let (observed, h1) = refuse-eq-ok (not h.observes) observability_failed _ made in
      let (auth, armed, h2) = >>=-eq-ok (with_password h cfg.http.auth) _ h1 in
      let is = sym (ok-injective {E = ServerError} h2) in
      (
        auth,
        armed,
        ap (λ (s : Service S). s.http_server.auth) is,
        ap (λ (s : Service S). s.http_server.ready) is,
      )

  after_spool-ok :
      (cfg : Config) (r : Result ServerError Manager × Disk) (svc : Service S) (disk : Disk)
      → after_spool t limits h cfg r ≡ (ok svc, disk)
      → (m : Manager) × (assembled t limits h cfg m ≡ ok svc)
  after_spool-ok cfg (err e, left) svc disk made = cc
  after_spool-ok cfg (ok m, left) svc disk made = (m, ap (λ x. x.0) made)

  after_check-ok :
      (c : Result ServerError Config) (svc : Service S) (disk disk' : Disk)
      → after_check t limits h disk c ≡ (ok svc, disk')
      → (cfg : Config) × (c ≡ ok cfg) × (m : Manager) × (assembled t limits h cfg m ≡ ok svc)
  after_check-ok (err e) svc disk disk' made = cc
  after_check-ok (ok cfg) svc disk disk' made =
      let (m, put_together) = after_spool-ok cfg (initialize_spool h cfg disk) svc disk' made in
      (cfg, refl, m, put_together)

  checked_config-IsArmed :
      (cfg valid : Config)
      → checked_config h cfg ≡ ok valid
      → valid.http.auth.enabled ≡ true
      → IsArmed valid.http.auth
  unfolding checked_config
  checked_config-IsArmed cfg valid made on =
      let (kept, is_valid, h1) =
        >>=-eq-ok (wrapped invalid_config (validate_with_env h.environment cfg)) _ made in
      let (done, trusted, h2) =
        >>=-eq-ok
          (wrapped invalid_certificate (validate_tls_config h.certificates h.now kept.server.tls)) _
          h1 in
      let same_one : kept ≡ valid = ok-injective {E = ServerError} h2 in
      subst (λ (c : Config). c.http.auth.enabled ≡ true → IsArmed c.http.auth) same_one
        (validate_with_env-IsArmed h.environment cfg kept (wrapped-ok invalid_config _ is_valid)) on

  -- A started service whose operations endpoints have authentication enabled can be asked: some
  -- credentials pass. Its readiness endpoint answers 200 exactly to a request with the credentials,
  -- and only while every check passes: a round that ended less than five seconds ago had no failure,
  -- or none ended so recently and oCIS, its WebDAV endpoint and the spool directory are there now.
  -- Generated passwords are taken to be non-empty.
  pub new_service-Protected :
      (filled : (b : Bytes) → h.random ≡ some b → h.encode b ≢ []) (o : Outside) (now after : ℕ)
      (timestamp : Bytes) (r : Request) (cfg : Config) (disk disk' : Disk) (svc : Service S)
      → new_service t limits h cfg disk ≡ (ok svc, disk')
      → svc.http_server.auth.enabled ≡ true
      → CanPass svc.http_server.auth
        × (((readyz o now after timestamp r svc.http_server).0.status ≡ 200)
            ↔ (IsCredential svc.http_server.auth r × IsPassing o now svc.http_server))
  unfolding new_service
  new_service-Protected filled o now after timestamp r cfg disk disk' svc made on =
      let (valid, checked, m, put_together) =
        after_check-ok (checked_config h cfg) svc disk disk' made in
      let (auth, armed, is, is_ready) = assembled-ok valid m svc put_together in
      let is_on : (auth_of auth).enabled ≡ true =
        subst (λ (a : AuthConfig). a.enabled ≡ true) is on in
      let (to, from) = readyz_iff o now after timestamp r svc.http_server in
      (
        subst CanPass (sym is) (
            with_password-CanPass h filled valid.http.auth auth
              (checked_config-IsArmed cfg valid checked) armed (auth_of-enabled auth is_on)),
        (
          λ answered.
              let (passes, ready, passed) = to answered in
              (Passes-IsCredential svc.http_server.auth r on passes, passed),
          λ given. from (credential on given.0, is_ready, given.1),
        ),
      )
