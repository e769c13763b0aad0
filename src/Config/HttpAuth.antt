-- ===== src/Config/HttpAuth.antt =====
-- The authentication of the operations endpoints that a validated configuration asks for.
use ocis_ftp_bridge.Prelude.{
  ◌≡◌, sym, ap, subst, ◌∙◌, true, false, false≢true, ◌||◌, Option-cases, codes, same, same→eq, [],
  ok, ok-injective, >>=-eq-ok, refuse-eq-ok, Bool-cases, inl, inr, arith,
}
use ocis_ftp_bridge.Go.Spaces.{is_blank}
use ocis_ftp_bridge.Config.Types.{
  Config, ConfigError, HttpAuthConfig, http_username_required, no_accounts,
}
use ocis_ftp_bridge.Config.Addresses.{validate_ocis}
use ocis_ftp_bridge.Config.Validation.{
  Environment, env_value, check_basic_auth, check_bearer_auth, validate_http, validate_server,
  validate_with_env, validate_spool, validate_accounts, same_nil,
}

-- Basic authentication, or a bearer token that is not blank.
pub data IsArmed (auth : HttpAuthConfig) : Type 0 where
  by_password : auth.method ≡ codes "basic" → IsArmed auth
  by_token : auth.method ≡ codes "bearer" → is_blank auth.bearer_token ≡ false → IsArmed auth

check_basic_auth-method :
    (auth auth' : HttpAuthConfig) → check_basic_auth auth ≡ ok auth' → auth'.method ≡ auth.method
unfolding check_basic_auth
check_basic_auth-method auth auth' h =
    let (named, h1) = refuse-eq-ok (is_blank auth.username) http_username_required _ h in
    elim (Bool-cases (is_blank auth.password)) [
      | inl b ↦ ground (arith, b)
      | inr b ↦ ground (arith, b)
    ]

check_bearer_auth-token :
    (env : Environment) (auth auth' : HttpAuthConfig)
    → check_bearer_auth env auth ≡ ok auth'
    → (auth'.method ≡ auth.method) × (is_blank auth'.bearer_token ≡ false)
unfolding check_bearer_auth env_value
check_bearer_auth-token env auth auth' h = elim (Bool-cases (is_blank auth.bearer_token_env)) [
  | inl unset ↦ ground (arith, unset)
  | inr set ↦ elim (Option-cases (env.lookup_env auth.bearer_token_env)) [
    | inl missing ↦ ground (arith, set, missing)
    | inr (value, given) ↦ ground (arith, set, given)
  ]
]

validate_http-IsArmed :
    (env : Environment) (auth auth' : HttpAuthConfig)
    → validate_http env auth ≡ ok auth'
    → auth'.enabled ≡ true
    → IsArmed auth'
unfolding validate_http
validate_http-IsArmed env auth auth' h on = elim (Bool-cases auth.enabled) [
  | inr off ↦
      let same_one : auth ≡ auth' = ok-injective {E = ConfigError} (ground (arith, off)) in
      absurd (false≢true (sym off ∙ ap (λ (a : HttpAuthConfig). a.enabled) same_one ∙ on))
  | inl enabled ↦ elim (Bool-cases (same auth.method (codes "basic"))) [
    | inl is_basic ↦
        let passed : check_basic_auth auth ≡ ok auth' = ground (arith, enabled, is_basic) in
        by_password
          (check_basic_auth-method auth auth' passed ∙ same→eq auth.method (codes "basic") is_basic)
    | inr no_basic ↦ elim (Bool-cases (same auth.method (codes "bearer"))) [
      | inl is_bearer ↦
          let passed : check_bearer_auth env auth ≡ ok auth' =
            ground (arith, enabled, no_basic, is_bearer) in
          let (kept, token) = check_bearer_auth-token env auth auth' passed in
          by_token (kept ∙ same→eq auth.method (codes "bearer") is_bearer) token
      | inr no_bearer ↦ elim (Bool-cases (same auth.method (codes "none") || same auth.method [])) [
        | inl is_none ↦ ground (arith, enabled, no_basic, no_bearer, is_none)
        | inr other ↦ ground (arith, enabled, no_basic, no_bearer, other)
      ]
    ]
  ]
]

-- A validated configuration whose operations endpoints are protected.
pub validate_with_env-IsArmed :
    (env : Environment) (c c' : Config)
    → validate_with_env env c ≡ ok c'
    → c'.http.auth.enabled ≡ true
    → IsArmed c'.http.auth
unfolding validate_with_env
validate_with_env-IsArmed env c c' h on =
    let (served, s1, h1) = >>=-eq-ok (validate_server env c.server) _ h in
    let (ocis, s2, h2) = >>=-eq-ok (validate_ocis env.parse_url c.ocis) _ h1 in
    let (auth, s3, h3) = >>=-eq-ok (validate_http env c.http.auth) _ h2 in
    let (spool, sized, h4) = >>=-eq-ok (validate_spool c.spool) _ h3 in
    let (some_account, h5) = refuse-eq-ok (same_nil c.accounts) no_accounts _ h4 in
    let (accounts, checked, h6) = >>=-eq-ok (validate_accounts env [] c.accounts) _ h5 in
    let is : auth ≡ c'.http.auth =
      ap (λ (x : Config). x.http.auth) (ok-injective {E = ConfigError} h6) in
    subst IsArmed is (
      validate_http-IsArmed env c.http.auth auth s3
        (ap (λ (a : HttpAuthConfig). a.enabled) is ∙ on))
