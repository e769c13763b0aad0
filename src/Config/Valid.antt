-- ===== src/Config/Valid.antt =====
-- What a configuration that passes the validation is like.
use ocis_ftp_bridge.Prelude.{
  ◌≤◌, ◌<◌, ◌≡◌, sym, ap, subst, ◌∙◌, true, false, inl, inr, Option-cases, Bytes, List, [], ◌∷◌,
  All, ok, Result-cases, arith, >>=-eq-ok, refuse-eq-ok, ok-injective,
}
use ocis_ftp_bridge.Go.FilePath.{slash, is_abs, clean, names}
use ocis_ftp_bridge.Go.FilePath.Components.{NoUp, names-NoUp}
use ocis_ftp_bridge.Go.FilePath.Cleaning.{is_abs-clean, clean-clean}
use ocis_ftp_bridge.Go.Strings.{has_prefix}
use ocis_ftp_bridge.Go.Spaces.{is_blank}
use ocis_ftp_bridge.Config.Types.{AccountConfig, Config, ConfigError, no_accounts, SpoolConfig}
use ocis_ftp_bridge.Config.Addresses.{validate_ocis}
use ocis_ftp_bridge.Config.Validation.{
  Environment, env_value, has_part, normalize_target_root, check_upload, is_policy, is_negative,
  validate_account, validate_accounts, validate_spool, validate_with_env, validate_server,
  validate_http, same_nil,
}

-- The target root is an absolute, clean path without a component that goes up, and the upload
-- settings are in their ranges.
pub record IsValidAccount (a : AccountConfig) : Type 0 where
  pub root_abs : is_abs a.target.root ≡ true
  pub root_clean : clean a.target.root ≡ a.target.root
  pub root_no_up : All NoUp (names a.target.root)
  pub policy : is_policy a.upload.collision_policy ≡ true
  pub positive_size : 0 < a.upload.max_size
  pub size_fits : a.upload.max_size ≤ 9223372036854775807
  pub concurrency : is_negative a.upload.max_concurrent_uploads ≡ false
  pub token : is_blank a.app_token ≡ false

has_prefix-abs : (p : Bytes) → has_prefix p (slash ∷ []) ≡ true → is_abs p ≡ true
unfolding has_prefix
has_prefix-abs [] h = ground arith
has_prefix-abs (x ∷ p) h = ground arith

normalize_target_root-ok :
    (root r : Bytes)
    → normalize_target_root root ≡ ok r
    → (is_abs r ≡ true) × (clean r ≡ r) × All NoUp (names r)
unfolding normalize_target_root
normalize_target_root-ok root r h =
    let is : clean root ≡ r = ground arith in
    let abs : is_abs root ≡ true = has_prefix-abs root (ground arith) in
    let abs' : is_abs r ≡ true = rw (← is) (is_abs-clean root abs) in
    (abs', rw (← is) (clean-clean root abs), names-NoUp r abs')

check_upload-ok :
    (a : AccountConfig)
    → check_upload a.upload ≡ ok tt
    → (is_policy a.upload.collision_policy ≡ true)
      × (0 < a.upload.max_size)
      × (a.upload.max_size ≤ 9223372036854775807)
      × (is_negative a.upload.max_concurrent_uploads ≡ false)
unfolding check_upload
check_upload-ok a h = ground arith

validate_account-IsValidAccount :
    (env : Environment) (a a' : AccountConfig)
    → validate_account env a ≡ ok a'
    → (a'.username ≡ a.username) × IsValidAccount a'
unfolding validate_account env_value
validate_account-IsValidAccount env a a' h =
    elim (Result-cases (normalize_target_root a.target.root)) [
      | inl (e, refused) ↦ ground (arith, refused)
      | inr (root, normal) ↦ elim (Option-cases (env.lookup_env a.ocis.app_token_env)) [
        | inl unset ↦ ground (arith, unset)
        | inr (token, given) ↦
            let made : AccountConfig = record a {
              app_token = token;
              target = record a.target { root = root };
            } in
            let is : made ≡ a' = ground (arith, normal, given) in
            let filled : is_blank token ≡ false = ground (arith, normal, given) in
            let passed : check_upload a.upload ≡ ok tt = ground (arith, normal, given) in
            let (policy, positive, fits, some_or_none) = check_upload-ok a passed in
            let (rooted, cleaned, no_up) = normalize_target_root-ok a.target.root root normal in
            (
              ap (λ b. b.username) (sym is),
              subst IsValidAccount is (record {
                root_abs = rooted;
                root_clean = cleaned;
                root_no_up = no_up;
                policy = policy;
                positive_size = positive;
                size_fits = fits;
                concurrency = some_or_none;
                token = filled;
              }),
            )
      ]
    ]

-- The usernames are not blank and differ from each other and from those seen before.
unfoldable pub IsDistinct : List Bytes → List AccountConfig → Type 0
IsDistinct seen [] = Unit
IsDistinct seen (a ∷ more) =
    (is_blank a.username ≡ false)
    × (has_part a.username seen ≡ false)
    × IsDistinct (a.username ∷ seen) more

validate_accounts-cons :
    (env : Environment) (seen : List Bytes) (a : AccountConfig) (more : List AccountConfig)
    (checked : List AccountConfig)
    → validate_accounts env seen (a ∷ more) ≡ ok checked
    → (b : AccountConfig) × (bs : List AccountConfig) × (checked ≡ b ∷ bs)
      × (validate_account env a ≡ ok b)
      × (validate_accounts env (a.username ∷ seen) more ≡ ok bs)
      × (is_blank a.username ≡ false)
      × (has_part a.username seen ≡ false)
unfolding validate_accounts
validate_accounts-cons env seen a more checked h = elim (Result-cases (validate_account env a)) [
  | inl (e, refused) ↦ ground (arith, refused)
  | inr (b, first) ↦ elim (Result-cases (validate_accounts env (a.username ∷ seen) more)) [
    | inl (e, refused) ↦ ground (arith, first, refused)
    | inr (bs, others) ↦ (
      b,
      bs,
      ground (arith, first, others),
      first,
      others,
      ground (arith, first, others),
      ground (arith, first, others),
    )
  ]
]

validate_accounts-IsDistinct :
    (env : Environment) (seen : List Bytes) (accounts checked : List AccountConfig)
    → validate_accounts env seen accounts ≡ ok checked
    → IsDistinct seen checked × All IsValidAccount checked
unfolding IsDistinct validate_accounts
validate_accounts-IsDistinct env seen [] checked h =
    subst (λ cs. IsDistinct seen cs × All IsValidAccount cs) (ok-injective {E = ConfigError} h)
      (tt, tt)
validate_accounts-IsDistinct env seen (a ∷ more) checked h =
    let (b, bs, is, first, others, named, new) = validate_accounts-cons env seen a more checked h in
    let (distinct, valid) = validate_accounts-IsDistinct env (a.username ∷ seen) more bs others in
    let (same_name, valid_b) = validate_account-IsValidAccount env a b first in
    subst (λ cs. IsDistinct seen cs × All IsValidAccount cs) (sym is)
      (
        (
          ap is_blank same_name ∙ named,
          ap (λ u. has_part u seen) same_name ∙ new,
          subst (λ u. IsDistinct (u ∷ seen) bs) (sym same_name) distinct,
        ),
        (valid_b, valid),
      )

-- A configuration that the program can run with.
pub record IsValid (c : Config) : Type 0 where
  pub accounts_valid : All IsValidAccount c.accounts
  pub accounts_distinct : IsDistinct [] c.accounts
  pub spool_abs : is_abs c.spool.directory ≡ true
  pub spool_size : 0 < c.spool.max_total_size
  pub same_sizes : c.spool.max_size ≡ c.spool.max_total_size

validate_spool-ok :
    (s s' : SpoolConfig)
    → validate_spool s ≡ ok s'
    → (is_abs s'.directory ≡ true) × (0 < s'.max_total_size) × (s'.max_size ≡ s'.max_total_size)
unfolding validate_spool
validate_spool-ok s s' h = ground arith

-- Every configuration that the validation accepts has: accounts with different usernames that are not
-- blank, each with a target root that is absolute, clean and without a component that goes up, one
-- of the three collision policies, a maximal size from 1 to 2 ^ 63 - 1, a limit of uploads that is
-- not negative and a token that is not blank; an absolute spool directory; and a spool size above 0.
pub validate_with_env-IsValid :
    (env : Environment) (c c' : Config) → validate_with_env env c ≡ ok c' → IsValid c'
unfolding validate_with_env
validate_with_env-IsValid env c c' h =
    let (served, s1, h1) = >>=-eq-ok (validate_server env c.server) _ h in
    let (ocis, s2, h2) = >>=-eq-ok (validate_ocis env.parse_url c.ocis) _ h1 in
    let (auth, s3, h3) = >>=-eq-ok (validate_http env c.http.auth) _ h2 in
    let (spool, sized, h4) = >>=-eq-ok (validate_spool c.spool) _ h3 in
    let (some_account, h5) = refuse-eq-ok (same_nil c.accounts) no_accounts _ h4 in
    let (accounts, checked, h6) = >>=-eq-ok (validate_accounts env [] c.accounts) _ h5 in
    let is = ok-injective {E = ConfigError} h6 in
    let (rooted, positive, both) = validate_spool-ok c.spool spool sized in
    let (distinct, valid) = validate_accounts-IsDistinct env [] c.accounts accounts checked in
    subst IsValid is (record {
      accounts_valid = valid;
      accounts_distinct = distinct;
      spool_abs = rooted;
      spool_size = positive;
      same_sizes = both;
    })
