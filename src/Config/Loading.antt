-- ===== src/Config/Loading.antt =====
-- pkg/config/config.go: `LoadFileWithEnv`. Reading a file and the YAML decoding over the defaults are
-- parameters.
use ocis_ftp_bridge.Prelude.{
  ◌≡◌, refl, Bool, true, false, Option, none, some, Bytes, List, [], ◌∷◌, ◌↔◌, Result, ok, err,
  ◌>>=◌, >>=-eq-ok, refuse-eq-ok, arith,
}
use ocis_ftp_bridge.Go.Spaces.{is_blank}
use ocis_ftp_bridge.Config.Types.{
  AccountConfig, Config, ConfigError, no_accounts, username_required, duplicate_username,
}
use ocis_ftp_bridge.Config.Addresses.{validate_ocis}
use ocis_ftp_bridge.Config.Credentials.{Exposure, check_for_plaintext_credentials}
use ocis_ftp_bridge.Config.Validation.{
  Environment, has_part, same_nil, validate_account, validate_accounts, validate_http,
  validate_server, validate_spool, validate_with_env, check_usernames, load_decoded,
}

pub data LoadError : Type 0 where
  path_required open_failed decode_failed : LoadError
  invalid : ConfigError → LoadError

-- os.ReadFile for the scan and os.Open for the decoding, which read the file one after the other, and
-- the decoding of the text.
pub record ConfigFiles : Type 0 where
  pub read_file : Bytes → Option Bytes
  pub open_file : Bytes → Option Bytes
  pub decode : Bytes → Option Config

abbrev pub or_failed : {A : Type 0} → LoadError → Option A → Result LoadError A
or_failed e none = err e
or_failed e (some a) = ok a

abbrev pub as_invalid : Result ConfigError Config → Result LoadError Config
as_invalid (err e) = err (invalid e)
as_invalid (ok c) = ok c

-- The file behind a path that is not blank.
unfoldable pub decoded_file : ConfigFiles → Bytes → Result LoadError Config
decoded_file files name = do
  text ← or_failed open_failed (files.open_file name)
  or_failed decode_failed (files.decode text)

abbrev pub unless_blank :
    Bool → Option Exposure × Result LoadError Config → Option Exposure × Result LoadError Config
unless_blank true later = (none, err path_required)
unless_blank false later = later

-- What is logged as a warning, and the result.
unfoldable pub load_file_with_env :
    ConfigFiles → Environment → Bytes → Option Exposure × Result LoadError Config
unfolding check_for_plaintext_credentials decoded_file load_decoded
load_file_with_env files env name = unless_blank (is_blank name) (
  check_for_plaintext_credentials (files.read_file name),
  decoded_file files name >>= λ c. as_invalid (load_decoded env c),
)

check_usernames-ok :
    (env : Environment) (seen : List Bytes) (accounts checked : List AccountConfig)
    → validate_accounts env seen accounts ≡ ok checked
    → check_usernames seen accounts ≡ ok tt
unfolding validate_accounts check_usernames
check_usernames-ok env seen [] checked h = refl
check_usernames-ok env seen (a ∷ more) checked h =
    let (named, h1) = refuse-eq-ok (is_blank a.username) username_required _ h in
    let (new, h2) = refuse-eq-ok (has_part a.username seen) duplicate_username _ h1 in
    let (b, first, h3) = >>=-eq-ok (validate_account env a) _ h2 in
    let (bs, others, h4) = >>=-eq-ok (validate_accounts env (a.username ∷ seen) more) _ h3 in
    rw (named, new, check_usernames-ok env (a.username ∷ seen) more bs others) refl

validated_usernames :
    (env : Environment) (c c' : Config)
    → validate_with_env env c ≡ ok c'
    → check_usernames [] c.accounts ≡ ok tt
unfolding validate_with_env
validated_usernames env c c' h =
    let (served, s1, h1) = >>=-eq-ok (validate_server env c.server) _ h in
    let (ocis, s2, h2) = >>=-eq-ok (validate_ocis env.parse_url c.ocis) _ h1 in
    let (auth, s3, h3) = >>=-eq-ok (validate_http env c.http.auth) _ h2 in
    let (spool, sized, h4) = >>=-eq-ok (validate_spool c.spool) _ h3 in
    let (some_account, h5) = refuse-eq-ok (same_nil c.accounts) no_accounts _ h4 in
    let (accounts, checked, h6) = >>=-eq-ok (validate_accounts env [] c.accounts) _ h5 in
    check_usernames-ok env [] c.accounts accounts checked

load_decoded_iff :
    (env : Environment) (c c' : Config)
    → (load_decoded env c ≡ ok c') ↔ (validate_with_env env c ≡ ok c')
unfolding load_decoded
load_decoded_iff env c c' = (
  λ h. (>>=-eq-ok (check_usernames [] c.accounts) _ h).2,
  λ h. rw (validated_usernames env c c' h) h,
)

as_invalid-eq-ok : (r : Result ConfigError Config) (c : Config) → as_invalid r ≡ ok c → r ≡ ok c
as_invalid-eq-ok (err e) c h = cc
as_invalid-eq-ok (ok d) c h = ground arith

unless_blank-eq-ok :
    (b : Bool) (later : Option Exposure × Result LoadError Config) {c : Config}
    → (unless_blank b later).1 ≡ ok c
    → (b ≡ false) × (later.1 ≡ ok c)
unless_blank-eq-ok false later h = (refl, h)
unless_blank-eq-ok true later h = cc

-- A configuration is loaded exactly if its path is not blank, the file opens and decodes, and the
-- validation alone accepts what it decodes to: the check of the usernames before the validation
-- refuses nothing that the validation accepts, and what the scan for credentials reports does not
-- change the result.
pub load_file_with_env_iff :
    (files : ConfigFiles) (env : Environment) (name : Bytes) (c' : Config)
    → ((load_file_with_env files env name).1 ≡ ok c') ↔ (
        (is_blank name ≡ false)
        × (c : Config) × (decoded_file files name ≡ ok c)
        × (validate_with_env env c ≡ ok c'))
unfolding load_file_with_env
load_file_with_env_iff files env name c' = (loaded, loads)
  where
    loaded :
        (load_file_with_env files env name).1 ≡ ok c'
        → (is_blank name ≡ false)
          × (c : Config) × (decoded_file files name ≡ ok c)
          × (validate_with_env env c ≡ ok c')
    loaded h =
        let (given, chain) = unless_blank-eq-ok (is_blank name) _ h in
        let (c, decoded, last) = >>=-eq-ok (decoded_file files name) _ chain in
        let valid = (load_decoded_iff env c c').0 (as_invalid-eq-ok (load_decoded env c) c' last) in
        (given, c, decoded, valid)

    loads :
        (is_blank name ≡ false)
          × (c : Config) × (decoded_file files name ≡ ok c)
          × (validate_with_env env c ≡ ok c')
        → (load_file_with_env files env name).1 ≡ ok c'
    loads (given, c, decoded, valid) =
        rw (given, decoded) (rw ((load_decoded_iff env c c').1 valid) refl)
