-- ===== src/Config/Validation.antt =====
-- pkg/config/config.go: `normalizeTargetRoot`, `validateHTTP` and `validateWithEnv`, which fills in what
-- it derives, and the check of the accounts in `LoadFileWithEnv`. The environment, `net.ParseIP`,
-- `url.Parse` and the parsers of a password hash are parameters.
use ocis_ftp_bridge.Prelude.{
  ℕ, Bool, true, false, ◌&&◌, ◌||◌, not, ltb, ◌==◌, map, Option, none, some, Bytes, codes, same,
  List, [], ◌∷◌, Result, ok, err, refuse, ◌>>=◌, ◌>>◌, if◌then◌else◌,
}
use ocis_ftp_bridge.Prelude.Int.{ℤ, pos, negsuc}
use ocis_ftp_bridge.Go.Strings.{has_prefix, contains, split}
use ocis_ftp_bridge.Go.FilePath.{slash, dot_dot, clean, is_abs}
use ocis_ftp_bridge.Go.Spaces.{is_blank}
use ocis_ftp_bridge.Config.Types.{
  ServerConfig, SpoolConfig, UploadConfig, AccountConfig, HttpAuthConfig, Config, ConfigError,
  listen_required, tls_files_required, http_username_required, http_token_required,
  http_token_unset, http_method_required, http_method_invalid, spool_directory_relative,
  spool_size_zero, no_accounts, username_required, duplicate_username, example_hash,
  ocis_username_required, token_env_required, token_unset, target_required, root_relative,
  root_traversal, policy_invalid, max_size_zero, concurrent_negative, max_size_too_large,
}
use ocis_ftp_bridge.Config.Addresses.{
  validate_server_listen_address, validate_passive, validate_ocis,
}
use ocis_ftp_bridge.Config.Passwords.{HashParsers, parse_argon2id}

-- What the validation asks of the system and of libraries.
pub record Environment : Type 0 where
  pub lookup_env : Bytes → Option Bytes
  pub is_ip : Bytes → Bool
  pub parse_url : Bytes → Option (Bytes × Bytes)
  pub hash_parsers : HashParsers

unfoldable pub has_part : Bytes → List Bytes → Bool
has_part p [] = false
has_part p (q ∷ more) = let rest = has_part p more in if same q p then true else rest

abbrev pub to_slash : ℕ → ℕ
to_slash c = if c == 92 then slash else c

unfoldable pub normalize_target_root : Bytes → Result ConfigError Bytes
unfolding has_part
normalize_target_root root = do
  refuse (is_blank root || not (has_prefix root (slash ∷ []))) root_relative
  refuse (has_part dot_dot (split slash (map to_slash root))) root_traversal
  ok (clean root)

-- A variable of the environment that is not blank.
unfoldable pub env_value : Environment → ConfigError → Bytes → Result ConfigError Bytes
env_value env e name = elim (env.lookup_env name) [
  | none ↦ err e
  | some value ↦ if is_blank value then err e else ok value
]

-- The hashes of examples and tests, which no account may have.
unfoldable pub example_hashes : List Bytes
example_hashes =
    codes
      "$argon2id$v=19$m=65536,t=3,p=1$MDEyMzQ1Njc4OWFiY2RlZg$AAAAAAAAAAAAAAAAAAAAAAAAAAAAAAAAAAAAAAAAAAA"
    ∷ (codes "$argon2id$v=19$m=65536,t=3,p=4$c29tZXNhbHQ$RdescudvJC1OeqncgJ2almHUfLnhtRTVrjD8zGQ"
        ∷ (codes
              "$argon2id$v=19$m=65536,t=3,p=4$jK4n6v8Bw5Fh9Lm3NqPj8H$DWQ3EeT6RfYhMjDfGvXpCnMqLkJiGfDs"
            ∷ (codes
                  "$argon2id$v=19$m=65536,t=3,p=4$kL5n7v9Bw6Fh0Lm4NqPj9H$EWQ4EeT7RfYhNkDfGvXpDnMqLkJkGfDt"
                ∷ [])))

unfoldable pub contains_any : Bytes → List Bytes → Bool
unfolding contains
contains_any text [] = false
contains_any text (p ∷ more) =
    let rest = contains_any text more in if contains text p then true else rest

abbrev pub is_policy : Bytes → Bool
is_policy text =
    same text (codes "rename") || (same text (codes "reject") || same text (codes "overwrite"))

abbrev pub is_negative : ℤ → Bool
is_negative (pos n) = false
is_negative (negsuc n) = true

unfoldable pub check_upload : UploadConfig → Result ConfigError (Unit {0})
check_upload u = do
  refuse (not (is_policy u.collision_policy)) policy_invalid
  refuse (u.max_size == 0) max_size_zero
  refuse (is_negative u.max_concurrent_uploads) concurrent_negative
  refuse (ltb 9223372036854775807 u.max_size) max_size_too_large

-- One account, apart from its username.
unfoldable pub validate_account : Environment → AccountConfig → Result ConfigError AccountConfig
unfolding parse_argon2id example_hashes contains_any env_value normalize_target_root check_upload
validate_account env account = do
  _ ← parse_argon2id env.hash_parsers account.password_hash
  refuse (contains_any account.password_hash example_hashes) example_hash
  refuse (is_blank account.ocis.username) ocis_username_required
  refuse (is_blank account.ocis.app_token_env) token_env_required
  token ← env_value env token_unset account.ocis.app_token_env
  refuse (is_blank account.target.drive_id && is_blank account.target.drive) target_required
  root ← normalize_target_root account.target.root
  check_upload account.upload
  ok (record account { app_token = token; target = record account.target { root = root } })

-- The accounts in their order; `seen` are the usernames before.
unfoldable pub validate_accounts :
    Environment → List Bytes → List AccountConfig → Result ConfigError (List AccountConfig)
unfolding validate_account has_part
validate_accounts env seen [] = ok []
validate_accounts env seen (account ∷ more) = do
  refuse (is_blank account.username) username_required
  refuse (has_part account.username seen) duplicate_username
  checked ← validate_account env account
  rest ← validate_accounts env (account.username ∷ seen) more
  ok (checked ∷ rest)

unfoldable pub check_basic_auth : HttpAuthConfig → Result ConfigError HttpAuthConfig
check_basic_auth auth = do
  refuse (is_blank auth.username) http_username_required
  ok (if is_blank auth.password then record auth { password = [] } else auth)

unfoldable pub check_bearer_auth : Environment → HttpAuthConfig → Result ConfigError HttpAuthConfig
unfolding env_value
check_bearer_auth env auth =
    if is_blank auth.bearer_token && is_blank auth.bearer_token_env
    then err http_token_required
    else if is_blank auth.bearer_token_env
    then ok auth
    else (do
      token ← env_value env http_token_unset auth.bearer_token_env
      ok (record auth { bearer_token = token }))

unfoldable pub validate_http : Environment → HttpAuthConfig → Result ConfigError HttpAuthConfig
unfolding check_basic_auth check_bearer_auth
validate_http env auth =
    if not auth.enabled
    then ok auth
    else if same auth.method (codes "basic")
    then check_basic_auth auth
    else if same auth.method (codes "bearer")
    then check_bearer_auth env auth
    else if same auth.method (codes "none") || same auth.method []
    then err http_method_required
    else err http_method_invalid

abbrev pub same_nil : List AccountConfig → Bool
same_nil [] = true
same_nil (a ∷ more) = false

-- Either size stands for the other one.
unfoldable pub validate_spool : SpoolConfig → Result ConfigError SpoolConfig
validate_spool s = do
  refuse (not (is_abs s.directory)) spool_directory_relative
  let total = if s.max_total_size == 0 then s.max_size else s.max_total_size
  refuse (total == 0) spool_size_zero
  ok (record s { max_total_size = total; max_size = total })

unfoldable pub validate_server : Environment → ServerConfig → Result ConfigError (Unit {0})
unfolding validate_server_listen_address validate_passive
validate_server env server = do
  refuse (is_blank server.listen) listen_required
  validate_server_listen_address env.is_ip server.listen
  validate_passive env.is_ip server.passive
  refuse (server.tls.enabled && (is_blank server.tls.cert || is_blank server.tls.key))
      tls_files_required

unfoldable pub validate_with_env : Environment → Config → Result ConfigError Config
unfolding validate_server validate_ocis validate_http validate_spool validate_accounts
validate_with_env env c = do
  validate_server env c.server
  ocis ← validate_ocis env.parse_url c.ocis
  auth ← validate_http env c.http.auth
  spool ← validate_spool c.spool
  refuse (same_nil c.accounts) no_accounts
  accounts ← validate_accounts env [] c.accounts
  ok (record c {
    ocis = ocis;
    http = record c.http { auth = auth };
    spool = spool;
    accounts = accounts;
  })

-- The check of the decoded accounts in `LoadFileWithEnv`, before the validation.
unfoldable pub check_usernames : List Bytes → List AccountConfig → Result ConfigError (Unit {0})
unfolding has_part
check_usernames seen [] = ok tt
check_usernames seen (account ∷ more) = do
  refuse (is_blank account.username) username_required
  refuse (has_part account.username seen) duplicate_username
  check_usernames (account.username ∷ seen) more

-- `LoadFileWithEnv`, once the file is decoded over the defaults.
unfoldable pub load_decoded : Environment → Config → Result ConfigError Config
unfolding check_usernames validate_with_env
load_decoded env c = do check_usernames [] c.accounts; validate_with_env env c
