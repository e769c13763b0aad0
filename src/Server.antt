-- ===== src/Server.antt =====
-- pkg/server/server.go: `New`, which validates the configuration and puts the parts together. The
-- environment, the files, the random source and the metrics' start are parameters. What runs at the
-- same time in `Run` is left out.
pub mod Protected
use ocis_ftp_bridge.Prelude.{
  ℕ, Bool, true, false, not, ◌&&◌, if◌then◌else◌, Option, none, some, Bytes, codes, same, [],
  Result, ok, err, refuse, ◌>>=◌, ◌>>◌,
}
use ocis_ftp_bridge.Config.Types.{Config, ConfigError, HttpAuthConfig, HttpConfig}
use ocis_ftp_bridge.Config.Certificates.{CertificateFiles, CertificateError, validate_tls_config}
use ocis_ftp_bridge.Config.Validation.{Environment, validate_with_env}
use ocis_ftp_bridge.Spool.Types.{SpoolError, UploadManager}
use ocis_ftp_bridge.Spool.UploadManager.{new_upload_manager}
use ocis_ftp_bridge.Spool.Files.{Disk, Os, Manager, cleanup}
use ocis_ftp_bridge.Webdav.Types.{Transport}
use ocis_ftp_bridge.Http.Auth.{AuthConfig, AuthMethod, basic, bearer, other}
use ocis_ftp_bridge.Http.Health.{HealthCheckConfig}
use ocis_ftp_bridge.Http.Server.{OperationsServer, new_operations_server}
use ocis_ftp_bridge.Ftp.Driver.{RateLimits, Driver, new_bridge_driver}

pub data ServerError : Type 0 where
  invalid_config : ConfigError → ServerError
  invalid_certificate : CertificateError → ServerError
  spool_directory_required spool_not_created spool_not_writable : ServerError
  cleanup_failed : SpoolError → ServerError
  observability_failed : ServerError
  no_password : ServerError

-- `make_dir` is `os.MkdirAll`, `probe` the test file of `checkDirectoryWritable`; `random` are 24 random
-- bytes, `encode` is `base64.RawURLEncoding`.
pub record Host : Type 0 where
  pub environment : Environment
  pub certificates : CertificateFiles
  pub now : ℕ
  pub os : Os
  pub make_dir : Bytes → Bool
  pub probe : Bytes → Bool
  pub observes : Bool
  pub random : Option Bytes
  pub encode : Bytes → Bytes

pub record Service (S : Type 0) : Type 0 where
  pub cfg : Config
  pub spool_manager : Manager
  pub upload_manager : UploadManager
  pub ftp_driver : Driver S
  pub http_server : OperationsServer

abbrev pub wrapped {ℓ} :
    {E : Type 0} {A : Type ℓ} → (E → ServerError) → Result E A → Result ServerError A
wrapped w (err e) = err (w e)
wrapped w (ok a) = ok a

unfoldable pub new_manager : Host → Bytes → ℕ → Result ServerError Manager
new_manager h dir max_size = do
  refuse (same dir []) spool_directory_required
  refuse (not (h.make_dir dir)) spool_not_created
  refuse (not (h.probe dir)) spool_not_writable
  ok (record { spool_dir = dir; max_size = max_size })

abbrev pub cleaned :
    Manager → Result SpoolError (Unit {0}) × Disk → Result ServerError Manager × Disk
cleaned m (err e, disk) = (err (cleanup_failed e), disk)
cleaned m (ok done, disk) = (ok m, disk)

abbrev pub clean_spool :
    Host → Disk → Result ServerError Manager → Result ServerError Manager × Disk
clean_spool h disk (err e) = (err e, disk)
clean_spool h disk (ok m) = cleaned m (cleanup h.os m 30 h.now disk)

-- Files older than thirty minutes are removed.
unfoldable pub initialize_spool : Host → Config → Disk → Result ServerError Manager × Disk
unfolding new_manager cleanup
initialize_spool h cfg disk =
    clean_spool h disk (new_manager h cfg.spool.directory cfg.spool.max_size)

unfoldable pub generate_auth_password : Host → Result ServerError Bytes
generate_auth_password h = elim h.random [
  | none ↦ err no_password
  | some bytes ↦ ok (h.encode bytes)
]

-- Basic authentication without a password gets a random one.
unfoldable pub with_password : Host → HttpAuthConfig → Result ServerError HttpAuthConfig
unfolding generate_auth_password
with_password h auth =
    if auth.enabled && (same auth.method (codes "basic") && same auth.password [])
    then (generate_auth_password h >>= λ generated. ok (record auth { password = generated }))
    else ok auth

abbrev pub method_of : Bytes → AuthMethod
method_of text =
    if same text (codes "basic")
    then basic
    else (if same text (codes "bearer") then bearer else other text)

unfoldable pub auth_of : HttpAuthConfig → AuthConfig
auth_of auth = record {
  enabled = auth.enabled;
  method = method_of auth.method;
  username = auth.username;
  password = auth.password;
  token = auth.bearer_token;
}

unfoldable pub health_of : Config → HealthCheckConfig
health_of cfg = record {
  ocis_url = cfg.ocis.url;
  ocis_username = [];
  ocis_password = [];
  webdav_url = cfg.ocis.webdav_url;
  spool_directory = cfg.spool.directory;
}

unfoldable pub checked_config : Host → Config → Result ServerError Config
unfolding validate_with_env validate_tls_config
checked_config h cfg = do
  valid ← wrapped invalid_config (validate_with_env h.environment cfg)
  wrapped invalid_certificate (validate_tls_config h.certificates h.now valid.server.tls)
  ok valid

module _ {S : Type 0} (t : Transport S) (limits : RateLimits) (h : Host) where
  -- The parts, once the configuration is checked and the spool is clean.
  unfoldable pub assembled : Config → Manager → Result ServerError (Service S)
  unfolding with_password auth_of health_of
  assembled cfg m = do
    refuse (not h.observes) observability_failed
    auth ← with_password h cfg.http.auth
    let armed = record cfg { http = record cfg.http { auth = auth } }
    ok (record {
      cfg = armed;
      spool_manager = m;
      upload_manager = new_upload_manager cfg.spool.directory cfg.spool.max_size;
      ftp_driver = new_bridge_driver t cfg limits;
      http_server = new_operations_server cfg.http.address (auth_of auth) (health_of cfg);
    })

  abbrev pub after_spool :
      Config → Result ServerError Manager × Disk → Result ServerError (Service S) × Disk
  after_spool cfg (err e, disk) = (err e, disk)
  after_spool cfg (ok m, disk) = (assembled cfg m, disk)

  abbrev pub after_check : Disk → Result ServerError Config → Result ServerError (Service S) × Disk
  after_check disk (err e) = (err e, disk)
  after_check disk (ok cfg) = after_spool cfg (initialize_spool h cfg disk)

  unfoldable pub new_service : Config → Disk → Result ServerError (Service S) × Disk
  unfolding checked_config assembled initialize_spool
  new_service cfg disk = after_check disk (checked_config h cfg)
