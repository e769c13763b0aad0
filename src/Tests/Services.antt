-- ===== src/Tests/Services.antt =====
-- A run of the model of pkg/server's `New`, and of a login at the driver that it makes.
use ocis_ftp_bridge.Prelude.{
  ℕ, ◌≡◌, ◌≢◌, ◌↔◌, refl, Bytes, codes, Option, none, some, Bool, true, false, [], ◌∷◌, ◌++◌, ok,
  same,
}
use ocis_ftp_bridge.Prelude.Map.{lookup}
use ocis_ftp_bridge.Go.Spaces.{trim_space}
use ocis_ftp_bridge.Go.FilePath.{clean}
use ocis_ftp_bridge.Config.Types.{Config, default_config}
use ocis_ftp_bridge.Tests.Configured.{env, written, validated}
use ocis_ftp_bridge.Webdav.Types.{Transport}
use ocis_ftp_bridge.Http.Auth.{Request, IsCredential}
use ocis_ftp_bridge.Http.Health.{Outside, answered, a_directory}
use ocis_ftp_bridge.Http.Server.{readyz, new_operations_server}
use ocis_ftp_bridge.Spool.UploadManager.{new_upload_manager}
use ocis_ftp_bridge.Graph.Client.{SdkDrive, Sdk, list_drives}
use ocis_ftp_bridge.Ftp.Login.{
  Session, authenticate_user, check_lock, open_session, verify_login, auth_user,
}
use ocis_ftp_bridge.Ftp.Drives.{count_matches, resolve_drive_fresh, resolve_drive_for_account}
use ocis_ftp_bridge.Ftp.Driver.{RateLimits, Driver, new_bridge_driver, log_in}
use ocis_ftp_bridge.Ftp.Driver.Endpoints.{new_bridge_driver-IsBuilt, Endpoints, log_in-Endpoints}
use ocis_ftp_bridge.Server.{Host, Service, auth_of, health_of, new_service}
use ocis_ftp_bridge.Http.Server.Ready.{IsPassing}
use ocis_ftp_bridge.Server.Protected.{CanPass, new_service-Protected}

-- A server that answers everything.
abbrev transport : Transport ℕ
transport = record {
  parse_url = λ url. some url;
  perform = λ request n. (some 201, n);
  rewind = λ n. (true, n);
  wait = λ n. (true, n);
}

abbrev limits : RateLimits
limits = record {
  track_failed_attempts = false;
  max_connections_per_ip = 5;
  max_global_connections = 50;
  max_auth_attempts_per_ip = 5;
  auth_attempt_window = 100;
  auth_lockout_duration = 100;
}

abbrev scans : SdkDrive
scans = record {
  id = some (codes "1");
  name = some (codes "Scans");
  description = none;
  web_url = some (codes "https://cloud/f/1");
  owner = none;
  root = none;
}

abbrev sdk : Sdk
sdk = record {
  get_drive = λ url auth id. ok (some scans);
  list_my_drives = λ url auth. ok (some (scans ∷ []));
  at_path = λ url path. some (codes "https://cloud" ++ path);
  equal_fold = λ a b. same a b;
}

abbrev driver : Driver ℕ
driver = new_bridge_driver transport validated limits

abbrev verify : Bytes → Bytes → Option Bool
verify hash password = some true

abbrev session : Session
session = record {
  user = codes "printer";
  webdav_url = codes "https://cloud/dav/spaces/1";
  username = codes "scan";
  token = codes "token";
}

is_logged_in :
    (log_in verify sdk driver 3 1 (codes "1.2.3.4:5") (codes "printer") (codes "secret")).0
    ≡ ok session
unfolding log_in auth_user new_bridge_driver check_lock verify_login default_config
    authenticate_user lookup open_session resolve_drive_for_account resolve_drive_fresh list_drives
    count_matches
is_logged_in = refl

log_in-Endpoints_example : Endpoints transport validated sdk driver 3 (codes "printer") session
log_in-Endpoints_example =
    log_in-Endpoints transport validated sdk verify driver 3 1 (codes "1.2.3.4:5") (codes "printer")
      (codes "secret") session (new_bridge_driver-IsBuilt transport validated limits) is_logged_in

abbrev plain : Config
plain = record written {
  server = record written.server { tls = record written.server.tls { enabled = false } };
}

abbrev served : Config
served = record validated {
  server = record validated.server { tls = record validated.server.tls { enabled = false } };
  http = record validated.http { auth = record validated.http.auth { password = codes "drawn" } };
}

abbrev host : Host
host = record {
  environment = env;
  certificates = record { missing = λ name. true; load = λ cert key. none; parse = λ cert. none };
  now = 5;
  os = record {
    absolute = λ path. some path;
    may_make = λ path. true;
    may_write = λ path. true;
    may_read = λ path. true;
    may_remove = λ path. true;
  };
  make_dir = λ dir. true;
  probe = λ dir. true;
  observes = true;
  random = some (codes "drawn");
  encode = λ bytes. bytes;
}

-- `New` draws a password, as the configuration has none.
abbrev service : Service ℕ
service = record {
  cfg = served;
  spool_manager = record { spool_dir = served.spool.directory; max_size = served.spool.max_size };
  upload_manager = new_upload_manager served.spool.directory served.spool.max_size;
  ftp_driver = new_bridge_driver transport served limits;
  http_server =
      new_operations_server served.http.address (auth_of served.http.auth) (health_of served);
}

is_made : new_service transport limits host plain [] ≡ (ok service, [])
unfolding new_service trim_space default_config clean new_bridge_driver
is_made = refl

is_on : service.http_server.auth.enabled ≡ true
unfolding new_operations_server auth_of default_config
is_on = refl

not_empty : (b : Bytes) → host.random ≡ some b → host.encode b ≢ []
not_empty b h e = cc

abbrev outside : Outside
outside = record {
  send = λ request. answered 200 (codes "200 OK");
  stat = λ dir. a_directory;
  write = λ dir. none;
  quote = λ text. text;
}

abbrev asked : Request
asked = record { basic_auth = some (codes "admin", codes "drawn"); authorization = [] }

new_service-Protected_example :
    CanPass service.http_server.auth
    × (((readyz outside 10 20 (codes "\"t\"") asked service.http_server).0.status ≡ 200)
        ↔ (IsCredential service.http_server.auth asked × IsPassing outside 10 service.http_server))
new_service-Protected_example =
    new_service-Protected transport limits host not_empty outside 10 20 (codes "\"t\"") asked plain
      [] [] service is_made is_on
