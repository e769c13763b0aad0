-- ===== src/Ftp/Driver.antt =====
-- pkg/ftp/driver.go: `NewBridgeDriver`, and a login over it: `AuthUser` with the drive that
-- `resolveDriveForAccount` finds by the Graph client of the account.
pub mod Endpoints
use ocis_ftp_bridge.Prelude.{
  ℕ, Bool, true, false, not, if◌then◌else◌, Option, none, some, Bytes, codes, same, List, [], ◌∷◌,
  Result, ok, err,
}
use ocis_ftp_bridge.Prelude.Int.{ℤ, pos, negsuc}
use ocis_ftp_bridge.Prelude.Map.{Map, lookup, insert, bytes_eq}
use ocis_ftp_bridge.Config.Types.{AccountConfig, Config}
use ocis_ftp_bridge.Transfer.Types.{
  CollisionPolicy, rename, reject, overwrite, other_policy, TransferManager,
}
use ocis_ftp_bridge.Transfer.Types as Transfer
use ocis_ftp_bridge.Transfer.Paths.{add_target}
use ocis_ftp_bridge.Webdav.Types.{WebdavError, WebdavClient, Transport}
use ocis_ftp_bridge.Webdav.Client.{new_webdav_client, check_path_existence, create_directory}
use ocis_ftp_bridge.Graph.Resolver.{Drive}
use ocis_ftp_bridge.Graph.Client.{Sdk, new_client, resolve_drive, list_drives, found}
use ocis_ftp_bridge.Ftp.ConnectionTracker.{new_connection_tracker}
use ocis_ftp_bridge.Ftp.AuthTracker.{new_auth_attempt_tracker}
use ocis_ftp_bridge.Ftp.Login.{Account, LoginDriver, LoginError, Session, auth_user}
use ocis_ftp_bridge.Ftp.Drives.{
  DriveTarget, Drives, DriveError, DriveCacheEntry, resolve_drive_fresh, resolve_drive_for_account,
}

-- `RateLimitConfig`; the limits and times of a configuration are not negative here.
pub record RateLimits : Type 0 where
  pub track_failed_attempts : Bool
  pub max_connections_per_ip : ℕ
  pub max_global_connections : ℕ
  pub max_auth_attempts_per_ip : ℕ
  pub auth_attempt_window : ℕ
  pub auth_lockout_duration : ℕ

abbrev pub policy_of : Bytes → CollisionPolicy
policy_of text =
    if same text (codes "rename")
    then rename
    else (if same text (codes "reject")
        then reject
        else (if same text (codes "overwrite") then overwrite else other_policy text))

-- A value for each account, under its user name; a later account replaces an earlier one.
unfoldable pub by_username {ℓ} :
    {V : Type ℓ} → (AccountConfig → V) → List AccountConfig → Map Bytes V → Map Bytes V
unfolding insert
by_username f [] m = m
by_username f (a ∷ more) m = by_username f more (insert a.username (f a) m)

abbrev pub account_of : AccountConfig → Account
account_of a = record {
  password_hash = a.password_hash;
  ocis_username = a.ocis.username;
  app_token = a.app_token;
}

abbrev pub drive_target_of : AccountConfig → DriveTarget
drive_target_of a = record {
  username = a.username;
  drive_id = a.target.drive_id;
  drive = a.target.drive;
}

unfoldable pub target_of : AccountConfig → Transfer.TargetConfig
target_of a = record {
  drive_id = a.target.drive_id;
  drive = a.target.drive;
  root = a.target.root;
  collision_policy = policy_of a.upload.collision_policy;
  max_size = a.upload.max_size;
}

abbrev pub as_result : Option WebdavError → Result WebdavError (Unit {0})
as_result none = ok tt
as_result (some e) = err e

module _ {S : Type 0} (t : Transport S) where
  -- What the transfer manager calls of a WebDAV client.
  unfoldable pub transfer_client : WebdavClient → Transfer.Client S WebdavError
  transfer_client c = record {
    check_path_existence = λ path s. check_path_existence t c path s;
    create_directory = λ path s. let (e, s') = create_directory t c path s in (as_result e, s');
  }

  unfoldable pub new_transfer_manager_with_webdav :
      Transfer.Client S WebdavError → TransferManager S WebdavError
  new_transfer_manager_with_webdav client = record {
    target_configs = [];
    upload_counters = [];
    webdav_client = some client;
  }

  unfoldable pub account_manager : Bytes → AccountConfig → TransferManager S WebdavError
  unfolding transfer_client new_transfer_manager_with_webdav add_target target_of
  account_manager webdav_url a =
      add_target
        (new_transfer_manager_with_webdav
          (transfer_client (new_webdav_client webdav_url a.ocis.username a.app_token)))
        a.username (target_of a)

-- `BridgeDriver`, with the settings that a login reads.
pub record Driver (S : Type 0) : Type 0 where
  pub login : LoginDriver
  pub targets : Map Bytes DriveTarget
  pub drive_cache : Map Bytes DriveCacheEntry
  pub transfer_managers : Map Bytes (TransferManager S WebdavError)
  pub graph_url : Bytes

abbrev pub limit_of : ℤ → ℕ
limit_of (pos n) = n
limit_of (negsuc n) = 0

unfoldable pub new_bridge_driver : {S : Type 0} → Transport S → Config → RateLimits → Driver S
unfolding by_username account_manager new_connection_tracker new_auth_attempt_tracker
new_bridge_driver t cfg limits = record {
  login = record {
    connections = record {
      tracker =
          if limits.track_failed_attempts
          then some
              (new_connection_tracker limits.max_connections_per_ip limits.max_global_connections)
          else none;
      allowed_connections = [];
      active_connections = pos 0;
      clients = [];
      cancelled = [];
    };
    auth_attempt_tracker =
        if limits.track_failed_attempts
        then some (
            new_auth_attempt_tracker limits.max_auth_attempts_per_ip limits.auth_attempt_window
              limits.auth_lockout_duration)
        else none;
    accounts = by_username account_of cfg.accounts [];
    max_connections = limit_of cfg.server.max_connections;
    shutting_down = false;
    verifying = 0;
    global_webdav_url = cfg.ocis.webdav_url;
  };
  targets = by_username drive_target_of cfg.accounts [];
  drive_cache = [];
  transfer_managers = by_username (account_manager t cfg.ocis.webdav_url) cfg.accounts [];
  graph_url = cfg.ocis.graph_url;
}

-- The Graph client with the account's credentials.
unfoldable pub account_drives : Sdk → Bytes → Account → Drives
unfolding new_client
account_drives sdk graph_url a =
    let client = new_client graph_url a.ocis_username a.app_token in
    record {
      resolve_drive = λ id. found (resolve_drive sdk client id);
      list_drives = found (list_drives sdk client a.ocis_username);
    }

abbrev pub no_target_of : Bytes → Option DriveTarget → DriveTarget
no_target_of user none = record { username = user; drive_id = []; drive = [] }
no_target_of user (some target) = target

-- `resolveDriveForAccount` for the account that was found under the user's name.
unfoldable pub resolve_for :
    {S : Type 0}
    → Sdk
    → Driver S
    → ℕ
    → Bytes
    → Account
    → Result DriveError Drive × Map Bytes DriveCacheEntry
unfolding account_drives
resolve_for sdk d now user a = resolve_drive_for_account d.drive_cache now user (
    resolve_drive_fresh (account_drives sdk d.graph_url a)
      (no_target_of user (lookup user d.targets)))

abbrev pub url_of : Result DriveError Drive → Option Bytes
url_of (err e) = none
url_of (ok drive) = some drive.webdav_url

-- A drive was resolved, and maybe cached, if the login succeeded; the account is the user's.
abbrev pub cache_after :
    {S : Type 0}
    → Sdk
    → Driver S
    → ℕ
    → Bytes
    → Option Account
    → Result LoginError Session
    → Map Bytes DriveCacheEntry
cache_after sdk d now user (some a) (ok s) = (resolve_for sdk d now user a).1
cache_after sdk d now user (some a) (err e) = d.drive_cache
cache_after sdk d now user none r = d.drive_cache

unfoldable pub log_in :
    {S : Type 0}
    → (Bytes → Bytes → Option Bool)
    → Sdk
    → Driver S
    → ℕ
    → ℕ
    → Bytes
    → Bytes
    → Bytes
    → Result LoginError Session × Driver S
unfolding resolve_for
log_in verify sdk d now id addr user password =
    let (r, login) =
      auth_user verify d.login now id addr user password
        (λ a. url_of (resolve_for sdk d now user a).0) in
    (
      r,
      record d {
        login = login;
        drive_cache = cache_after sdk d now user (lookup user d.login.accounts) r;
      },
    )
