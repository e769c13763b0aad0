-- ===== src/Ftp/Driver/Endpoints.antt =====
-- Which WebDAV endpoint the parts of a session use.
use ocis_ftp_bridge.Prelude.{
  ℕ, ◌≡◌, refl, sym, ap, ◌∙◌, Bool, true, false, ◌||◌, leb, if◌then◌else◌, Option, some,
  Option-cases, Bytes, same, same_iff, List, [], ◌∷◌, Result, ok, err, Result-cases, ◌⊎◌, inl, inr,
  Bool-cases, arith,
}
use ocis_ftp_bridge.Prelude.Map.{Map, lookup, insert, bytes_eq, lookup-insert, lookup-insert_self}
use ocis_ftp_bridge.Config.Types.{AccountConfig, Config}
use ocis_ftp_bridge.Transfer.Types.{TransferManager}
use ocis_ftp_bridge.Transfer.Paths.{add_target}
use ocis_ftp_bridge.Webdav.Types.{WebdavError, Transport}
use ocis_ftp_bridge.Webdav.Client.{new_webdav_client}
use ocis_ftp_bridge.Graph.Resolver.{Drive}
use ocis_ftp_bridge.Graph.Client.{Sdk}
use ocis_ftp_bridge.Ftp.AuthTracker.{AuthAttemptTracker}
use ocis_ftp_bridge.Ftp.Connections.{extract_client_ip}
use ocis_ftp_bridge.Ftp.Login.{
  Account, LoginDriver, Session, authenticate_user, check_lock, at_limit, auth_semaphore_size,
  with_tracker, register, open_session, verify_login, after_lock, auth_user,
}
use ocis_ftp_bridge.Ftp.Login.Accepted.{auth_user-ok}
use ocis_ftp_bridge.Ftp.Drives.{DriveError}
use ocis_ftp_bridge.Ftp.Driver.{
  RateLimits, Driver, by_username, account_of, drive_target_of, target_of, transfer_client,
  new_transfer_manager_with_webdav, account_manager, new_bridge_driver, resolve_for, url_of, log_in,
}

-- Two maps by user name have the same accounts.
by_username_both {ℓ κ} :
    {V : Type ℓ} {W : Type κ} (f : AccountConfig → V) (g : AccountConfig → W)
    (accounts : List AccountConfig) (m : Map Bytes V) (n : Map Bytes W) (user : Bytes)
    → ((a : AccountConfig) × (a.username ≡ user)
        × (lookup user (by_username f accounts m) ≡ some (f a))
        × (lookup user (by_username g accounts n) ≡ some (g a)))
      ⊎ ((lookup user (by_username f accounts m) ≡ lookup user m)
          × (lookup user (by_username g accounts n) ≡ lookup user n))
unfolding by_username
by_username_both f g [] m n user = inr (refl, refl)
by_username_both f g (a ∷ more) m n user =
    elim (by_username_both f g more (insert a.username (f a) m) (insert a.username (g a) n) user) [
      | inl found ↦ inl found
      | inr (left, right) ↦ elim (Bool-cases (same a.username user)) [
        | inl here ↦ inl (
          a,
          (same_iff a.username user).0 here,
          left ∙ lookup-insert a.username user (f a) m ∙ rw here refl,
          right ∙ lookup-insert a.username user (g a) n ∙ rw here refl,
        )
        | inr other ↦ inr (
          left ∙ lookup-insert a.username user (f a) m ∙ rw other refl,
          right ∙ lookup-insert a.username user (g a) n ∙ rw other refl,
        )
      ]
    ]

-- An account that a login finds has its target and its transfer manager.
module _ {S : Type 0} (t : Transport S) where
  -- The driver's settings are those of a configuration.
  pub record IsBuilt (cfg : Config) (d : Driver S) : Type 0 where
    pub accounts : d.login.accounts ≡ by_username account_of cfg.accounts []
    pub global_url : d.login.global_webdav_url ≡ cfg.ocis.webdav_url
    pub targets : d.targets ≡ by_username drive_target_of cfg.accounts []
    pub managers :
        d.transfer_managers ≡ by_username (account_manager t cfg.ocis.webdav_url) cfg.accounts []

  pub new_bridge_driver-IsBuilt :
      (cfg : Config) (limits : RateLimits) → IsBuilt cfg (new_bridge_driver t cfg limits)
  unfolding new_bridge_driver
  new_bridge_driver-IsBuilt cfg limits = record {
    accounts = refl;
    global_url = refl;
    targets = refl;
    managers = refl;
  }

-- A login leaves the accounts and the global URL.
abbrev Keeps : LoginDriver → LoginDriver → Type 0
Keeps d e = (e.accounts ≡ d.accounts) × (e.global_webdav_url ≡ d.global_webdav_url)

open_session-Keeps :
    (d : LoginDriver) (now id : ℕ) (ip user : Bytes) (a : Account) (url : Option Bytes)
    → Keeps d (open_session d now id ip user a url).1
unfolding open_session with_tracker register
open_session-Keeps d now id ip user a url =
    elim (Bool-cases (same a.ocis_username [] || same a.app_token [])) [
      | inl e ↦ rw e (refl, refl)
      | inr e ↦ elim (Option-cases url) [
        | inl u ↦ rw (e, u) (refl, refl)
        | inr (x, u) ↦ rw (e, u) (refl, refl)
      ]
    ]

verify_login-Keeps :
    (verify : Bytes → Bytes → Option Bool) (d : LoginDriver) (now id : ℕ) (ip user password : Bytes)
    (resolve_drive : Account → Option Bytes)
    → Keeps d (verify_login verify d now id ip user password resolve_drive).1
unfolding verify_login with_tracker
verify_login-Keeps verify d now id ip user password resolve_drive =
    elim (Bool-cases (at_limit d.max_connections d.connections.active_connections)) [
      | inl e ↦ simp e (refl, refl)
      | inr e ↦ elim (Bool-cases (leb auth_semaphore_size d.verifying)) [
        | inl f ↦ simp (e, f) (refl, refl)
        | inr f ↦ elim (Result-cases (authenticate_user verify d.accounts user password)) [
          | inl (x, g) ↦ simp (e, f, g) (refl, refl)
          | inr (a, g) ↦ simp (e, f, g) (open_session-Keeps d now id ip user a (resolve_drive a))
        ]
      ]
    ]

after_lock-Keeps :
    (verify : Bytes → Bytes → Option Bool) (d : LoginDriver) (now id : ℕ) (ip user password : Bytes)
    (resolve_drive : Account → Option Bytes) (lock : Option AuthAttemptTracker × Bool)
    → Keeps d (after_lock verify d now id ip user password resolve_drive lock).1
unfolding after_lock with_tracker
after_lock-Keeps verify d now id ip user password resolve_drive (t, true) = (refl, refl)
after_lock-Keeps verify d now id ip user password resolve_drive (t, false) =
    verify_login-Keeps verify (record d { auth_attempt_tracker = t }) now id ip user password
      resolve_drive

auth_user-Keeps :
    (verify : Bytes → Bytes → Option Bool) (d : LoginDriver) (now id : ℕ)
    (addr user password : Bytes) (resolve_drive : Account → Option Bytes)
    → Keeps d (auth_user verify d now id addr user password resolve_drive).1
unfolding auth_user
auth_user-Keeps verify d now id addr user password resolve_drive =
    elim (Bool-cases d.shutting_down) [
      | inl e ↦ simp e (refl, refl)
      | inr e ↦ simp e (
          after_lock-Keeps verify d now id (extract_client_ip addr) user password resolve_drive
            (check_lock d.auth_attempt_tracker now (extract_client_ip addr)))
    ]

url_of-some :
    (r : Result DriveError Drive) (url : Bytes)
    → url_of r ≡ some url
    → (drive : Drive) × (r ≡ ok drive) × (drive.webdav_url ≡ url)
url_of-some (err e) url h = cc
url_of-some (ok drive) url h = (drive, refl, ground arith)

not_listed : (user : Bytes) (a : Account) → lookup user [] ≡ some a → ⊥
unfolding lookup
not_listed user a h = cc

module _ {S : Type 0} (t : Transport S) (cfg : Config) (sdk : Sdk) where
  -- The account of a session, the endpoint that its uploads go to, and the one that its transfer manager
  -- asks for collisions and creates directories at.
  pub record Endpoints (d : Driver S) (now : ℕ) (user : Bytes) (s : Session) : Type 0 where
    pub account : AccountConfig
    pub name : account.username ≡ user
    pub drive : Drive
    pub resolved : (resolve_for sdk d now user (account_of account)).0 ≡ ok drive
    pub upload_url :
        s.webdav_url ≡ (if same drive.webdav_url [] then cfg.ocis.webdav_url else drive.webdav_url)
    pub username : s.username ≡ account.ocis.username
    pub token : s.token ≡ account.app_token
    pub manager : TransferManager S WebdavError
    pub managed : lookup user d.transfer_managers ≡ some manager
    pub manager_client :
        manager.webdav_client
        ≡ some (
            transfer_client t
              (new_webdav_client cfg.ocis.webdav_url account.ocis.username account.app_token))
    pub target : lookup user manager.target_configs ≡ some (target_of account)

  manager_target :
      (a : AccountConfig) (user : Bytes)
      → a.username ≡ user
      → lookup user (account_manager t cfg.ocis.webdav_url a).target_configs ≡ some (target_of a)
  unfolding account_manager add_target new_transfer_manager_with_webdav
  manager_target a user name = rw (← name) (lookup-insert_self a.username (target_of a) [])

  manager_client_is :
      (a : AccountConfig)
      → (account_manager t cfg.ocis.webdav_url a).webdav_client
        ≡ some
            (transfer_client t (new_webdav_client cfg.ocis.webdav_url a.ocis.username a.app_token))
  unfolding account_manager add_target new_transfer_manager_with_webdav
  manager_client_is a = refl

  -- A login keeps the driver built from the configuration.
  pub log_in-IsBuilt :
      (verify : Bytes → Bytes → Option Bool) (d : Driver S) (now id : ℕ)
      (addr user password : Bytes)
      → IsBuilt t cfg d
      → IsBuilt t cfg (log_in verify sdk d now id addr user password).1
  unfolding log_in
  log_in-IsBuilt verify d now id addr user password built =
      let (accounts, url) =
        auth_user-Keeps verify d.login now id addr user password
          (λ (a : Account). url_of (resolve_for sdk d now user a).0) in
      record {
        accounts = accounts ∙ built.accounts;
        global_url = url ∙ built.global_url;
        targets = built.targets;
        managers = built.managers;
      }

  -- Over a driver that is built from a configuration, a login that succeeds is one of an account of the
  -- configuration, with its oCIS credentials. Its uploads go to the WebDAV URL of the account's drive,
  -- or to the configured one if the drive has none; its transfer manager, which looks for collisions and
  -- creates directories, has the account's target and the same credentials, and always the
  -- configured URL.
  pub log_in-Endpoints :
      (verify : Bytes → Bytes → Option Bool) (d : Driver S) (now id : ℕ)
      (addr user password : Bytes) (s : Session)
      → IsBuilt t cfg d
      → (log_in verify sdk d now id addr user password).0 ≡ ok s
      → Endpoints d now user s
  unfolding log_in
  log_in-Endpoints verify d now id addr user password s built h =
      let resolve = λ (a : Account). url_of (resolve_for sdk d now user a).0 in
      let v = (auth_user-ok verify d.login now id addr user password resolve s h).1 in
      let (drive, found, at_url) =
        url_of-some (resolve_for sdk d now user v.account).0 v.url v.resolved in
      let known = sym (ap (lookup user) built.accounts) ∙ v.known in
      elim (by_username_both account_of (account_manager t cfg.ocis.webdav_url) cfg.accounts [] []
        user) [
          | inr (absent, other) ↦ absurd (not_listed user v.account (sym absent ∙ known))
          | inl (a, name, listed, managed) ↦
              let is : account_of a ≡ v.account = ground (arith, listed, known) in
              record {
                account = a;
                name = name;
                drive = drive;
                resolved = ap (λ x. (resolve_for sdk d now user x).0) is ∙ found;
                upload_url =
                    v.webdav_url
                    ∙ ap (λ g. if same v.url [] then g else v.url) built.global_url
                    ∙ ap (λ u. if same u [] then cfg.ocis.webdav_url else u) (sym at_url);
                username = v.username ∙ sym (ap (λ (x : Account). x.ocis_username) is);
                token = v.token ∙ sym (ap (λ (x : Account). x.app_token) is);
                manager = account_manager t cfg.ocis.webdav_url a;
                managed = ap (lookup user) built.managers ∙ managed;
                manager_client = manager_client_is a;
                target = manager_target a user name;
              }
        ]
