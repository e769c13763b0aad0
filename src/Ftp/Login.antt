-- ===== src/Ftp/Login.antt =====
-- pkg/ftp/driver.go: `AuthUser` and `authenticateUser`. Argon2id's verification and the drive that
-- `resolveDriveForAccount` finds are arguments.
pub mod Accepted
use ocis_ftp_bridge.Prelude.{
  ℕ, ◌+◌, ◌-◌, Bool, true, false, not, ◌&&◌, ◌||◌, ltb, leb, ◌==◌, if◌then◌else◌, Option, none,
  some, Bytes, codes, same, List, [], ◌∷◌, Result, ok, err,
}
use ocis_ftp_bridge.Prelude.Int.{ℤ, pos, negsuc}
use ocis_ftp_bridge.Prelude.Map.{Map, lookup, insert, bytes_eq, nat_eq}
use ocis_ftp_bridge.Ftp.AuthTracker.{AuthAttemptTracker, is_ip_locked_out, record_auth_attempt}
use ocis_ftp_bridge.Ftp.Connections.{Connections, extract_client_ip}

pub record Account : Type 0 where
  pub password_hash : Bytes
  pub ocis_username : Bytes
  pub app_token : Bytes

pub data LoginError : Type 0 where
  server_shutting_down : LoginError
  locked_out : LoginError
  connection_limit : LoginError
  too_many_verifications : LoginError
  invalid_credentials : LoginError
  user_not_found : LoginError
  verification_failed : LoginError
  drive_failed : LoginError

-- The fields of `BridgeDriver` that a login uses. `verifying` is the number of taken places of
-- `authSemaphore`.
pub record LoginDriver : Type 0 where
  pub connections : Connections
  pub auth_attempt_tracker : Option AuthAttemptTracker
  pub accounts : Map Bytes Account
  pub max_connections : ℕ
  pub shutting_down : Bool
  pub verifying : ℕ
  pub global_webdav_url : Bytes

-- The session's WebDAV client: its URL and credentials.
pub record Session : Type 0 where
  pub user : Bytes
  pub webdav_url : Bytes
  pub username : Bytes
  pub token : Bytes

abbrev pub auth_semaphore_size : ℕ
auth_semaphore_size = 4

abbrev pub dummy_password_hash : Bytes
dummy_password_hash =
    codes
      "$argon2id$v=19$m=65536,t=3,p=4$V2HEceVvtTsIpU6Wij92vw$n/WMbvGMAALmNM9yA18u19MLN7rn16akha2yqhAWQOo"

-- `verify hash password` is `none` where `VerifyPassword` fails.
unfoldable pub check_password :
    (Bytes → Bytes → Option Bool) → Account → Bytes → Result LoginError Account
check_password verify account password =
    if same account.password_hash []
    then err invalid_credentials
    else elim (verify account.password_hash password) [
      | none ↦ err verification_failed
      | some matches ↦ if matches then ok account else err invalid_credentials
    ]

unfoldable pub authenticate_user :
    (Bytes → Bytes → Option Bool) → Map Bytes Account → Bytes → Bytes → Result LoginError Account
unfolding check_password
authenticate_user verify accounts user password = elim (lookup user accounts) [
  | none ↦ elim (verify dummy_password_hash password) [
    | none ↦ err invalid_credentials
    | some ignored ↦ err user_not_found
  ]
  | some account ↦ check_password verify account password
]

-- The lock of the address; without a tracker there is none.
unfoldable pub check_lock : Option AuthAttemptTracker → ℕ → Bytes → Option AuthAttemptTracker × Bool
check_lock none now ip = (none, false)
check_lock (some t) now ip = let (t', locked) = is_ip_locked_out t now ip in (some t', locked)

unfoldable pub record_attempt :
    Option AuthAttemptTracker → ℕ → Bytes → Bool → Option AuthAttemptTracker
record_attempt none now ip success = none
record_attempt (some t) now ip success = some (record_auth_attempt t now ip success).0

-- `current >= int64(d.maxConnections)`, where there is a limit.
unfoldable pub at_limit : ℕ → ℤ → Bool
at_limit limit (pos n) = ltb 0 limit && leb limit n
at_limit limit (negsuc n) = false

unfoldable pub with_tracker : LoginDriver → Option AuthAttemptTracker → LoginDriver
with_tracker d t = record d { auth_attempt_tracker = t }

unfoldable pub register : LoginDriver → ℕ → Bytes → LoginDriver
register d id user = record d {
  connections = record d.connections { clients = insert id user d.connections.clients };
}

-- The part of `AuthUser` after the credentials were verified.
unfoldable pub open_session :
    LoginDriver
    → ℕ
    → ℕ
    → Bytes
    → Bytes
    → Account
    → Option Bytes
    → Result LoginError Session × LoginDriver
unfolding with_tracker record_attempt register
open_session d now id ip user account drive_url =
    if same account.ocis_username [] || same account.app_token []
    then (
      err invalid_credentials,
      with_tracker d (record_attempt d.auth_attempt_tracker now ip false),
    )
    else elim drive_url [
      | none ↦ (err drive_failed, d)
      | some url ↦ (
        ok (record {
          user = user;
          webdav_url = if same url [] then d.global_webdav_url else url;
          username = account.ocis_username;
          token = account.app_token;
        }),
        with_tracker (register d id user) (record_attempt d.auth_attempt_tracker now ip true),
      )
    ]

-- The part of `AuthUser` after the lock was checked.
unfoldable pub verify_login :
    (Bytes → Bytes → Option Bool)
    → LoginDriver
    → ℕ
    → ℕ
    → Bytes
    → Bytes
    → Bytes
    → (Account → Option Bytes)
    → Result LoginError Session × LoginDriver
unfolding at_limit with_tracker record_attempt
verify_login verify d now id ip user password resolve_drive =
    if at_limit d.max_connections d.connections.active_connections
    then (err connection_limit, d)
    else if leb auth_semaphore_size d.verifying
    then (err too_many_verifications, d)
    else elim (authenticate_user verify d.accounts user password) [
      | err e ↦ (
        err invalid_credentials,
        with_tracker d (record_attempt d.auth_attempt_tracker now ip false),
      )
      | ok account ↦ open_session d now id ip user account (resolve_drive account)
    ]

unfoldable pub after_lock :
    (Bytes → Bytes → Option Bool)
    → LoginDriver
    → ℕ
    → ℕ
    → Bytes
    → Bytes
    → Bytes
    → (Account → Option Bytes)
    → Option AuthAttemptTracker × Bool
    → Result LoginError Session × LoginDriver
after_lock verify d now id ip user password resolve_drive (t, true) =
    (err locked_out, with_tracker d t)
after_lock verify d now id ip user password resolve_drive (t, false) =
    verify_login verify (with_tracker d t) now id ip user password resolve_drive

-- The semaphore's place is given back when the call returns, so `verifying` is unchanged.
unfoldable pub auth_user :
    (Bytes → Bytes → Option Bool)
    → LoginDriver
    → ℕ
    → ℕ
    → Bytes
    → Bytes
    → Bytes
    → (Account → Option Bytes)
    → Result LoginError Session × LoginDriver
unfolding after_lock
auth_user verify d now id addr user password resolve_drive =
    if d.shutting_down
    then (err server_shutting_down, d)
    else let ip = extract_client_ip addr in
      after_lock verify d now id ip user password resolve_drive
        (check_lock d.auth_attempt_tracker now ip)
