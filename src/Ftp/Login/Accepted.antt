-- ===== src/Ftp/Login/Accepted.antt =====
-- What an accepted login shows.
use ocis_ftp_bridge.Prelude.{
  ℕ, ◌≡◌, refl, sym, ap, ◌∙◌, subst, ok-injective, Bool, true, false, ◌||◌, leb, if◌then◌else◌,
  Option, some, Bytes, same, [], ok, err, arith, Bool-cases, Option-cases, Result-cases, inl, inr,
}
use ocis_ftp_bridge.Prelude.Map.{Map, lookup, bytes_eq, nat_eq, lookup-insert_self}
use ocis_ftp_bridge.Ftp.AuthTracker.{AuthAttemptTracker}
use ocis_ftp_bridge.Ftp.Connections.{extract_client_ip}
use ocis_ftp_bridge.Ftp.Login.{
  Account, LoginDriver, LoginError, server_shutting_down, Session, check_password,
  authenticate_user, check_lock, at_limit, with_tracker, register, open_session, verify_login,
  after_lock, auth_user, auth_semaphore_size, dummy_password_hash,
}

-- The account that a session belongs to: its password was verified, and the session acts with its
-- oCIS credentials at the URL of its drive, or at the global one where the drive has none.
pub record IsVerified (verify : Bytes → Bytes → Option Bool)
    (resolve_drive : Account → Option Bytes) (d : LoginDriver) (user password : Bytes) (s : Session)
    : Type 0 where
  pub account : Account
  pub known : lookup user d.accounts ≡ some account
  pub has_hash : same account.password_hash [] ≡ false
  pub verified : verify account.password_hash password ≡ some true
  pub username : s.username ≡ account.ocis_username
  pub token : s.token ≡ account.app_token
  pub url : Bytes
  pub resolved : resolve_drive account ≡ some url
  pub webdav_url : s.webdav_url ≡ (if same url [] then d.global_webdav_url else url)

check_password-ok :
    (verify : Bytes → Bytes → Option Bool) (x : Account) (password : Bytes) (a : Account)
    (user : Bytes) (accounts : Map Bytes Account)
    → lookup user accounts ≡ some x
    → check_password verify x password ≡ ok a
    → (lookup user accounts ≡ some a)
      × (same a.password_hash [] ≡ false)
      × (verify a.password_hash password ≡ some true)
unfolding check_password
check_password-ok verify x password a user accounts u h =
    elim (Bool-cases (same x.password_hash [])) [
      | inl e ↦ ground arith
      | inr e ↦ elim (Option-cases (verify x.password_hash password)) [
        | inl v ↦ ground arith
        | inr (true, v) ↦
            let eq : x ≡ a = ok-injective {E = LoginError} (ground arith) in
            (
              u ∙ ap some eq,
              subst (λ y. same y.password_hash [] ≡ false) eq e,
              subst (λ y. verify y.password_hash password ≡ some true) eq v,
            )
        | inr (false, v) ↦ ground arith
      ]
    ]

authenticate_user-ok :
    (verify : Bytes → Bytes → Option Bool) (accounts : Map Bytes Account) (user password : Bytes)
    (a : Account)
    → authenticate_user verify accounts user password ≡ ok a
    → (lookup user accounts ≡ some a)
      × (same a.password_hash [] ≡ false)
      × (verify a.password_hash password ≡ some true)
unfolding authenticate_user check_password
authenticate_user-ok verify accounts user password a h =
    elim (Option-cases (lookup user accounts)) [
      | inl u ↦ elim (Option-cases (verify dummy_password_hash password)) [
        | inl v ↦ ground arith
        | inr (b, v) ↦ ground arith
      ]
      | inr (x, u) ↦ check_password-ok verify x password a user accounts u (ground arith)
    ]

open_session-ok :
    (d : LoginDriver) (now id : ℕ) (ip user : Bytes) (a : Account) (drive_url : Option Bytes)
    (s : Session)
    → (open_session d now id ip user a drive_url).0 ≡ ok s
    → (s.username ≡ a.ocis_username)
      × (s.token ≡ a.app_token)
      × (lookup id (open_session d now id ip user a drive_url).1.connections.clients ≡ some user)
      × ((open_session d now id ip user a drive_url).1.connections.active_connections
          ≡ d.connections.active_connections)
      × (url : Bytes) × (drive_url ≡ some url)
      × (s.webdav_url ≡ (if same url [] then d.global_webdav_url else url))
unfolding open_session with_tracker register
open_session-ok d now id ip user a drive_url s h =
    elim (Bool-cases (same a.ocis_username [] || same a.app_token [])) [
      | inl e ↦ ground arith
      | inr e ↦ elim (Option-cases drive_url) [
        | inl u ↦ ground arith
        | inr (url, u) ↦ (
          ground arith,
          ground arith,
          rw (e, open_session) (rw u (lookup-insert_self id user d.connections.clients)),
          rw (e, open_session) (rw u refl),
          url,
          u,
          ground arith,
        )
      ]
    ]

verify_login-ok :
    (verify : Bytes → Bytes → Option Bool) (d : LoginDriver) (now id : ℕ) (ip user password : Bytes)
    (resolve_drive : Account → Option Bytes) (s : Session)
    → (verify_login verify d now id ip user password resolve_drive).0 ≡ ok s
    → IsVerified verify resolve_drive d user password s
      × (at_limit d.max_connections d.connections.active_connections ≡ false)
      × (lookup id
            (verify_login verify d now id ip user password resolve_drive).1.connections.clients
          ≡ some user)
      × ((verify_login verify d now id ip user password
            resolve_drive).1.connections.active_connections
          ≡ d.connections.active_connections)
unfolding verify_login
verify_login-ok verify d now id ip user password resolve_drive s h =
    elim (Bool-cases (at_limit d.max_connections d.connections.active_connections)) [
      | inl e ↦ ground arith
      | inr e ↦ elim (Bool-cases (leb auth_semaphore_size d.verifying)) [
        | inl f ↦ ground arith
        | inr f ↦ elim (Result-cases (authenticate_user verify d.accounts user password)) [
          | inl (x, g) ↦ ground arith
          | inr (a, g) ↦
              let (known, has_hash, right) =
                authenticate_user-ok verify d.accounts user password a g in
              let (name, token, registered, count, url, resolved, at_url) =
                open_session-ok d now id ip user a (resolve_drive a) s (ground arith) in
              (
                record {
                  account = a;
                  known = known;
                  has_hash = has_hash;
                  verified = right;
                  username = name;
                  token = token;
                  url = url;
                  resolved = resolved;
                  webdav_url = at_url;
                },
                e,
                rw (e, verify_login) (rw f (rw g registered)),
                rw (e, verify_login) (rw f (rw g count)),
              )
        ]
      ]
    ]

after_lock-ok :
    (verify : Bytes → Bytes → Option Bool) (d : LoginDriver) (now id : ℕ) (ip user password : Bytes)
    (resolve_drive : Account → Option Bytes) (lock : Option AuthAttemptTracker × Bool) (s : Session)
    → (after_lock verify d now id ip user password resolve_drive lock).0 ≡ ok s
    → IsVerified verify resolve_drive d user password s
      × (at_limit d.max_connections d.connections.active_connections ≡ false)
      × (lookup id
            (after_lock verify d now id ip user password resolve_drive lock).1.connections.clients
          ≡ some user)
      × ((after_lock verify d now id ip user password resolve_drive
            lock).1.connections.active_connections
          ≡ d.connections.active_connections)
unfolding after_lock with_tracker
after_lock-ok verify d now id ip user password resolve_drive (t, true) s h = cc
after_lock-ok verify d now id ip user password resolve_drive (t, false) s h =
    let (v, free, registered, count) =
      verify_login-ok verify (record d { auth_attempt_tracker = t }) now id ip user password
        resolve_drive s h in
    (
      record {
        account = v.account;
        known = v.known;
        has_hash = v.has_hash;
        verified = v.verified;
        username = v.username;
        token = v.token;
        url = v.url;
        resolved = v.resolved;
        webdav_url = v.webdav_url;
      },
      free,
      registered,
      count,
    )

pub auth_user-ok :
    (verify : Bytes → Bytes → Option Bool) (d : LoginDriver) (now id : ℕ)
    (addr user password : Bytes) (resolve_drive : Account → Option Bytes) (s : Session)
    → (auth_user verify d now id addr user password resolve_drive).0 ≡ ok s
    → (d.shutting_down ≡ false)
      × IsVerified verify resolve_drive d user password s
      × (at_limit d.max_connections d.connections.active_connections ≡ false)
      × (lookup id
            (auth_user verify d now id addr user password resolve_drive).1.connections.clients
          ≡ some user)
      × ((auth_user verify d now id addr user password
            resolve_drive).1.connections.active_connections
          ≡ d.connections.active_connections)
unfolding auth_user
auth_user-ok verify d now id addr user password resolve_drive s h =
    elim (Bool-cases d.shutting_down) [
      | inl e ↦ ground arith
      | inr e ↦
          let ip = extract_client_ip addr in
          let lock = check_lock d.auth_attempt_tracker now ip in
          let goes_on : auth_user verify d now id addr user password resolve_drive
              ≡ after_lock verify d now id ip user password resolve_drive lock =
            ap
              (λ b.
                if b
                then (err server_shutting_down, d)
                else after_lock verify d now id ip user password resolve_drive lock)
              e in
          let (v, free, registered, count) =
            after_lock-ok verify d now id ip user password resolve_drive lock s
              (ap (λ r. r.0) (sym goes_on) ∙ h) in
          (
            e,
            v,
            free,
            ap (λ r. lookup id r.1.connections.clients) goes_on ∙ registered,
            ap (λ r. r.1.connections.active_connections) goes_on ∙ count,
          )
    ]
