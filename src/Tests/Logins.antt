-- ===== src/Tests/Logins.antt =====
-- Runs of the model of pkg/ftp.
use ocis_ftp_bridge.Prelude.{
  ℕ, Bytes, codes, ◌≡◌, ◌+◌, ◌≤◌, ◌<◌, refl, Option, none, some, ok, Bool, true, false, [], ◌∷◌,
  ◌||◌, ◌==◌, ltb, List, same, length, arith, ◌⊎◌, All,
}
use ocis_ftp_bridge.Prelude.Int.{sub_ℕ}
use ocis_ftp_bridge.Prelude.Map.{lookup, insert, delete, nat_eq, bytes_eq}
use ocis_ftp_bridge.Ftp.ConnectionTracker.{new_connection_tracker, allow}
use ocis_ftp_bridge.Ftp.Connections.{Connections, client_connected, client_disconnected}
use ocis_ftp_bridge.Ftp.AuthTracker.{
  AuthAttemptInfo, AuthAttemptTracker, new_auth_attempt_tracker, is_ip_locked_out,
}
use ocis_ftp_bridge.Ftp.Login.{Account, LoginDriver, Session}
use ocis_ftp_bridge.Ftp.Connections.Counts.{held, held_from}
use ocis_ftp_bridge.Ftp.Connections.Runs.{
  fresh_driver, Reach, start, connect, turn_away, Reach_limits, active_connections_drift,
}
use ocis_ftp_bridge.Ftp.AuthTracker.Laws.{entry}
use ocis_ftp_bridge.Ftp.AuthTracker.Lockout.{
  checks, records, tidies, IsLocked, IsDuring, run, run-IsLocked,
}
use ocis_ftp_bridge.Ftp.AuthTracker.Threshold.{failures, Inside, last_of, lockout_at_limit}
use ocis_ftp_bridge.Graph.Resolver.{Drive}
use ocis_ftp_bridge.Ftp.Drives.{
  DriveError, resolve_drive_for_account, cached_drive_resolution, store_drive_resolution,
  live_entry, resolve_at, after_logins, drive_resolution_cache_ttl,
}
use ocis_ftp_bridge.Ftp.Drives.Cache.{resolved_recently}
use ocis_ftp_bridge.Prelude.{Result}
use ocis_ftp_bridge.Ftp.UploadSlots.{acquire_upload_slot}
use ocis_ftp_bridge.Ftp.UploadSlots.Running.{
  SlotEvent, begins, ends, account_of, slot_run, Running, uploads_of, slot_run-bound,
}

abbrev addr : ℕ → Bytes
addr id = codes "1.2.3.4:5"

-- One slot for each IP: the first connection gets it, the second is turned away and closed.
abbrev one : Connections
one = (client_connected (fresh_driver 1 0) 1 (addr 1)).0

abbrev two : Connections
two = client_disconnected one 2 (addr 2)

run_one : Reach addr (fresh_driver 1 0) one 0
unfolding lookup
run_one = connect 1 start refl

run_two : Reach addr (fresh_driver 1 0) two 1
unfolding lookup client_connected allow new_connection_tracker insert delete
run_two = turn_away 2 run_one refl

Reach_limits_example :
    (◌≡◌ {A = ℕ} 1 0 ⊎ held_from addr (codes "1.2.3.4") two.allowed_connections ≤ 1)
    × (◌≡◌ {A = ℕ} 0 0 ⊎ held two.allowed_connections ≤ 0)
Reach_limits_example = Reach_limits addr 1 0 run_two (codes "1.2.3.4")

active_connections_drift_example : two.active_connections ≡ sub_ℕ (held two.allowed_connections) 1
active_connections_drift_example = active_connections_drift addr 1 0 run_two

abbrev tracker : AuthAttemptTracker
tracker = new_auth_attempt_tracker 2 100 50

no_entry : entry tracker (codes "i") ≡ none
unfolding lookup new_auth_attempt_tracker
no_entry = refl

in_frame : Inside tracker 10 (20 ∷ [])
unfolding new_auth_attempt_tracker
in_frame = ((omega arith, omega arith), tt)

most : length {A = ℕ} (10 ∷ 20 ∷ []) ≤ tracker.max_attempts
unfolding new_auth_attempt_tracker
most = omega arith

in_window : 30 ≤ 10 + tracker.window
unfolding new_auth_attempt_tracker
in_window = omega arith

not_over : 30 < last_of 10 (20 ∷ []) + tracker.lockout_duration
unfolding new_auth_attempt_tracker
not_over = omega arith

lockout_at_limit_example :
    (is_ip_locked_out (run tracker (failures (codes "i") (10 ∷ 20 ∷ []))) 30 (codes "i")).1
    ≡ (length {A = ℕ} (10 ∷ 20 ∷ []) == tracker.max_attempts)
lockout_at_limit_example =
    lockout_at_limit tracker (codes "i") 10 (20 ∷ []) 30 no_entry in_frame most in_window not_over

abbrev locked : AuthAttemptTracker
locked = record tracker {
  ip_attempts =
      (
        codes "i",
        record {
          count = 2;
          first_fail = some 10;
          last_attempt = 20;
          locked_out = true;
          lockout_end = 70;
        },
      )
      ∷ [];
}

abbrev info : AuthAttemptInfo
info = record {
  count = 2;
  first_fail = some 10;
  last_attempt = 20;
  locked_out = true;
  lockout_end = 70;
}

locked_entry : entry locked (codes "i") ≡ some info
unfolding lookup
locked_entry = refl

is_locked : IsLocked locked (codes "i") 70
is_locked = record { info = info; found = locked_entry; locked = refl; ends = refl }

in_lockout : All (IsDuring locked.lockout_duration (codes "i") 70) (
    checks 25 (codes "j")
    ∷ records 28 (codes "i") false
    ∷ records 30 (codes "j") true
    ∷ tidies 40
    ∷ [])
unfolding new_auth_attempt_tracker
in_lockout = (
  omega arith,
  ((omega arith, omega arith, refl), ((omega arith, omega arith, refl), (omega arith, tt))),
)

-- A login of another IP succeeds meanwhile, and one that was let pass before the lockout fails.
run_IsLocked_example :
    (is_ip_locked_out
      (run locked (
        checks 25 (codes "j")
        ∷ records 28 (codes "i") false
        ∷ records 30 (codes "j") true
        ∷ tidies 40
        ∷ []))
      60
      (codes "i")).1
    ≡ true
run_IsLocked_example =
    run-IsLocked locked (codes "i") 70 60
      (checks 25 (codes "j")
        ∷ records 28 (codes "i") false
        ∷ records 30 (codes "j") true
        ∷ tidies 40
        ∷ [])
      is_locked in_lockout (omega arith)

abbrev verify : Bytes → Bytes → Option Bool
verify hash password = some (same hash password)

abbrev driver : LoginDriver
driver = record {
  connections = one;
  auth_attempt_tracker = some tracker;
  accounts =
      (
        codes "u",
        record { password_hash = codes "p"; ocis_username = codes "o"; app_token = codes "k" },
      )
      ∷ [];
  max_connections = 5;
  shutting_down = false;
  verifying = 0;
  global_webdav_url = codes "g";
}

abbrev session : Session
session = record {
  user = codes "u";
  webdav_url = codes "w";
  username = codes "o";
  token = codes "k";
}

abbrev drive_of : Account → Option Bytes
drive_of account = some (codes "w")

-- Two slots for everyone; the third upload is turned away, and then one ends.
abbrev two_slots : Bytes → ℕ
two_slots user = 2

abbrev uploads_of_u : List SlotEvent
uploads_of_u =
    begins (codes "u") ∷ (begins (codes "u") ∷ (begins (codes "u") ∷ (ends (codes "u") ∷ [])))

abbrev ran : Running
ran = slot_run two_slots (record { slots = []; uploads = [] }) uploads_of_u

slot_run-bound_example :
    ((two_slots (codes "u") ≡ 0) ⊎ (uploads_of (codes "u") ran.uploads ≤ two_slots (codes "u")))
    × ((acquire_upload_slot ran.slots (account_of two_slots (codes "u"))).1 ≡ (
        two_slots (codes "u") == 0
        || ltb (uploads_of (codes "u") ran.uploads) (two_slots (codes "u"))))
slot_run-bound_example = slot_run-bound two_slots uploads_of_u (codes "u")

abbrev home : Drive
home = record {
  id = codes "1";
  name = codes "n";
  description = [];
  owner = record { id = []; display_name = [] };
  root = [];
  webdav_url = codes "w";
}

abbrev always_home : ℕ → Bytes → Result DriveError Drive
always_home now user = ok home

is_cached :
    (resolve_at always_home (after_logins always_home [] ((3, codes "u") ∷ [])) 7 (codes "u")).0
    ≡ ok home
unfolding resolve_at after_logins resolve_drive_for_account cached_drive_resolution
    store_drive_resolution live_entry lookup insert delete
is_cached = refl

resolved_recently_example :
    (found : ℕ) × (found ≤ 7)
    × (7 ≤ found + drive_resolution_cache_ttl)
    × (always_home found (codes "u") ≡ ok home)
resolved_recently_example =
    resolved_recently always_home 7 ((3, codes "u") ∷ []) (codes "u") home (omega arith, tt)
      is_cached
