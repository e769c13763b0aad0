-- ===== src/Ftp/AuthTracker.antt =====
-- pkg/ftp/driver.go, `AuthAttemptTracker`: failed logins per IP, with a lockout. Times are nanoseconds
-- on the server's clock; the zero `time.Time` of `firstFail` is `none`. A handler holds the lock for
-- its whole body and reads the clock several times in it: the model reads it once, as `now`.
pub mod Laws
pub mod Lockout
pub mod Threshold
use ocis_ftp_bridge.Prelude.{
  ℕ, ◌+◌, ◌-◌, Bool, true, false, ◌&&◌, Option, none, some, [], ◌∷◌, ltb, leb, if◌then◌else◌, Bytes,
}
use ocis_ftp_bridge.Prelude.Map.{Map, lookup, insert, delete, bytes_eq}

pub record AuthAttemptInfo : Type 0 where
  pub count : ℕ
  pub first_fail : Option ℕ
  pub last_attempt : ℕ
  pub locked_out : Bool
  pub lockout_end : ℕ

pub record AuthAttemptTracker : Type 0 where
  pub ip_attempts : Map Bytes AuthAttemptInfo
  pub max_attempts : ℕ
  pub window : ℕ
  pub lockout_duration : ℕ

unfoldable pub new_auth_attempt_tracker : ℕ → ℕ → ℕ → AuthAttemptTracker
new_auth_attempt_tracker max_attempts window lockout_duration = record {
  ip_attempts = [];
  max_attempts = max_attempts;
  window = window;
  lockout_duration = lockout_duration;
}

-- `!firstFail.IsZero() && now.Sub(firstFail) > window`
unfoldable pub window_expired : AuthAttemptTracker → ℕ → AuthAttemptInfo → Bool
window_expired t now info = elim (info.first_fail) [
  | none ↦ false
  | some first ↦ ltb t.window (now - first)
]

abbrev pub is_zero : Option ℕ → Bool
is_zero none = true
is_zero (some first) = false

unfoldable pub forget : AuthAttemptTracker → Bytes → AuthAttemptTracker
forget t ip = record t { ip_attempts = delete ip t.ip_attempts }

unfoldable pub put : AuthAttemptTracker → Bytes → AuthAttemptInfo → AuthAttemptTracker
put t ip info = record t { ip_attempts = insert ip info t.ip_attempts }

-- The body of `IsIPLockedOut` for an IP that has an entry.
unfoldable pub locked_out_entry :
    AuthAttemptTracker → ℕ → Bytes → AuthAttemptInfo → AuthAttemptTracker × Bool
unfolding window_expired forget put
locked_out_entry t now ip info =
    if info.locked_out
    then (if ltb now info.lockout_end then (t, true) else (forget t ip, false))
    else if window_expired t now info
    then (forget t ip, false)
    else if (if is_zero info.first_fail then false else leb t.max_attempts info.count)
    then (
      put t ip (record info { locked_out = true; lockout_end = now + t.lockout_duration }),
      true,
    )
    else (t, false)

-- The body of `IsIPLockedOut` past the lookup.
unfoldable pub check_entry :
    AuthAttemptTracker → ℕ → Bytes → Option AuthAttemptInfo → AuthAttemptTracker × Bool
unfolding locked_out_entry
check_entry t now ip none = (t, false)
check_entry t now ip (some info) = locked_out_entry t now ip info

unfoldable pub is_ip_locked_out : AuthAttemptTracker → ℕ → Bytes → AuthAttemptTracker × Bool
is_ip_locked_out t now ip = check_entry t now ip (lookup ip t.ip_attempts)

-- The entry that a failed attempt counts on: the one there is, or a new one.
unfoldable pub entry_or_new : ℕ → Option AuthAttemptInfo → AuthAttemptInfo
entry_or_new now none = record {
  count = 0;
  first_fail = none;
  last_attempt = now;
  locked_out = false;
  lockout_end = 0;
}
entry_or_new now (some info) = info

abbrev pub or_now : ℕ → Option ℕ → ℕ
or_now now none = now
or_now now (some first) = first

-- The entry after a failed attempt, and the answer of `RecordAuthAttempt`.
unfoldable pub count_failure : AuthAttemptTracker → ℕ → AuthAttemptInfo → AuthAttemptInfo × Bool
count_failure t now info =
    let first = or_now now info.first_fail in
    let counted = record info {
      count = info.count + 1;
      last_attempt = now;
      first_fail = some first;
    } in
    if leb t.max_attempts (info.count + 1)
    then if leb (now - first) t.window
      then (record counted { locked_out = true; lockout_end = now + t.lockout_duration }, false)
      else (record counted { count = 1; first_fail = some now }, true)
    else (counted, true)

unfoldable pub record_auth_attempt :
    AuthAttemptTracker → ℕ → Bytes → Bool → AuthAttemptTracker × Bool
unfolding entry_or_new count_failure forget put
record_auth_attempt t now ip true = (forget t ip, true)
record_auth_attempt t now ip false =
    let (info, ok) = count_failure t now (entry_or_new now (lookup ip t.ip_attempts)) in
    (put t ip info, ok)

-- Whether `sweep` drops an entry.
unfoldable pub stale : AuthAttemptTracker → ℕ → AuthAttemptInfo → Bool
unfolding window_expired
stale t now info = if info.locked_out then ltb info.lockout_end now else window_expired t now info

-- The loop of `sweep` over the entries.
unfoldable pub live_entries :
    AuthAttemptTracker → ℕ → Map Bytes AuthAttemptInfo → Map Bytes AuthAttemptInfo
unfolding stale
live_entries t now [] = []
live_entries t now ((ip, info) ∷ m) =
    let rest = live_entries t now m in if stale t now info then rest else (ip, info) ∷ rest

unfoldable pub sweep : AuthAttemptTracker → ℕ → AuthAttemptTracker
unfolding live_entries
sweep t now = record t { ip_attempts = live_entries t now t.ip_attempts }
