-- ===== src/Ftp/AuthTracker/Laws.antt =====
-- What each operation of the tracker does to the entry of an IP.
use ocis_ftp_bridge.Prelude.{
  ℕ, ◌+◌, ◌≡◌, ◌≢◌, refl, Bool, true, false, Option, none, some, [], ◌∷◌, arith, Bytes, same,
  Bool-cases, inl, inr, same→eq,
}
use ocis_ftp_bridge.Prelude.Map.{Map, lookup, nat_eq, bytes_eq, lookup-insert, lookup-delete}
use ocis_ftp_bridge.Ftp.AuthTracker.{
  AuthAttemptInfo, AuthAttemptTracker, locked_out_entry, check_entry, is_ip_locked_out,
  record_auth_attempt, live_entries, sweep, stale, forget, put,
}

-- The entry of an IP.
abbrev pub entry : AuthAttemptTracker → Bytes → Option AuthAttemptInfo
entry t ip = lookup ip t.ip_attempts

ne→same : (ip j : Bytes) → ip ≢ j → same ip j ≡ false
ne→same ip j h = elim (Bool-cases (same ip j)) [ inl e ↦ absurd (h (same→eq ip j e)) | inr e ↦ e ]

module _ (t : AuthAttemptTracker) (now : ℕ) (ip j : Bytes) (other : ip ≢ j) where
  -- The operations on one IP leave the entries of all others alone.
  pub entry-forget_other : entry (forget t ip) j ≡ entry t j
  unfolding forget
  entry-forget_other = rw (lookup-delete, ne→same ip j other)

  pub entry-put_other : (info : AuthAttemptInfo) → entry (put t ip info) j ≡ entry t j
  unfolding put
  entry-put_other info = rw (lookup-insert, ne→same ip j other)

  locked_out_entry_other :
      (info : AuthAttemptInfo) → entry (locked_out_entry t now ip info).0 j ≡ entry t j
  unfolding locked_out_entry
  locked_out_entry_other info = ground (
    arith,
    ne→same ip j other,
    lookup-delete ip j t.ip_attempts,
    lookup-insert ip j (record info { locked_out = true; lockout_end = now + t.lockout_duration })
        t.ip_attempts,
  )

  check_entry_other : (o : Option AuthAttemptInfo) → entry (check_entry t now ip o).0 j ≡ entry t j
  unfolding check_entry
  check_entry_other none = refl
  check_entry_other (some info) = locked_out_entry_other info

  pub entry-is_ip_locked_out_other : entry (is_ip_locked_out t now ip).0 j ≡ entry t j
  unfolding is_ip_locked_out
  entry-is_ip_locked_out_other = check_entry_other (lookup ip t.ip_attempts)

  pub entry-record_other :
      (success : Bool) → entry (record_auth_attempt t now ip success).0 j ≡ entry t j
  unfolding record_auth_attempt
  entry-record_other true = entry-forget_other
  entry-record_other false = entry-put_other _

-- `sweep` keeps an entry that is not stale.
lookup-live_entries :
    (t : AuthAttemptTracker) (now : ℕ) (ip : Bytes) (m : Map Bytes AuthAttemptInfo)
    {info : AuthAttemptInfo}
    → lookup ip m ≡ some info
    → stale t now info ≡ false
    → lookup ip (live_entries t now m) ≡ some info
unfolding live_entries lookup
lookup-live_entries t now ip [] h fresh = ground arith
lookup-live_entries t now ip ((j, w) ∷ m) {info} h fresh =
    ground (arith, lookup-live_entries t now ip m {info = info})

pub entry-sweep :
    (t : AuthAttemptTracker) (now : ℕ) (ip : Bytes) {info : AuthAttemptInfo}
    → entry t ip ≡ some info
    → stale t now info ≡ false
    → entry (sweep t now) ip ≡ some info
unfolding sweep
entry-sweep t now ip h fresh = lookup-live_entries t now ip t.ip_attempts h fresh
