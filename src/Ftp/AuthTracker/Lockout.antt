-- ===== src/Ftp/AuthTracker/Lockout.antt =====
-- The lockout, and that it holds until its end.
use ocis_ftp_bridge.Prelude.{
  ℕ, ◌+◌, ◌≤◌, ◌<◌, ◌≡◌, refl, sym, subst, Bool, true, false, ◌&&◌, Option, none, some, List, [],
  ◌∷◌, arith, Bytes, same, same_iff, Bool-cases, inl, inr, ap, ◌∙◌, same→eq, All,
}
use ocis_ftp_bridge.Prelude.Map.{lookup, nat_eq, bytes_eq, lookup-insert_self}
use ocis_ftp_bridge.Ftp.AuthTracker.{
  AuthAttemptInfo, AuthAttemptTracker, check_entry, is_ip_locked_out, record_auth_attempt,
  entry_or_new, count_failure, sweep, stale,
}
use ocis_ftp_bridge.Ftp.AuthTracker.Laws.{
  entry, entry-is_ip_locked_out_other, entry-record_other, entry-sweep,
}

-- The IP is locked out until `until`.
pub record IsLocked (t : AuthAttemptTracker) (ip : Bytes) (until : ℕ) : Type 0 where
  pub info : AuthAttemptInfo
  pub found : entry t ip ≡ some info
  pub locked : info.locked_out ≡ true
  pub ends : info.lockout_end ≡ until

pub IsLocked-check :
    (t : AuthAttemptTracker) (now until : ℕ) (ip : Bytes)
    → IsLocked t ip until
    → now < until
    → is_ip_locked_out t now ip ≡ (t, true)
unfolding is_ip_locked_out check_entry
IsLocked-check t now until ip l h = rw (l.found, check_entry) (ground (arith, l.locked, l.ends))

-- The IP is locked out, until this time at least.
pub record IsHeld (t : AuthAttemptTracker) (ip : Bytes) (until : ℕ) : Type 0 where
  pub info : AuthAttemptInfo
  pub found : entry t ip ≡ some info
  pub locked : info.locked_out ≡ true
  pub lasts : until ≤ info.lockout_end

pub IsLocked-IsHeld :
    (t : AuthAttemptTracker) (ip : Bytes) (until : ℕ) → IsLocked t ip until → IsHeld t ip until
IsLocked-IsHeld t ip until l = record {
  info = l.info;
  found = l.found;
  locked = l.locked;
  lasts = omega (arith, l.ends);
}

-- What a tracker is asked. `AuthUser` asks it twice, with the verification of the password between, so
-- that what other logins ask may come between.
pub data Event : Type 0 where
  checks : ℕ → Bytes → Event
  records : ℕ → Bytes → Bool → Event
  tidies : ℕ → Event

unfoldable pub run : AuthAttemptTracker → List Event → AuthAttemptTracker
run t [] = t
run t (checks now ip ∷ es) = run (is_ip_locked_out t now ip).0 es
run t (records now ip success ∷ es) = run (record_auth_attempt t now ip success).0 es
run t (tidies now ∷ es) = run (sweep t now) es

check_entry-duration :
    (t : AuthAttemptTracker) (now : ℕ) (ip : Bytes) (o : Option AuthAttemptInfo)
    → (check_entry t now ip o).0.lockout_duration ≡ t.lockout_duration
unfolding check_entry
check_entry-duration t now ip none = refl
check_entry-duration t now ip (some info) = ground arith

record-duration :
    (t : AuthAttemptTracker) (now : ℕ) (ip : Bytes) (success : Bool)
    → (record_auth_attempt t now ip success).0.lockout_duration ≡ t.lockout_duration
unfolding record_auth_attempt
record-duration t now ip true = refl
record-duration t now ip false = refl

IsHeld-entry :
    (t t' : AuthAttemptTracker) (ip : Bytes) (until : ℕ)
    → entry t' ip ≡ entry t ip
    → IsHeld t ip until
    → IsHeld t' ip until
IsHeld-entry t t' ip until e l = record {
  info = l.info;
  found = e ∙ l.found;
  locked = l.locked;
  lasts = l.lasts;
}

IsHeld-check :
    (t : AuthAttemptTracker) (now until : ℕ) (ip : Bytes)
    → IsHeld t ip until
    → now < until
    → is_ip_locked_out t now ip ≡ (t, true)
unfolding is_ip_locked_out check_entry
IsHeld-check t now until ip l h = rw (l.found, check_entry) (ground (arith, l.locked, l.lasts))

IsHeld-checks :
    (t : AuthAttemptTracker) (now : ℕ) (j ip : Bytes) (until : ℕ)
    → IsHeld t ip until
    → now < until
    → IsHeld (is_ip_locked_out t now j).0 ip until
IsHeld-checks t now j ip until l h = elim (Bool-cases (same j ip)) [
  | inl e ↦ rw (same→eq j ip e) (rw (IsHeld-check t now until ip l h) l)
  | inr e ↦
      IsHeld-entry t _ ip until
        (entry-is_ip_locked_out_other t now j ip λ p. ground (arith, p, e, same_iff j ip)) l
]

-- A failure of the locked IP may prolong its lockout, but does not shorten it.
IsHeld-fails :
    (t : AuthAttemptTracker) (now : ℕ) (ip : Bytes) (until : ℕ)
    → IsHeld t ip until
    → until ≤ now + t.lockout_duration
    → IsHeld (record_auth_attempt t now ip false).0 ip until
unfolding record_auth_attempt entry_or_new count_failure
IsHeld-fails t now ip until l late = record {
  info = (count_failure t now l.info).0;
  found = lookup-insert_self ip _ t.ip_attempts ∙ rw l.found refl;
  locked = ground (arith, l.locked);
  lasts = ground (arith, l.lasts, late);
}

IsHeld-records :
    (t : AuthAttemptTracker) (now : ℕ) (j ip : Bytes) (success : Bool) (until : ℕ)
    → IsHeld t ip until
    → until ≤ now + t.lockout_duration
    → (same j ip && success) ≡ false
    → IsHeld (record_auth_attempt t now j success).0 ip until
IsHeld-records t now j ip success until l late harmless = elim (Bool-cases (same j ip)) [
  | inl e ↦ elim (Bool-cases success) [
    | inl good ↦ ground (arith, e, good, harmless)
    | inr bad ↦ rw (same→eq j ip e, bad) (IsHeld-fails t now ip until l late)
  ]
  | inr e ↦
      IsHeld-entry t _ ip until
        (entry-record_other t now j ip (λ p. ground (arith, p, e, same_iff j ip)) success) l
]

IsHeld-sweep :
    (t : AuthAttemptTracker) (now : ℕ) (ip : Bytes) (until : ℕ)
    → IsHeld t ip until
    → now < until
    → IsHeld (sweep t now) ip until
unfolding stale
IsHeld-sweep t now ip until l h = record {
  info = l.info;
  found = entry-sweep t now ip l.found (ground (arith, l.locked, l.lasts));
  locked = l.locked;
  lasts = l.lasts;
}

-- The event is before the end of a lockout of the IP; a record comes in the time of the lockout, which
-- has this duration, and is none of a success of the IP.
abbrev pub IsDuring : ℕ → Bytes → ℕ → Event → Type 0
IsDuring duration ip until (checks now j) = now < until
IsDuring duration ip until (records now j success) =
    (now < until) × (until ≤ now + duration) × ((same j ip && success) ≡ false)
IsDuring duration ip until (tidies now) = now < until

run-IsHeld :
    (t : AuthAttemptTracker) (ip : Bytes) (until : ℕ) (es : List Event)
    → IsHeld t ip until
    → All (IsDuring t.lockout_duration ip until) es
    → IsHeld (run t es) ip until
unfolding run is_ip_locked_out sweep
run-IsHeld t ip until [] l during = l
run-IsHeld t ip until (checks now j ∷ es) l (early, during) =
    let kept = check_entry-duration t now j (lookup j t.ip_attempts) in
    run-IsHeld (is_ip_locked_out t now j).0 ip until es (IsHeld-checks t now j ip until l early)
      (subst (λ d. All (IsDuring d ip until) es) (sym kept) during)
run-IsHeld t ip until (records now j success ∷ es) l ((early, late, harmless), during) =
    run-IsHeld (record_auth_attempt t now j success).0 ip until es
      (IsHeld-records t now j ip success until l late harmless)
      (subst (λ d. All (IsDuring d ip until) es) (sym (record-duration t now j success)) during)
run-IsHeld t ip until (tidies now ∷ es) l (early, during) =
    run-IsHeld (sweep t now) ip until es (IsHeld-sweep t now ip until l early) during

-- An IP that is locked out stays so, and is told so, until the end of its lockout, whatever checks,
-- records and sweeps come in any order before that end, as long as no success of this IP is
-- recorded, and every record comes no earlier than one lockout duration before that end. A login that
-- was let pass before the lockout and whose success is recorded in it ends it.
pub run-IsLocked :
    (t : AuthAttemptTracker) (ip : Bytes) (until now : ℕ) (es : List Event)
    → IsLocked t ip until
    → All (IsDuring t.lockout_duration ip until) es
    → now < until
    → (is_ip_locked_out (run t es) now ip).1 ≡ true
run-IsLocked t ip until now es l during h =
    ap (λ p. p.1)
      (IsHeld-check (run t es) now until ip
        (run-IsHeld t ip until es (IsLocked-IsHeld t ip until l) during) h)
