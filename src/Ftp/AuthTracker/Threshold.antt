-- ===== src/Ftp/AuthTracker/Threshold.antt =====
-- When a lockout starts: exactly at the failed login that reaches the limit inside the window.
use ocis_ftp_bridge.Prelude.{
  ℕ, ◌+◌, ◌≤◌, ◌<◌, ◌≡◌, refl, false, Option, none, some, List, [], ◌∷◌, arith, Bytes, Bool-cases,
  inl, inr, ap, ◌∙◌, subst, ◌==◌, length, All,
}
use ocis_ftp_bridge.Prelude.Map.{lookup, nat_eq, bytes_eq, lookup-insert_self}
use ocis_ftp_bridge.Ftp.AuthTracker.{
  AuthAttemptInfo, AuthAttemptTracker, check_entry, is_ip_locked_out, entry_or_new, count_failure,
  record_auth_attempt,
}
use ocis_ftp_bridge.Ftp.AuthTracker.Laws.{entry}
use ocis_ftp_bridge.Ftp.AuthTracker.Lockout.{IsLocked, IsLocked-check, Event, checks, records, run}

-- The IP has failed `n` times since `first`, with no lockout so far.
pub record IsCounting (t : AuthAttemptTracker) (ip : Bytes) (first n : ℕ) : Type 0 where
  pub info : AuthAttemptInfo
  pub found : entry t ip ≡ some info
  pub open_still : info.locked_out ≡ false
  pub since : info.first_fail ≡ some first
  pub counted : info.count ≡ n

-- A failed login: the check, and the record of the failure.
abbrev fail_once : AuthAttemptTracker → ℕ → Bytes → AuthAttemptTracker
fail_once t now ip = (record_auth_attempt (is_ip_locked_out t now ip).0 now ip false).0

module _ (t : AuthAttemptTracker) (ip : Bytes) (now : ℕ) where
  check_open :
      {first n : ℕ}
      → IsCounting t ip first n
      → now ≤ first + t.window
      → n < t.max_attempts
      → (is_ip_locked_out t now ip).0 ≡ t
  unfolding is_ip_locked_out check_entry
  check_open c inside below =
      rw (c.found, check_entry) (ground (arith, c.open_still, c.since, c.counted))

  -- A login that fails on an open entry with no expired window counts on that entry.
  fail_once_open :
      {first n : ℕ}
      → IsCounting t ip first n
      → now ≤ first + t.window
      → n < t.max_attempts
      → fail_once t now ip ≡ (record_auth_attempt t now ip false).0
  fail_once_open c inside below =
      ap (λ (x : AuthAttemptTracker). (record_auth_attempt x now ip false).0)
        (check_open c inside below)

  entry-record_failure :
      entry (record_auth_attempt t now ip false).0 ip
      ≡ some (count_failure t now (entry_or_new now (entry t ip))).0
  unfolding record_auth_attempt
  entry-record_failure = lookup-insert_self ip _ t.ip_attempts

  module _ {first n : ℕ} (c : IsCounting t ip first n) (inside : now ≤ first + t.window) where
    fail_once-IsCounting :
        first ≤ now → n + 1 < t.max_attempts → IsCounting (fail_once t now ip) ip first (n + 1)
    unfolding count_failure entry_or_new
    fail_once-IsCounting later below = rw (fail_once_open c inside (omega arith)) (record {
      info = (count_failure t now c.info).0;
      found = entry-record_failure ∙ rw c.found;
      open_still = ground (arith, c.open_still, c.counted);
      since = ground (arith, c.since, c.counted);
      counted = ground (arith, c.counted);
    })

    fail_once-IsLocked :
        first ≤ now
        → n + 1 ≡ t.max_attempts
        → IsLocked (fail_once t now ip) ip (now + t.lockout_duration)
    unfolding count_failure entry_or_new
    fail_once-IsLocked later full = rw (fail_once_open c inside (omega arith)) (record {
      info = (count_failure t now c.info).0;
      found = entry-record_failure ∙ rw c.found;
      locked = ground (arith, c.since, c.counted);
      ends = ground (arith, c.since, c.counted);
    })

    -- An open entry inside its window lets a login pass.
    check-IsCounting : n < t.max_attempts → (is_ip_locked_out t now ip).1 ≡ false
    unfolding is_ip_locked_out check_entry
    check-IsCounting below =
        rw (c.found, check_entry) (ground (arith, c.open_still, c.since, c.counted))

  check_first : entry t ip ≡ none → (is_ip_locked_out t now ip).0 ≡ t
  unfolding is_ip_locked_out check_entry
  check_first h = rw (h, check_entry) refl

  fail_once_first :
      entry t ip ≡ none
      → entry (fail_once t now ip) ip ≡ some (count_failure t now (entry_or_new now none)).0
  fail_once_first h =
      ap (λ (x : AuthAttemptTracker). entry (record_auth_attempt x now ip false).0 ip)
        (check_first h)
      ∙ (entry-record_failure ∙ rw h)

  first-IsCounting :
      entry t ip ≡ none → 1 < t.max_attempts → IsCounting (fail_once t now ip) ip now 1
  unfolding count_failure entry_or_new
  first-IsCounting h below = record {
    info = (count_failure t now (entry_or_new now none)).0;
    found = fail_once_first h;
    open_still = ground arith;
    since = ground arith;
    counted = ground arith;
  }

  first-IsLocked :
      entry t ip ≡ none
      → t.max_attempts ≡ 1
      → IsLocked (fail_once t now ip) ip (now + t.lockout_duration)
  unfolding count_failure entry_or_new
  first-IsLocked h only = record {
    info = (count_failure t now (entry_or_new now none)).0;
    found = fail_once_first h;
    locked = ground arith;
    ends = ground arith;
  }

-- No operation changes the limits of the tracker.
abbrev SameLimits : AuthAttemptTracker → AuthAttemptTracker → Type 0
SameLimits t u =
    (u.max_attempts ≡ t.max_attempts)
    × (u.window ≡ t.window)
    × (u.lockout_duration ≡ t.lockout_duration)

fail_once-SameLimits :
    (t : AuthAttemptTracker) (now : ℕ) (ip : Bytes) → SameLimits t (fail_once t now ip)
unfolding is_ip_locked_out check_entry record_auth_attempt
fail_once-SameLimits t now ip = check (lookup ip t.ip_attempts)
  where
    check :
        (o : Option AuthAttemptInfo)
        → SameLimits t (record_auth_attempt (check_entry t now ip o).0 now ip false).0
    check none = (refl, refl, refl)
    check (some info) = ground arith

-- Failed logins of one IP, each a check and a record, and the time of the last one.
abbrev pub failures : Bytes → List ℕ → List Event
failures ip [] = []
failures ip (now ∷ ts) = checks now ip ∷ records now ip false ∷ failures ip ts

abbrev pub last_of : ℕ → List ℕ → ℕ
last_of first [] = first
last_of first (now ∷ ts) = last_of now ts

-- Every time is inside the window that starts at `first`.
abbrev pub Inside : AuthAttemptTracker → ℕ → List ℕ → Type 0
Inside t first ts = All (λ now. (first ≤ now) × (now ≤ first + t.window)) ts

Inside-fail_once :
    (t : AuthAttemptTracker) (ip : Bytes) (now first : ℕ) (ts : List ℕ)
    → Inside t first ts
    → Inside (fail_once t now ip) first ts
Inside-fail_once t ip now first ts h = rw (fail_once-SameLimits t now ip).1 h

run-IsCounting :
    (t : AuthAttemptTracker) (ip : Bytes) (first n : ℕ) (ts : List ℕ)
    → IsCounting t ip first n
    → Inside t first ts
    → n + length ts < t.max_attempts
    → IsCounting (run t (failures ip ts)) ip first (n + length ts)
unfolding run
run-IsCounting t ip first n [] c h below = subst (IsCounting t ip first) (omega arith) c
run-IsCounting t ip first n (now ∷ ts) c (inside, h) below =
    subst (IsCounting _ ip first) (omega arith) (
      run-IsCounting (fail_once t now ip) ip first (n + 1) ts
        (fail_once-IsCounting t ip now c inside.1 inside.0 (omega arith))
        (Inside-fail_once t ip now first ts h) (omega (arith, (fail_once-SameLimits t now ip).0)))

run-IsLocked_full :
    (t : AuthAttemptTracker) (ip : Bytes) (first n now : ℕ) (ts : List ℕ)
    → IsCounting t ip first n
    → Inside t first (now ∷ ts)
    → n + length (now ∷ ts) ≡ t.max_attempts
    → IsLocked (run t (failures ip (now ∷ ts))) ip (last_of now ts + t.lockout_duration)
unfolding run
run-IsLocked_full t ip first n now [] c (inside, h) full =
    fail_once-IsLocked t ip now c inside.1 inside.0 (omega arith)
run-IsLocked_full t ip first n now (next ∷ ts) c (inside, h) full =
    subst (IsLocked _ ip) (ap (λ d. last_of next ts + d) (fail_once-SameLimits t now ip).2) (
      run-IsLocked_full (fail_once t now ip) ip first (n + 1) next ts
        (fail_once-IsCounting t ip now c inside.1 inside.0 (omega arith))
        (Inside-fail_once t ip now first (next ∷ ts) h)
        (omega (arith, (fail_once-SameLimits t now ip).0)))

module _ (t : AuthAttemptTracker) (ip : Bytes) (first : ℕ) (h : entry t ip ≡ none) where
  run-IsCounting_fresh :
      (ts : List ℕ)
      → Inside t first ts
      → length (first ∷ ts) < t.max_attempts
      → IsCounting (run t (failures ip (first ∷ ts))) ip first (length (first ∷ ts))
  unfolding run
  run-IsCounting_fresh ts inside below = subst (IsCounting _ ip first) (omega arith) (
      run-IsCounting (fail_once t first ip) ip first 1 ts
        (first-IsCounting t ip first h (omega arith)) (Inside-fail_once t ip first first ts inside)
        (omega (arith, (fail_once-SameLimits t first ip).0)))

  run-IsLocked_fresh :
      (ts : List ℕ)
      → Inside t first ts
      → length (first ∷ ts) ≡ t.max_attempts
      → IsLocked (run t (failures ip (first ∷ ts))) ip (last_of first ts + t.lockout_duration)
  unfolding run
  run-IsLocked_fresh [] inside full = first-IsLocked t ip first h (omega arith)
  run-IsLocked_fresh (now ∷ ts) inside full =
      subst (IsLocked _ ip) (ap (λ d. last_of now ts + d) (fail_once-SameLimits t first ip).2) (
        run-IsLocked_full (fail_once t first ip) ip first 1 now ts
          (first-IsCounting t ip first h (omega arith))
          (Inside-fail_once t ip first first (now ∷ ts) inside)
          (omega (arith, (fail_once-SameLimits t first ip).0)))

run-SameLimits :
    (t : AuthAttemptTracker) (ip : Bytes) (ts : List ℕ) → SameLimits t (run t (failures ip ts))
unfolding run
run-SameLimits t ip [] = (refl, refl, refl)
run-SameLimits t ip (now ∷ ts) =
    let (a, b, c) = fail_once-SameLimits t now ip in
    let (a', b', c') = run-SameLimits (fail_once t now ip) ip ts in (a' ∙ a, b' ∙ b, c' ∙ c)

-- From an IP without an entry, after failed logins inside one window and no more of them than the
-- limit, the check at a time inside the window, and before a lockout that began with the last of
-- them would end, answers "locked out" exactly if their number has reached the limit.
pub lockout_at_limit :
    (t : AuthAttemptTracker) (ip : Bytes) (first : ℕ) (ts : List ℕ) (now : ℕ)
    → entry t ip ≡ none
    → Inside t first ts
    → length (first ∷ ts) ≤ t.max_attempts
    → now ≤ first + t.window
    → now < last_of first ts + t.lockout_duration
    → (is_ip_locked_out (run t (failures ip (first ∷ ts))) now ip).1
      ≡ (length (first ∷ ts) == t.max_attempts)
lockout_at_limit t ip first ts now h inside most early before =
    elim (Bool-cases (length (first ∷ ts) == t.max_attempts)) [
      | inl full ↦ rw full (
          ap (λ p. p.1)
            (IsLocked-check (run t (failures ip (first ∷ ts))) now _ ip
              (run-IsLocked_fresh t ip first h ts inside (ground arith)) before))
      | inr few ↦ rw few (
          check-IsCounting (run t (failures ip (first ∷ ts))) ip now
            (run-IsCounting_fresh t ip first h ts inside (ground arith))
            (omega (arith, (run-SameLimits t ip (first ∷ ts)).1))
            (ground (arith, (run-SameLimits t ip (first ∷ ts)).0)))
    ]
