-- ===== src/Ftp/ConnectionTracker/Laws.antt =====
-- What `allow`, `release` and `sweep` do to the counts of the tracker.
use ocis_ftp_bridge.Prelude.{
  ℕ, zero, suc, ◌+◌, ◌-◌, ◌<◌, ◌≡◌, refl, Bool, true, false, not, ◌&&◌, Option, none, some, [], ◌∷◌,
  arith, Bytes, same, same_iff, if◌then◌else◌, leb, ltb,
}
use ocis_ftp_bridge.Prelude.Map.{Map, lookup, bytes_eq, lookup-insert, lookup-delete, Distinct}
use ocis_ftp_bridge.Ftp.ConnectionTracker.{
  ConnectionTracker, allow, release, drop_one, sweep, positive_entries, count_or_zero,
}

-- The connections counted for an IP.
abbrev pub count_at : Bytes → ConnectionTracker → ℕ
count_at ip ct = count_or_zero (lookup ip ct.ip_connections)

-- One more for the IP `ip`, read at `j`.
abbrev pub plus_at : Bytes → Bytes → ℕ
plus_at ip j = if same ip j then 1 else 0

-- A connection is let in exactly while neither limit is reached.
abbrev pub room : ConnectionTracker → Bytes → Bool
room ct ip =
    not (ltb 0 ct.max_global && leb ct.max_global ct.global_count)
    && not (ltb 0 ct.max_per_ip && leb ct.max_per_ip (count_at ip ct))

module _ (ct : ConnectionTracker) (ip : Bytes) where
  pub allow-room : (allow ct ip).1 ≡ room ct ip
  unfolding allow
  allow-room = ground arith

  pub allow_refused : (allow ct ip).1 ≡ false → (allow ct ip).0 ≡ ct
  unfolding allow
  allow_refused h = ground arith

  pub count_at-allow :
      (j : Bytes)
      → (allow ct ip).1 ≡ true
      → count_at j (allow ct ip).0 ≡ count_at j ct + plus_at ip j
  unfolding allow
  count_at-allow j h =
      ground (arith, lookup-insert ip j (count_at ip ct + 1) ct.ip_connections, same_iff ip j)

  pub global_count-allow :
      (allow ct ip).1 ≡ true → (allow ct ip).0.global_count ≡ ct.global_count + 1
  unfolding allow
  global_count-allow h = ground arith

  pub limits-allow :
      ((allow ct ip).0.max_per_ip ≡ ct.max_per_ip) × ((allow ct ip).0.max_global ≡ ct.max_global)
  unfolding allow
  limits-allow = ground arith

  pub limits-release :
      ((release ct ip).max_per_ip ≡ ct.max_per_ip) × ((release ct ip).max_global ≡ ct.max_global)
  unfolding release
  limits-release = (refl, refl)

  pub global_count-release : (release ct ip).global_count ≡ ct.global_count - 1
  unfolding release
  global_count-release = ground arith

count-drop_one :
    (m : Map Bytes ℕ) (ip j : Bytes) (o : Option ℕ)
    → lookup ip m ≡ o
    → count_or_zero (lookup j (drop_one m ip o)) ≡ count_or_zero (lookup j m) - plus_at ip j
unfolding drop_one
count-drop_one m ip j none h = ground (arith, same_iff ip j)
count-drop_one m ip j (some zero) h = ground (arith, same_iff ip j)
count-drop_one m ip j (some (suc n)) h =
    ground (arith, same_iff ip j, lookup-insert ip j n m, lookup-delete ip j m)

pub count_at-release :
    (ct : ConnectionTracker) (ip j : Bytes)
    → count_at j (release ct ip) ≡ count_at j ct - plus_at ip j
unfolding release
count_at-release ct ip j = count-drop_one ct.ip_connections ip j (lookup ip ct.ip_connections) refl

-- Every entry counts at least one connection.
abbrev pub Positive : Map Bytes ℕ → Type 0
Positive m = (ip : Bytes) (n : ℕ) → lookup ip m ≡ some n → 0 < n

pub allow-Positive :
    (ct : ConnectionTracker) (ip : Bytes)
    → Positive ct.ip_connections
    → Positive (allow ct ip).0.ip_connections
unfolding allow
allow-Positive ct ip h j n e =
    ground (arith, h j n, lookup-insert ip j (count_at ip ct + 1) ct.ip_connections)

drop_one-Positive :
    (m : Map Bytes ℕ) (ip : Bytes) (o : Option ℕ) → Positive m → Positive (drop_one m ip o)
unfolding drop_one
drop_one-Positive m ip none h j n e = h j n e
drop_one-Positive m ip (some zero) h j n e = h j n e
drop_one-Positive m ip (some (suc k)) h j n e =
    ground (arith, h j n, lookup-insert ip j k m, lookup-delete ip j m)

pub release-Positive :
    (ct : ConnectionTracker) (ip : Bytes)
    → Positive ct.ip_connections
    → Positive (release ct ip).ip_connections
unfolding release
release-Positive ct ip h = drop_one-Positive ct.ip_connections ip (lookup ip ct.ip_connections) h

lookup-positive_entries :
    (m : Map Bytes ℕ) (ip : Bytes)
    → Distinct m
    → count_or_zero (lookup ip (positive_entries m)) ≡ count_or_zero (lookup ip m)
unfolding lookup positive_entries
lookup-positive_entries [] ip d = refl
lookup-positive_entries ((j, n) ∷ m) ip (fresh, d) =
    ground (arith, lookup-positive_entries m ip d, same_iff j ip)

-- The sweep changes no count.
pub count_at-sweep :
    (ct : ConnectionTracker) (ip : Bytes)
    → Distinct ct.ip_connections
    → count_at ip (sweep ct) ≡ count_at ip ct
unfolding sweep
count_at-sweep ct ip d = lookup-positive_entries ct.ip_connections ip d
