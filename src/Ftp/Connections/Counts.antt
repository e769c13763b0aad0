-- ===== src/Ftp/Connections/Counts.antt =====
-- The counts of the tracker are those of the connections that hold a slot, whatever clients do:
-- `client_connected` and `client_disconnected` over a whole run of connection events.
use ocis_ftp_bridge.Prelude.{ℕ, ◌+◌, ◌≤◌, ◌<◌, ◌≡◌, Bool, true, none, some, arith, Bytes, same_iff}
use ocis_ftp_bridge.Prelude.Map.{
  Map, lookup, insert, delete, nat_eq, bytes_eq, Distinct, Distinct-insert, Distinct-delete, total,
  total-insert, total-delete,
}
use ocis_ftp_bridge.Ftp.ConnectionTracker.{ConnectionTracker, allow, release}
use ocis_ftp_bridge.Ftp.ConnectionTracker.Laws.{
  count_at, plus_at, allow-room, count_at-allow, global_count-allow, limits-allow, limits-release,
  count_at-release, global_count-release, Positive, allow-Positive, release-Positive,
}
use ocis_ftp_bridge.Ftp.Connections.{extract_client_ip}

abbrev pub one : ℕ → Bool → ℕ
one id h = 1

-- How many connections hold a slot.
abbrev pub held : Map ℕ Bool → ℕ
held m = total one m

pub held-insert :
    (id : ℕ) (m : Map ℕ Bool)
    → Distinct m
    → lookup id m ≡ none
    → held (insert id true m) ≡ held m + 1
held-insert id m d h = ground (arith, total-insert one id true m d)

pub held-delete :
    (id : ℕ) (m : Map ℕ Bool) {b : Bool}
    → Distinct m
    → lookup id m ≡ some b
    → held (delete id m) + 1 ≡ held m
held-delete id m d h = ground (arith, total-delete one id m d)

-- Every connection id has one remote address for its whole life.
module _ (addr : ℕ → Bytes) where
  abbrev pub ip_of : ℕ → Bytes
  ip_of id = extract_client_ip (addr id)

  abbrev pub at_ip : Bytes → ℕ → Bool → ℕ
  at_ip ip id h = plus_at (ip_of id) ip

  -- How many connections from an IP hold a slot.
  abbrev pub held_from : Bytes → Map ℕ Bool → ℕ
  held_from ip m = total (at_ip ip) m

  pub record IsCounted (m : Map ℕ Bool) (ct : ConnectionTracker) : Type 0 where
    pub distinct : Distinct m
    pub per_ip : (ip : Bytes) → count_at ip ct ≡ held_from ip m
    pub all : ct.global_count ≡ held m
    pub positive : Positive ct.ip_connections
    pub ip_limit : 0 < ct.max_per_ip → (ip : Bytes) → held_from ip m ≤ ct.max_per_ip
    pub global_limit : 0 < ct.max_global → held m ≤ ct.max_global

  held_from-insert :
      (ip : Bytes) (id : ℕ) (m : Map ℕ Bool)
      → Distinct m
      → lookup id m ≡ none
      → held_from ip (insert id true m) ≡ held_from ip m + plus_at (ip_of id) ip
  held_from-insert ip id m d h = ground (arith, total-insert (at_ip ip) id true m d)

  held_from-delete :
      (ip : Bytes) (id : ℕ) (m : Map ℕ Bool) {b : Bool}
      → Distinct m
      → lookup id m ≡ some b
      → held_from ip (delete id m) + plus_at (ip_of id) ip ≡ held_from ip m
  held_from-delete ip id m d h = ground (arith, total-delete (at_ip ip) id m d)

  pub allow-IsCounted :
      {m : Map ℕ Bool} {ct : ConnectionTracker} (id : ℕ)
      → IsCounted m ct
      → lookup id m ≡ none
      → (allow ct (ip_of id)).1 ≡ true
      → IsCounted (insert id true m) (allow ct (ip_of id)).0
  allow-IsCounted {m} {ct} id c fresh ok = record {
    distinct = Distinct-insert id true m c.distinct;
    per_ip = λ ip. ground (
      arith,
      count_at-allow ct (ip_of id) ip ok,
      c.per_ip ip,
      held_from-insert ip id m c.distinct fresh,
    );
    all =
        ground
          (arith, global_count-allow ct (ip_of id) ok, held-insert id m c.distinct fresh, c.all);
    positive = allow-Positive ct (ip_of id) c.positive;
    ip_limit = λ h ip. ground (
      arith,
      limits-allow ct (ip_of id),
      allow-room ct (ip_of id),
      c.per_ip ip,
      c.per_ip (ip_of id),
      c.ip_limit,
      c.ip_limit (rw (← (limits-allow ct (ip_of id)).0) h) ip,
      held_from-insert ip id m c.distinct fresh,
      same_iff (ip_of id) ip,
    );
    global_limit = λ h. ground (
      arith,
      limits-allow ct (ip_of id),
      allow-room ct (ip_of id),
      c.all,
      held-insert id m c.distinct fresh,
    );
  }

  pub release-IsCounted :
      {m : Map ℕ Bool} {ct : ConnectionTracker} {b : Bool} (id : ℕ)
      → IsCounted m ct
      → lookup id m ≡ some b
      → IsCounted (delete id m) (release ct (ip_of id))
  release-IsCounted {m} {ct} id c there = record {
    distinct = Distinct-delete id m c.distinct;
    per_ip = λ ip. ground (
      arith,
      count_at-release ct (ip_of id) ip,
      c.per_ip ip,
      held_from-delete ip id m c.distinct there,
    );
    all =
        ground
          (arith, global_count-release ct (ip_of id), held-delete id m c.distinct there, c.all);
    positive = release-Positive ct (ip_of id) c.positive;
    ip_limit = λ h ip. ground (
      arith,
      limits-release ct (ip_of id),
      c.ip_limit (rw (← (limits-release ct (ip_of id)).0) h) ip,
      held_from-delete ip id m c.distinct there,
    );
    global_limit =
        λ h. ground (arith, limits-release ct (ip_of id), held-delete id m c.distinct there);
  }
