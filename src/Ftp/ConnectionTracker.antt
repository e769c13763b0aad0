-- ===== src/Ftp/ConnectionTracker.antt =====
-- pkg/ftp/driver.go, `ConnectionTracker`: the connection counts per IP and in all. A nil tracker is
-- `none`. A limit of 0 (or below, in Go's int) means unlimited. The counters are int64 and count open
-- sockets, so they stay far below 2 ^ 63.
pub mod Laws
use ocis_ftp_bridge.Prelude.{
  ℕ, zero, suc, ◌+◌, ◌-◌, Bool, true, false, ◌&&◌, Option, none, some, [], ◌∷◌, ltb, leb, ◌==◌,
  if◌then◌else◌, Bytes,
}
use ocis_ftp_bridge.Prelude.Map.{Map, lookup, insert, delete, bytes_eq}

pub record ConnectionTracker : Type 0 where
  pub ip_connections : Map Bytes ℕ
  pub max_per_ip : ℕ
  pub max_global : ℕ
  pub global_count : ℕ

unfoldable pub new_connection_tracker : ℕ → ℕ → ConnectionTracker
new_connection_tracker max_per_ip max_global = record {
  ip_connections = [];
  max_per_ip = max_per_ip;
  max_global = max_global;
  global_count = 0;
}

-- A missing key reads as 0.
abbrev pub count_or_zero : Option ℕ → ℕ
count_or_zero none = 0
count_or_zero (some n) = n

abbrev pub is_some {ℓ} : {A : Type ℓ} → Option A → Bool
is_some none = false
is_some (some a) = true

-- `AllowConnection` past the nil check.
unfoldable pub allow : ConnectionTracker → Bytes → ConnectionTracker × Bool
unfolding lookup
allow ct ip =
    let count = count_or_zero (lookup ip ct.ip_connections) in
    let exists = is_some (lookup ip ct.ip_connections) in
    if ltb 0 ct.max_global && leb ct.max_global ct.global_count
    then (ct, false)
    else if ltb 0 ct.max_per_ip && (exists && leb ct.max_per_ip count)
    then (ct, false)
    else (
      record ct {
        ip_connections = insert ip (count + 1) ct.ip_connections;
        global_count = ct.global_count + 1;
      },
      true,
    )

unfoldable pub allow_connection : Option ConnectionTracker → Bytes → Option ConnectionTracker × Bool
allow_connection none ip = (none, true)
allow_connection (some ct) ip = let (ct', ok) = allow ct ip in (some ct', ok)

-- The count of one IP goes down, and its entry goes at 0.
unfoldable pub drop_one : Map Bytes ℕ → Bytes → Option ℕ → Map Bytes ℕ
drop_one m ip none = m
drop_one m ip (some zero) = m
drop_one m ip (some (suc n)) = if n == 0 then delete ip m else insert ip n m

-- `ReleaseConnection` past the nil check.
unfoldable pub release : ConnectionTracker → Bytes → ConnectionTracker
unfolding drop_one
release ct ip = record ct {
  ip_connections = drop_one ct.ip_connections ip (lookup ip ct.ip_connections);
  global_count = if ltb 0 ct.global_count then ct.global_count - 1 else ct.global_count;
}

unfoldable pub release_connection : Option ConnectionTracker → Bytes → Option ConnectionTracker
release_connection none ip = none
release_connection (some ct) ip = some (release ct ip)

-- The loop of `sweep` over the entries.
unfoldable pub positive_entries : Map Bytes ℕ → Map Bytes ℕ
positive_entries [] = []
positive_entries ((ip, count) ∷ m) =
    let rest = positive_entries m in if leb count 0 then rest else (ip, count) ∷ rest

unfoldable pub sweep : ConnectionTracker → ConnectionTracker
unfolding positive_entries
sweep ct = record ct { ip_connections = positive_entries ct.ip_connections }
