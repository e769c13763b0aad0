-- ===== src/Ftp/Drives.antt =====
-- pkg/ftp/driver.go: `resolveDriveForAccount`, its cache, and `resolveDriveFresh`. The Graph client's
-- `ResolveDrive` and `ListDrives` are parameters, in which `none` is an error; times are nanoseconds.
pub mod Cache
pub mod Choice
use ocis_ftp_bridge.Prelude.{
  ℕ, ◌+◌, ◌≤◌, ◌≡◌, refl, sym, ap, ◌∙◌, true, false, Option, none, some, ltb, if◌then◌else◌, Bytes,
  same, same_iff, List, [], ◌∷◌, arith, Bool-cases, inl, inr, Option-cases, Result-cases, Result,
  ok, err, All, ok-injective,
}
use ocis_ftp_bridge.Prelude.Map.{Map, lookup, insert, bytes_eq, lookup-insert}
use ocis_ftp_bridge.Graph.Resolver.{Drive}

pub record DriveTarget : Type 0 where
  pub username : Bytes
  pub drive_id : Bytes
  pub drive : Bytes

-- The Graph client with the account's credentials.
pub record Drives : Type 0 where
  pub resolve_drive : Bytes → Option Drive
  pub list_drives : Option (List Drive)

pub data DriveError : Type 0 where
  resolve_failed : DriveError
  list_failed : DriveError
  ambiguous_name : DriveError
  drive_not_found : DriveError
  no_drive_configured : DriveError

-- The inner loop: how many drives have the name.
unfoldable pub count_matches : Bytes → List Drive → ℕ
count_matches name [] = 0
count_matches name (d ∷ ds) =
    let rest = count_matches name ds in if same d.name name then 1 + rest else rest

-- The outer loop over the drives `ds` of `all`.
unfoldable pub find_named : Bytes → List Drive → List Drive → Result DriveError Drive
find_named name all [] = err drive_not_found
find_named name all (d ∷ ds) =
    let rest = find_named name all ds in
    if same d.name name
    then (if ltb 1 (count_matches name all) then err ambiguous_name else ok d)
    else rest

unfoldable pub resolve_drive_fresh : Drives → DriveTarget → Result DriveError Drive
unfolding find_named
resolve_drive_fresh client account =
    if same account.drive_id []
    then if same account.drive [] then err no_drive_configured else elim client.list_drives [
      | none ↦ err list_failed
      | some drives ↦ find_named account.drive drives drives
    ]
    else elim (client.resolve_drive account.drive_id) [ none ↦ err resolve_failed | some d ↦ ok d ]

pub record DriveCacheEntry : Type 0 where
  pub drive : Drive
  pub expires_at : ℕ

-- Five minutes.
abbrev pub drive_resolution_cache_ttl : ℕ
drive_resolution_cache_ttl = 300000000000

unfoldable pub live_entry : ℕ → Option DriveCacheEntry → Option Drive
live_entry now none = none
live_entry now (some e) = if ltb e.expires_at now then none else some e.drive

unfoldable pub cached_drive_resolution : Map Bytes DriveCacheEntry → ℕ → Bytes → Option Drive
unfolding live_entry
cached_drive_resolution cache now user = live_entry now (lookup user cache)

unfoldable pub store_drive_resolution :
    Map Bytes DriveCacheEntry → ℕ → Bytes → Drive → Map Bytes DriveCacheEntry
store_drive_resolution cache now user d =
    insert user (record { drive = d; expires_at = now + drive_resolution_cache_ttl }) cache

-- The answer of `resolveDriveForAccount`, given what a fresh resolution finds, and the new cache.
unfoldable pub resolve_drive_for_account :
    Map Bytes DriveCacheEntry
    → ℕ
    → Bytes
    → Result DriveError Drive
    → Result DriveError Drive × Map Bytes DriveCacheEntry
unfolding cached_drive_resolution store_drive_resolution
resolve_drive_for_account cache now user fresh = elim (cached_drive_resolution cache now user) [
  | some d ↦ (ok d, cache)
  | none ↦ elim fresh [
    | err e ↦ (err e, cache)
    | ok d ↦ (ok d, store_drive_resolution cache now user d)
  ]
]

-- What a fresh resolution would find for a user at a time.
module _ (fresh : ℕ → Bytes → Result DriveError Drive) where
  unfoldable pub resolve_at :
      Map Bytes DriveCacheEntry → ℕ → Bytes → Result DriveError Drive × Map Bytes DriveCacheEntry
  resolve_at cache now user = resolve_drive_for_account cache now user (fresh now user)

  -- The cache after logins at some times.
  unfoldable pub after_logins :
      Map Bytes DriveCacheEntry → List (ℕ × Bytes) → Map Bytes DriveCacheEntry
  after_logins cache [] = cache
  after_logins cache ((at, user) ∷ more) = after_logins (resolve_at cache at user).1 more
