-- ===== src/Ftp/Drives/Cache.antt =====
-- The drives that the cache answers with.
use ocis_ftp_bridge.Prelude.{
  ℕ, ◌+◌, ◌≤◌, ◌≡◌, refl, ◌∙◌, some, ltb, Bytes, same, same_iff, List, [], ◌∷◌, arith, Bool-cases,
  inl, inr, Option-cases, Result-cases, Result, ok, All,
}
use ocis_ftp_bridge.Prelude.Map.{Map, lookup, bytes_eq, lookup-insert}
use ocis_ftp_bridge.Graph.Resolver.{Drive}
use ocis_ftp_bridge.Ftp.Drives.{
  DriveError, DriveCacheEntry, drive_resolution_cache_ttl, live_entry, cached_drive_resolution,
  store_drive_resolution, resolve_drive_for_account, resolve_at, after_logins,
}

module _ (fresh : ℕ → Bytes → Result DriveError Drive) where
  -- The drive was found for the user by a fresh resolution at a time `found` up to `now`.
  pub record IsFound (now : ℕ) (user : Bytes) (d : Drive) (expires : ℕ) : Type 0 where
    pub found : ℕ
    pub past : found ≤ now
    pub answer : fresh found user ≡ ok d
    pub expiry : expires ≡ found + drive_resolution_cache_ttl

  abbrev IsCurrent : ℕ → Map Bytes DriveCacheEntry → Type 0
  IsCurrent now cache =
      (user : Bytes) (e : DriveCacheEntry)
      → lookup user cache ≡ some e
      → IsFound now user e.drive e.expires_at

  store-IsCurrent :
      (now at : ℕ) (cache : Map Bytes DriveCacheEntry) (user : Bytes) (d : Drive)
      → IsCurrent now cache
      → at ≤ now
      → fresh at user ≡ ok d
      → IsCurrent now (store_drive_resolution cache at user d)
  unfolding store_drive_resolution
  store-IsCurrent now at cache user d w past h name e there =
      let new : DriveCacheEntry = record {
        drive = d;
        expires_at = at + drive_resolution_cache_ttl;
      } in
      let entry = lookup-insert user name new cache in
      elim (Bool-cases (same user name)) [
        | inl t ↦
            let is : user ≡ name = (same_iff user name).0 t in
            let eq : new ≡ e = ground arith in
            rw (← is) (rw (← eq) (record { found = at; past = past; answer = h; expiry = refl }))
        | inr t ↦ w name e (ground arith)
      ]

  resolve-IsCurrent :
      (now at : ℕ) (cache : Map Bytes DriveCacheEntry) (user : Bytes)
      → IsCurrent now cache
      → at ≤ now
      → IsCurrent now (resolve_at fresh cache at user).1
  unfolding resolve_at resolve_drive_for_account
  resolve-IsCurrent now at cache user w past =
      elim (Option-cases (cached_drive_resolution cache at user)) [
        | inr (d, c) ↦ rw (c, resolve_at, resolve_drive_for_account) w
        | inl c ↦ elim (Result-cases (fresh at user)) [
          | inl (e, f) ↦ rw (c, resolve_at, resolve_drive_for_account) (rw f w)
          | inr (d, f) ↦
              rw (c, resolve_at, resolve_drive_for_account)
                (rw f (store-IsCurrent now at cache user d w past f))
        ]
      ]

  after_logins-IsCurrent :
      (now : ℕ) (cache : Map Bytes DriveCacheEntry) (logins : List (ℕ × Bytes))
      → IsCurrent now cache
      → All (λ l. l.0 ≤ now) logins
      → IsCurrent now (after_logins fresh cache logins)
  unfolding after_logins
  after_logins-IsCurrent now cache [] w past = w
  after_logins-IsCurrent now cache ((at, user) ∷ more) w past =
      after_logins-IsCurrent now (resolve_at fresh cache at user).1 more
        (resolve-IsCurrent now at cache user w past.0) past.1

  -- After logins up to a time, starting from an empty cache, the drive that `resolveDriveForAccount`
  -- answers with at that time was found for the same user by a fresh resolution then or at most the
  -- cache's time to live before.
  pub resolved_recently :
      (now : ℕ) (logins : List (ℕ × Bytes)) (user : Bytes) (d : Drive)
      → All (λ l. l.0 ≤ now) logins
      → (resolve_at fresh (after_logins fresh [] logins) now user).0 ≡ ok d
      → (found : ℕ) × (found ≤ now)
        × (now ≤ found + drive_resolution_cache_ttl)
        × (fresh found user ≡ ok d)
  unfolding resolve_at resolve_drive_for_account cached_drive_resolution live_entry lookup
  resolved_recently now logins user d past h =
      let cache = after_logins fresh [] logins in
      let w = after_logins-IsCurrent now [] logins (λ name e h. cc) past in
      elim (Option-cases (lookup user cache)) [
        | inl n ↦ (now, omega arith, omega arith, ground arith)
        | inr (e, n) ↦ elim (Bool-cases (ltb e.expires_at now)) [
          | inl t ↦ (now, omega arith, omega arith, ground arith)
          | inr t ↦
              let f = w user e n in
              let eq : ◌≡◌ {A = Result DriveError Drive} (ok e.drive) (ok d) = ground arith in
              (f.found, f.past, ground (arith, f.expiry), f.answer ∙ eq)
        ]
      ]
