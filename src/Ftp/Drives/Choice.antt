-- ===== src/Ftp/Drives/Choice.antt =====
-- Which drive a fresh resolution chooses.
use ocis_ftp_bridge.Prelude.{
  ◌≤◌, ◌≡◌, sym, ap, ◌∙◌, true, false, some, ltb, Bytes, same, same_iff, List, [], ◌∷◌, arith,
  Bool-cases, inl, inr, Option-cases, ok, ok-injective,
}
use ocis_ftp_bridge.Prelude.Map.{bytes_eq}
use ocis_ftp_bridge.Graph.Resolver.{Drive}
use ocis_ftp_bridge.Ftp.Drives.{
  DriveTarget, Drives, DriveError, count_matches, find_named, resolve_drive_fresh,
}

-- What a configured drive is: the drive of the id that is set, or, with only a name set, the one
-- drive of that name among those listed.
pub data IsConfigured (client : Drives) (account : DriveTarget) (d : Drive) : Type 0 where
  of_id :
      same account.drive_id [] ≡ false
      → client.resolve_drive account.drive_id ≡ some d
      → IsConfigured client account d
  of_name :
      (drives : List Drive)
      → same account.drive_id [] ≡ true
      → same account.drive [] ≡ false
      → client.list_drives ≡ some drives
      → d.name ≡ account.drive
      → count_matches account.drive drives ≤ 1
      → IsConfigured client account d

find_named-ok :
    (name : Bytes) (all ds : List Drive) (d : Drive)
    → find_named name all ds ≡ ok d
    → (d.name ≡ name) × (count_matches name all ≤ 1)
unfolding find_named
find_named-ok name all [] d h = cc
find_named-ok name all (x ∷ ds) d h = elim (Bool-cases (same x.name name)) [
  | inr f ↦ find_named-ok name all ds d (ground arith)
  | inl t ↦ elim (Bool-cases (ltb 1 (count_matches name all))) [
    | inl many ↦ ground arith
    | inr one ↦
        let eq : x ≡ d = ok-injective {E = DriveError} (ground arith) in
        (sym (ap (λ (y : Drive). y.name) eq) ∙ (same_iff x.name name).0 t, ground arith)
  ]
]

-- When `resolveDriveFresh` finds a drive, an id was set and the drive is the one of that id, or only
-- a name was set and the drive has it and no two of the listed drives do.
resolve_drive_fresh-ok :
    (client : Drives) (account : DriveTarget) (d : Drive)
    → resolve_drive_fresh client account ≡ ok d
    → IsConfigured client account d
unfolding resolve_drive_fresh
resolve_drive_fresh-ok client account d h = elim (Bool-cases (same account.drive_id [])) [
  | inr i ↦ elim (Option-cases (client.resolve_drive account.drive_id)) [
    | inl r ↦ ground arith
    | inr (x, r) ↦
        let eq : x ≡ d = ok-injective {E = DriveError} (ground arith) in of_id i (r ∙ ap some eq)
  ]
  | inl i ↦ elim (Bool-cases (same account.drive [])) [
    | inl n ↦ ground arith
    | inr n ↦ elim (Option-cases client.list_drives) [
      | inl l ↦ ground arith
      | inr (drives, l) ↦
          let (named, one) = find_named-ok account.drive drives drives d (ground arith) in
          of_name drives i n l named one
    ]
  ]
]
