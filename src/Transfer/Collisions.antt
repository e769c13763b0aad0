-- ===== src/Transfer/Collisions.antt =====
-- pkg/transfer/transfer.go: `CheckCollision`, `GenerateUniqueFilename` and `ResolveCollision`. The clock
-- is read once, as the formatted UTC timestamp `stamp`.
pub mod Laws
use ocis_ftp_bridge.Prelude.{
  ℕ, zero, suc, ◌+◌, ◌%◌, ◌^◌, Bytes, Option, none, some, Result, ok, err, Bool, true, false, List,
  [], ◌∷◌, ◌++◌, codes, if◌then◌else◌, ◌==◌, ltb,
}
use ocis_ftp_bridge.Prelude.Map.{Map, lookup, insert, bytes_eq}
use ocis_ftp_bridge.Go.Strings.{trim_suffix}
use ocis_ftp_bridge.Go.FilePath.{join_path, ext}
use ocis_ftp_bridge.Go.Strconv.{decimal}
use ocis_ftp_bridge.Transfer.Types.{
  CollisionPolicy, rename, reject, overwrite, other_policy, TransferError, no_client,
  already_exists, no_free_name, unknown_policy, Client, TransferManager,
}

abbrev pub max_unique_filename_attempts : ℕ
max_unique_filename_attempts = 100

abbrev pub dash : Bytes
dash = codes "-"

-- The state that a method may change: the counters of the manager, and the remote side.
abbrev pub State : Type 0 → Type 0
State S = Map Bytes ℕ × S

-- `uploadCounters[basePath]`, 0 where it is missing
abbrev pub counter : Bytes → Map Bytes ℕ → ℕ
counter base m = elim (lookup base m) [ none ↦ 0 | some n ↦ n ]

-- `uploadCounters[basePath]++` on a uint64
unfoldable pub bump : Bytes → Map Bytes ℕ → Map Bytes ℕ
bump base m = insert base ((counter base m + 1) % 2 ^ 64) m

-- The two formats of a candidate; the first attempt has no counter in its name.
unfoldable pub first_candidate : Bytes → Bytes → Bytes
unfolding trim_suffix ext
first_candidate filename stamp =
    trim_suffix filename (ext filename) ++ (dash ++ (stamp ++ ext filename))

unfoldable pub counted_candidate : Bytes → Bytes → ℕ → Bytes
unfolding trim_suffix ext decimal
counted_candidate filename stamp n =
    trim_suffix filename (ext filename)
    ++ (dash ++ (stamp ++ (dash ++ (decimal n ++ ext filename))))

module _ {S E : Type 0} where
  -- An error of the remote check is swallowed: the path counts as free.
  unfoldable pub check_collision :
      Option (Client S E) → Bytes → S → Result (TransferError E) Bool × S
  check_collision none path s = (err no_client, s)
  check_collision (some client) path s =
      let (answer, s') = client.check_path_existence path s in
      elim answer [ ok exists ↦ (ok exists, s') | err e ↦ (ok false, s') ]

  module _ (client : Option (Client S E)) (stamp base_path filename : Bytes) where
    -- The attempt from 0; the counter goes up before every attempt but the first.
    unfoldable pub candidate : ℕ → Map Bytes ℕ → Bytes × Map Bytes ℕ
    candidate zero counters = (first_candidate filename stamp, counters)
    candidate (suc attempt) counters =
        let counters' = bump base_path counters in
        (counted_candidate filename stamp (counter base_path counters'), counters')

    -- The loop, with the number of rounds that are left.
    unfoldable pub try_candidates : ℕ → ℕ → State S → Result (TransferError E) Bytes × State S
    try_candidates zero attempt st = (err no_free_name, st)
    try_candidates (suc rounds) attempt (counters, s) =
        let (name, counters') = candidate attempt counters in
        let (answer, s') = check_collision client (join_path base_path name) s in
        elim answer [
          | err e ↦ (err e, (counters', s'))
          | ok taken ↦ elim taken [
            | true ↦ try_candidates rounds (suc attempt) (counters', s')
            | false ↦ (ok name, (counters', s'))
          ]
        ]

    unfoldable pub generate_unique_filename : State S → Result (TransferError E) Bytes × State S
    generate_unique_filename (counters, s) =
        let (answer, s') = check_collision client (join_path base_path filename) s in
        elim answer [
          | err e ↦ (err e, (counters, s'))
          | ok taken ↦ elim taken [
            | true ↦ try_candidates max_unique_filename_attempts 0 (counters, s')
            | false ↦ (ok filename, (counters, s'))
          ]
        ]

    unfoldable pub resolve_reject : State S → Result (TransferError E) Bytes × State S
    resolve_reject (counters, s) =
        let (answer, s') = check_collision client (join_path base_path filename) s in
        elim answer [
          | err e ↦ (err e, (counters, s'))
          | ok taken ↦ elim taken [
            | true ↦ (err (already_exists filename), (counters, s'))
            | false ↦ (ok filename, (counters, s'))
          ]
        ]

    unfoldable pub resolve_collision :
        CollisionPolicy → State S → Result (TransferError E) Bytes × State S
    resolve_collision overwrite st = (ok filename, st)
    resolve_collision reject st = resolve_reject st
    resolve_collision rename st = generate_unique_filename st
    resolve_collision (other_policy p) st = (err unknown_policy, st)
