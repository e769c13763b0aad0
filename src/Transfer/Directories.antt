-- ===== src/Transfer/Directories.antt =====
-- pkg/transfer/transfer.go: `EnsureParentDirectories` and the recursion over the missing parents.
pub mod Chain
use ocis_ftp_bridge.Prelude.{
  ℕ, zero, suc, Bytes, Option, none, some, Result, ok, err, Bool, true, false, ◌||◌, [], ◌∷◌,
  length, same, if◌then◌else◌,
}
use ocis_ftp_bridge.Go.FilePath.{slash, dot, dir}
use ocis_ftp_bridge.Transfer.Types.{TransferError, no_client, webdav_failed, out_of_fuel, Client}

abbrev pub is_top : Bytes → Bool
is_top parent = same parent dot || same parent (slash ∷ [])

module _ {S E : Type 0} where
  -- A call of `CreateDirectory`.
  unfoldable pub create : Client S E → Bytes → S → Result (TransferError E) (Unit {0}) × S
  create client path s =
      let (answer, s') = client.create_directory path s in
      elim answer [ ok done ↦ (ok done, s') | err e ↦ (err (webdav_failed e), s') ]

  -- One action, and a second one only if the first succeeded.
  abbrev pub and_then :
      Result (TransferError E) (Unit {0}) × S
      → (S → Result (TransferError E) (Unit {0}) × S)
      → Result (TransferError E) (Unit {0}) × S
  and_then (ok done, s) next = next s
  and_then (err e, s) next = (err e, s)

  -- `createParentDirectoriesRecursive`, on fuel.
  unfoldable pub create_parents :
      Client S E → ℕ → Bytes → S → Result (TransferError E) (Unit {0}) × S
  create_parents client zero path s = (err out_of_fuel, s)
  create_parents client (suc fuel) path s =
      let parents = create_parents client fuel (dir path) s in
      if is_top (dir path) then create client path s else and_then parents (create client path)

  -- After the check for the parent. A check that fails counts like a parent that is missing. The
  -- fuel is the length of the path, which has a byte and more for each of its components.
  unfoldable pub create_missing :
      Client S E → Bytes → Result E Bool × S → Result (TransferError E) (Unit {0}) × S
  create_missing client parent (ok true, s) = (ok tt, s)
  create_missing client parent (ok false, s) = create_parents client (suc (length parent)) parent s
  create_missing client parent (err e, s) = create_parents client (suc (length parent)) parent s

  unfoldable pub ensure_directory : Client S E → Bytes → S → Result (TransferError E) (Unit {0}) × S
  ensure_directory client parent s =
      if is_top parent
      then (ok tt, s)
      else create_missing client parent (client.check_path_existence parent s)

  unfoldable pub ensure_parent_directories :
      Option (Client S E) → Bytes → S → Result (TransferError E) (Unit {0}) × S
  unfolding ensure_directory
  ensure_parent_directories none target s = (err no_client, s)
  ensure_parent_directories (some client) target s = ensure_directory client (dir target) s
