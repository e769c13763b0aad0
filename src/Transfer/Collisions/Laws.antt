-- ===== src/Transfer/Collisions/Laws.antt =====
-- What a resolved filename tells about the remote side.
use ocis_ftp_bridge.Prelude.{Bytes, Option, Result, ok, err, false, ◌≡◌}
use ocis_ftp_bridge.Prelude.Map.{Map}
use ocis_ftp_bridge.Go.FilePath.{join_path}
use ocis_ftp_bridge.Transfer.Types.{TransferError, Client}
use ocis_ftp_bridge.Transfer.Collisions.{State, check_collision}

module _ {S E : Type 0} (client : Option (Client S E)) (stamp base_path filename : Bytes) where
  -- The last remote step was the check of the path of `name`, and it did not find the path taken.
  abbrev pub LastChecked : Bytes → S → Type 0
  LastChecked name s' =
      (s : S) × (check_collision client (join_path base_path name) s ≡ (ok false, s'))

  -- What a resolution says: of an error nothing.
  abbrev Checked : Result (TransferError E) Bytes × State S → Type 0
  Checked (err e, st) = Unit
  Checked (ok name, (counters, s')) = LastChecked name s'
