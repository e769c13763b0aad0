-- ===== src/Transfer/Types.antt =====
-- pkg/transfer/transfer.go, the types. The WebDAV client is the interface `webdav.Client`, as far as
-- this package calls it, over a remote state `S`.
use ocis_ftp_bridge.Prelude.{ℕ, Bytes, Option, Result, Bool}
use ocis_ftp_bridge.Prelude.Int.{ℤ}
use ocis_ftp_bridge.Prelude.Map.{Map}

-- A string of the configuration: one of three constants, or another text.
pub data CollisionPolicy : Type 0 where
  rename reject overwrite : CollisionPolicy
  other_policy : Bytes → CollisionPolicy

pub record TargetConfig : Type 0 where
  pub drive_id : Bytes
  pub drive : Bytes
  pub root : Bytes
  pub collision_policy : CollisionPolicy
  pub max_size : ℕ

pub record TransferRequest : Type 0 where
  pub user_id : Bytes
  pub filename : Bytes
  pub path : Bytes
  pub size : ℤ

-- A successful `TransferResult`; a failed one is its error.
pub record Transferred : Type 0 where
  pub target_path : Bytes
  pub filename : Bytes
  pub size : ℤ

-- The step of `ProcessUpload` whose error is wrapped.
pub data Stage : Type 0 where
  target_path_stage collision_stage final_path_stage directories_stage : Stage

pub data TransferError (E : Type 0) : Type 0 where
  no_target : Bytes → TransferError E
  path_traversal : Bytes → TransferError E
  path_too_long : ℕ → TransferError E
  empty_filename : TransferError E
  filename_traversal : Bytes → TransferError E
  filename_too_long : ℕ → TransferError E
  outside_root : TransferError E
  no_client : TransferError E
  already_exists : Bytes → TransferError E
  no_free_name : TransferError E
  unknown_policy : TransferError E
  webdav_failed : E → TransferError E
  failed_at : Stage → TransferError E → TransferError E
  -- The model's own: the recursion over the parents ran out of fuel.
  out_of_fuel : TransferError E

-- The operations of `webdav.Client` that the package calls; each may change the remote state.
pub record Client (S E : Type 0) : Type 0 where
  pub check_path_existence : Bytes → S → Result E Bool × S
  pub create_directory : Bytes → S → Result E (Unit {0}) × S

pub record TransferManager (S E : Type 0) : Type 0 where
  pub target_configs : Map Bytes TargetConfig
  pub upload_counters : Map Bytes ℕ
  pub webdav_client : Option (Client S E)
