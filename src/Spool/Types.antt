-- ===== src/Spool/Types.antt =====
-- pkg/spool/spool.go: the types of the upload manager and its errors. An `*Upload` is a reference
-- into the manager's heap of uploads, so that two holders of one upload see the same counters.
use ocis_ftp_bridge.Prelude.{ℕ, Bool, Bytes, Option}
use ocis_ftp_bridge.Prelude.Map.{Map}

pub data FileStatus : Type 0 where
  pending : FileStatus
  committed : FileStatus
  failed : FileStatus
  published : FileStatus

-- The sentinel errors that the two managers return, and the failures of the operating system.
pub data SpoolError : Type 0 where
  invalid_parameters : SpoolError
  file_too_large : SpoolError
  path_traversal : SpoolError
  upload_cancelled : SpoolError
  upload_incomplete : SpoolError
  spool_capacity_exceeded : SpoolError
  empty_data : SpoolError
  file_not_found : SpoolError
  os_failure : SpoolError

pub record FileRef : Type 0 where
  pub user_id : Bytes
  pub file_id : Bytes
  pub filename : Bytes
  pub size : ℕ
  pub path : Bytes
  -- `StartedAt`, which the source formats.
  pub created_at : ℕ
  pub target_path : Bytes
  pub status : FileStatus

-- `done` says that `Context` is done, `closed` that `TempFile` was closed. A size of 0 is unknown.
pub record Upload : Type 0 where
  pub id : Bytes
  pub user_id : Bytes
  pub filename : Bytes
  pub target_path : Bytes
  pub temp_path : Bytes
  pub size : ℕ
  pub bytes_received : ℕ
  pub started_at : ℕ
  pub account_max_size : ℕ
  pub done : Bool
  pub closed : Bool

pub record UploadManager : Type 0 where
  pub spool_dir : Bytes
  pub max_total_size : ℕ
  pub current_usage : ℕ
  pub active_uploads : Map Bytes ℕ
  -- The uploads that were started, by reference.
  pub uploads : Map ℕ Upload

-- What the operating system answers to the calls of `StartUpload`, in their order.
pub record StartAnswers : Type 0 where
  pub absolute : Option Bytes
  pub directory_made : Bool
  pub temp_file : Option Bytes
  pub mode_set : Bool

-- What `TempFile.Write` answers.
pub data WriteAnswer : Type 0 where
  written : WriteAnswer
  write_failed : ℕ → WriteAnswer

-- What the operating system answers to the calls of `FinishUpload`, in their order. `part_copied` is
-- the size of what a failed copy left at the final path.
pub record FinishAnswers : Type 0 where
  pub synced : Bool
  pub file_closed : Bool
  pub absolute : Option Bytes
  pub renamed : Bool
  pub copied : Bool
  pub part_copied : Option ℕ
  pub mode_set : Bool
