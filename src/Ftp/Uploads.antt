-- ===== src/Ftp/Uploads.antt =====
-- pkg/ftp/driver.go, the uploads of a session: their state and `handleUploadOpen`, composed of the
-- transfer manager, the upload slots and the spool. The remote side is the state of a transport.
-- `spooled` is what `FinishUpload` put at final paths of the spool and `DeleteByPath` did not remove
-- yet, with the sizes; temporary files are not in it.
pub mod Opening
pub mod Writing
pub mod VirtualFile
pub mod Closing
pub mod Stor
use ocis_ftp_bridge.Prelude.{
  ℕ, zero, suc, ◌+◌, ◌%◌, ◌^◌, Bool, true, false, Option, none, some, ◌&&◌, ◌||◌, not, ltb, leb,
  ◌==◌, if◌then◌else◌, Bytes, codes, same, length, ◌++◌, [], List, ◌∷◌, Result, ok, err,
}
use ocis_ftp_bridge.Prelude.Int.{ℤ, pos, negsuc}
use ocis_ftp_bridge.Prelude.Map.{Map, lookup, insert, delete, bytes_eq, nat_eq}
use ocis_ftp_bridge.Go.Strings.{trim_prefix, trim_suffix}
use ocis_ftp_bridge.Go.Strconv.{decimal}
use ocis_ftp_bridge.Go.FilePath.{slash, base, dir, ext, join_path}
use ocis_ftp_bridge.Transfer.Types.{
  CollisionPolicy, rename, reject, overwrite, other_policy, TransferError, TransferRequest,
  Transferred, TransferManager,
}
use ocis_ftp_bridge.Transfer.Upload.{process_upload}
use ocis_ftp_bridge.Transfer.Directories.{ensure_parent_directories}
use ocis_ftp_bridge.Spool.Types.{
  SpoolError, Upload, UploadManager, StartAnswers, FinishAnswers, WriteAnswer, FileRef,
  file_too_large,
}
use ocis_ftp_bridge.Spool.UploadManager.{
  start_upload, write_chunk, finish_upload, abort_upload, int64_sum_exceeds,
}
use ocis_ftp_bridge.Webdav.Types.{WebdavError, WebdavClient, Transport}
use ocis_ftp_bridge.Webdav.Client.{upload_stream}
use ocis_ftp_bridge.Ftp.UploadSlots.{Slots, SlotAccount, acquire_upload_slot, release_upload_slot}

pub data UploadError : Type 0 where
  no_transfer_configuration : UploadError
  transfer_failed : TransferError WebdavError → UploadError
  too_many_concurrent_uploads : UploadError
  spool_failed : SpoolError → UploadError
  upload_cancelled_error : UploadError
  directories_failed : TransferError WebdavError → UploadError
  open_failed : UploadError
  webdav_upload_failed : WebdavError → UploadError
  retries_exhausted : UploadError

-- A logged-in session; `slot_account` has the account's user name and its cap on uploads.
pub record UploadSession : Type 0 where
  pub user : Bytes
  pub slot_account : SlotAccount
  pub max_size : ℕ
  pub collision_policy : CollisionPolicy
  pub target_root : Bytes
  pub webdav_client : WebdavClient

-- The parts of `BridgeDriver` and of the session that uploads change. `spool_uploads` is the session's
-- tracking, by upload id.
pub record UploadState (S : Type 0) : Type 0 where
  pub transfer_managers : Map Bytes (TransferManager S WebdavError)
  pub upload_slots : Map Bytes Slots
  pub spool : UploadManager
  pub spool_uploads : Map Bytes ℕ
  pub upload_counter : ℕ
  pub uploads_total : ℕ
  pub uploads_success : ℕ
  pub uploads_failed : ℕ
  pub total_bytes_uploaded : ℕ
  pub spooled : Map Bytes ℕ
  pub remote : S

-- `path` is the target that was resolved when the upload was opened.
pub record UploadWriter : Type 0 where
  pub upload_id : Bytes
  pub upload : ℕ
  pub path : Bytes
  pub write_err : Option UploadError

abbrev pub up_to_uint64 : ℕ → ℕ
up_to_uint64 n = n % 18446744073709551616

unfoldable pub generate_session_upload_id : Bytes → ℕ → ℕ → Bytes
generate_session_upload_id user counter now =
    user ++ (codes "-" ++ (decimal counter ++ (codes "-" ++ decimal now)))

unfoldable pub upload_request : Bytes → Bytes → TransferRequest
upload_request user path = record {
  user_id = user;
  filename = base path;
  path = trim_prefix (dir path) (slash ∷ []);
  size = negsuc 0;
}

-- What the clock, the system and the allocation answer to one `handleUploadOpen`.
pub record OpenAnswers : Type 0 where
  pub stamp : Bytes
  pub reference : ℕ
  pub now : ℕ
  pub start : StartAnswers

module _ {S : Type 0} (hex : Bytes → Bytes) (c : UploadSession) where
  -- The bookkeeping of an upload that the spool has started.
  unfoldable pub track_upload : UploadState S → Transferred → ℕ → ℕ → UploadWriter × UploadState S
  track_upload st target now upload =
      let counter = up_to_uint64 (st.upload_counter + 1) in
      let id = generate_session_upload_id c.user counter now in
      (
        record { upload_id = id; upload = upload; path = target.target_path; write_err = none },
        record st {
          upload_counter = counter;
          spool_uploads = insert id upload st.spool_uploads;
          uploads_total = up_to_uint64 (st.uploads_total + 1);
        },
      )

  -- The answer of `StartUpload`: an error gives the slot back.
  unfoldable pub started :
      OpenAnswers
      → UploadState S
      → Transferred
      → Result SpoolError ℕ × UploadManager
      → Result UploadError UploadWriter × UploadState S
  unfolding track_upload
  started a st target (err e, spool) = (
    err (spool_failed e),
    record st {
      spool = spool;
      upload_counter = up_to_uint64 (st.upload_counter + 1);
      upload_slots = release_upload_slot st.upload_slots c.slot_account;
    },
  )
  started a st target (ok upload, spool) =
      let (w, st') = track_upload (record st { spool = spool }) target a.now upload in (ok w, st')

  -- The part of `handleUploadOpen` after the target was found.
  unfoldable pub open_spool :
      OpenAnswers
      → UploadState S
      → Transferred
      → Map Bytes Slots × Bool
      → Result UploadError UploadWriter × UploadState S
  unfolding started
  open_spool a st target (slots, false) =
      (err too_many_concurrent_uploads, record st { upload_slots = slots })
  open_spool a st target (slots, true) =
      started a (record st { upload_slots = slots }) target
        (start_upload hex st.spool a.reference c.user target.filename target.target_path (negsuc 0)
          c.max_size a.now a.start)

  unfoldable pub with_target :
      OpenAnswers
      → UploadState S
      → Result (TransferError WebdavError) Transferred × (TransferManager S WebdavError × S)
      → Result UploadError UploadWriter × UploadState S
  unfolding open_spool
  with_target a st (result, (tm, s)) =
      let st' = record st {
        transfer_managers = insert c.user tm st.transfer_managers;
        remote = s;
      } in
      elim result [
        | err e ↦ (err (transfer_failed e), st')
        | ok target ↦ open_spool a st' target (acquire_upload_slot st'.upload_slots c.slot_account)
      ]

  unfoldable pub handle_upload_open :
      OpenAnswers → UploadState S → Bytes → Result UploadError UploadWriter × UploadState S
  unfolding with_target upload_request
  handle_upload_open a st path = elim (lookup c.user st.transfer_managers) [
    | none ↦ (err no_transfer_configuration, st)
    | some tm ↦ with_target a st (process_upload tm (upload_request c.user path) a.stamp st.remote)
  ]
