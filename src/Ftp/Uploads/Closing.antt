-- ===== src/Ftp/Uploads/Closing.antt =====
-- pkg/ftp/driver.go: `uploadWriter.Close` and `commitToWebDAV`. The FTP transfer succeeds only if the
-- file went to the WebDAV server.
pub mod Stored
pub mod Ends
use ocis_ftp_bridge.Prelude.{
  ℕ, zero, suc, ◌+◌, Bool, true, false, Option, none, some, ◌&&◌, ◌||◌, not, ltb, ◌==◌,
  if◌then◌else◌, Bytes, codes, same, ◌++◌, [], ◌∷◌, Result, ok, err,
}
use ocis_ftp_bridge.Prelude.Map.{lookup, insert, delete, bytes_eq, nat_eq}
use ocis_ftp_bridge.Go.Strings.{trim_suffix}
use ocis_ftp_bridge.Go.Strconv.{decimal}
use ocis_ftp_bridge.Go.FilePath.{base, dir, ext, join_path}
use ocis_ftp_bridge.Transfer.Types.{
  CollisionPolicy, rename, overwrite, TransferError, TransferManager,
}
use ocis_ftp_bridge.Transfer.Directories.{ensure_parent_directories}
use ocis_ftp_bridge.Spool.Types.{SpoolError, Upload, UploadManager, FinishAnswers, FileRef}
use ocis_ftp_bridge.Spool.UploadManager.{finish_upload, left_by_finish, abort_upload}
use ocis_ftp_bridge.Webdav.Types.{WebdavError, WebdavClient, Transport}
use ocis_ftp_bridge.Webdav.Client.{upload_stream}
use ocis_ftp_bridge.Ftp.UploadSlots.{release_upload_slot}
use ocis_ftp_bridge.Ftp.Uploads.{
  UploadError, no_transfer_configuration, directories_failed, open_failed, webdav_upload_failed,
  retries_exhausted, spool_failed, UploadSession, UploadState, UploadWriter, up_to_uint64,
}

abbrev pub is_rename : CollisionPolicy → Bool
is_rename rename = true
is_rename policy = false

abbrev pub is_overwrite : CollisionPolicy → Bool
is_overwrite overwrite = true
is_overwrite policy = false

-- The target that `handleUploadOpen` resolved, with two fallbacks.
unfoldable pub final_path : UploadSession → Bytes → FileRef → Bytes
final_path c path file =
    if not (same path [])
    then path
    else if not (same file.target_path [])
    then file.target_path
    else join_path c.target_root (base file.filename)

-- The next unique name under the rename policy.
unfoldable pub next_path : ℕ → Bytes → Bytes
next_path attempt path =
    let name = base path in
    join_path (dir path)
      (trim_suffix name (ext name) ++ (codes "-" ++ (decimal (attempt + 2) ++ ext name)))

-- What the operating system answers while a writer is closed: `opens` is `os.Open` of the spooled
-- file, by attempt, and `removes` is `DeleteByPath`.
pub record CloseAnswers : Type 0 where
  pub finish : FinishAnswers
  pub opens : ℕ → Bool
  pub removes : Bool

-- All bytes have come, or it is not known how many there are.
unfoldable pub is_complete : Option Upload → Bool
is_complete none = true
is_complete (some u) = u.bytes_received == u.size || u.size == 0

abbrev pub abort_error : Result SpoolError (Unit {0}) → Option UploadError
abort_error (err e) = some (spool_failed e)
abort_error (ok done) = none

module _ {S : Type 0} (t : Transport S) (c : UploadSession) where
  -- The attempts of `commitToWebDAV`, `n` of them left; the answer is the path that was written.
  unfoldable pub commit_attempts : (ℕ → Bool) → ℕ → ℕ → ℕ → Bytes → S → Result UploadError Bytes × S
  unfolding next_path
  commit_attempts opens size zero attempt path s = (err retries_exhausted, s)
  commit_attempts opens size (suc n) attempt path s =
      let sent =
        upload_stream t c.webdav_client path true true size (is_overwrite c.collision_policy) s in
      let again = commit_attempts opens size n (suc attempt) (next_path attempt path) sent.1 in
      if not (opens attempt) then (err open_failed, s) else elim sent.0 [
        | none ↦ (ok path, sent.1)
        | some e ↦
            if is_rename c.collision_policy && ltb 0 n
            then again
            else (err (webdav_upload_failed e), sent.1)
      ]

  unfoldable pub after_directories :
      (ℕ → Bool)
      → ℕ
      → Bytes
      → Result (TransferError WebdavError) (Unit {0}) × S
      → Result UploadError Bytes × S
  unfolding commit_attempts
  after_directories opens size path (err e, s) = (err (directories_failed e), s)
  after_directories opens size path (ok done, s) = commit_attempts opens size 3 0 path s

  unfoldable pub commit_to_webdav :
      (ℕ → Bool)
      → Option (TransferManager S WebdavError)
      → Bytes
      → FileRef
      → S
      → Result UploadError Bytes × S
  unfolding final_path after_directories
  commit_to_webdav opens none path file s = (err no_transfer_configuration, s)
  commit_to_webdav opens (some tm) path file s =
      after_directories opens file.size (final_path c path file)
        (ensure_parent_directories tm.webdav_client (final_path c path file) s)

  -- The upload's tracking is removed and the slot is given back, on every path.
  unfoldable pub end_upload : UploadWriter → UploadState S → UploadState S
  end_upload w st = record st {
    spool_uploads = delete w.upload_id st.spool_uploads;
    upload_slots = release_upload_slot st.upload_slots c.slot_account;
  }

  unfoldable pub record_upload_failure : UploadState S → UploadState S
  record_upload_failure st = record st { uploads_failed = up_to_uint64 (st.uploads_failed + 1) }

  abbrev pub delete_spooled : Bool → Bytes → UploadState S → UploadState S
  delete_spooled removes path st = record st {
    spooled = if removes then delete path st.spooled else st.spooled;
  }

  -- The upload ends with an error, or with none if it was aborted as incomplete.
  unfoldable pub close_failed :
      UploadWriter → Option UploadError → UploadState S → Option UploadError × UploadState S
  unfolding end_upload record_upload_failure
  close_failed w e st = (e, end_upload w (record_upload_failure st))

  unfoldable pub close_committed :
      CloseAnswers
      → UploadWriter
      → FileRef
      → UploadState S
      → Result UploadError Bytes × S
      → Option UploadError × UploadState S
  unfolding close_failed
  close_committed a w file st (err e, s) =
      close_failed w (some e) (delete_spooled a.removes file.path (record st { remote = s }))
  close_committed a w file st (ok path, s) =
      let st' = delete_spooled a.removes file.path (record st { remote = s }) in
      (
        none,
        end_upload w (record st' {
          uploads_success = up_to_uint64 (st'.uploads_success + 1);
          total_bytes_uploaded = up_to_uint64 (st'.total_bytes_uploaded + file.size);
        }),
      )

  -- `FinishUpload` has moved a file into the spool.
  abbrev pub with_file : UploadManager → FileRef → UploadState S → UploadState S
  with_file m file st = record st { spool = m; spooled = insert file.path file.size st.spooled }

  -- A `FinishUpload` that failed may have left a file at the final path, which nobody deletes.
  abbrev pub with_left : Option (Bytes × ℕ) → UploadState S → UploadState S
  with_left none st = st
  with_left (some (path, size)) st = record st { spooled = insert path size st.spooled }

  unfoldable pub close_finished :
      CloseAnswers
      → UploadWriter
      → UploadState S
      → Option (Bytes × ℕ)
      → Result SpoolError FileRef × UploadManager
      → Option UploadError × UploadState S
  unfolding close_failed close_committed commit_to_webdav
  close_finished a w st left (err e, m) =
      close_failed w (some (spool_failed e)) (with_left left (record st { spool = m }))
  close_finished a w st left (ok file, m) =
      let st' = with_file m file st in
      close_committed a w file st'
        (commit_to_webdav a.opens (lookup c.user st'.transfer_managers) w.path file st'.remote)

  -- An upload is aborted; an error of the abort of a written upload is only logged.
  abbrev pub aborted : ℕ → UploadState S → UploadState S
  aborted upload st = record st { spool = (abort_upload st.spool (some upload)).1 }

  unfoldable pub close :
      (Bytes → Bytes)
      → CloseAnswers
      → UploadWriter
      → UploadState S
      → Option UploadError × UploadState S
  unfolding close_failed close_finished is_complete
  close hex a w st = elim w.write_err [
    | some e ↦ close_failed w (some e) (aborted w.upload st)
    | none ↦
        if is_complete (lookup w.upload st.spool.uploads)
        then close_finished a w st (left_by_finish hex st.spool (some w.upload) a.finish)
            (finish_upload hex st.spool (some w.upload) a.finish)
        else close_failed w (abort_error (abort_upload st.spool (some w.upload)).0)
            (aborted w.upload st)
  ]
