-- ===== src/Ftp/Uploads/VirtualFile.antt =====
-- pkg/ftp/driver.go: `OpenFile` and `uploadFile`, through which the FTP library uses an upload.
use ocis_ftp_bridge.Prelude.{
  ℕ, ◌+◌, ◌/◌, ◌%◌, Bool, ◌||◌, ◌==◌, Option, Bytes, Result, ok, err, if◌then◌else◌,
}
use ocis_ftp_bridge.Spool.Types.{UploadManager, WriteAnswer}
use ocis_ftp_bridge.Ftp.Uploads.{
  UploadError, UploadSession, UploadState, UploadWriter, OpenAnswers, handle_upload_open,
}
use ocis_ftp_bridge.Ftp.Uploads.Writing.{Written, write}

pub record UploadFile : Type 0 where
  pub writer : UploadWriter
  pub name : Bytes
  pub flag : ℕ
  pub pos : ℕ

-- `ErrOperationNotSupported`, or an error of the upload.
pub data OpenError : Type 0 where
  not_supported : OpenError
  upload_failed : UploadError → OpenError

-- `flag&os.O_WRONLY != 0 || flag&os.O_CREATE != 0`, with the flags 1 and 0x40 of Linux.
abbrev pub is_write_flag : ℕ → Bool
is_write_flag flag = flag % 2 == 1 || (flag / 64) % 2 == 1

unfoldable pub as_file :
    {S : Type 0}
    → Bytes
    → ℕ
    → Result UploadError UploadWriter × UploadState S
    → Result OpenError UploadFile × UploadState S
as_file name flag (err e, st) = (err (upload_failed e), st)
as_file name flag (ok w, st) = (ok (record { writer = w; name = name; flag = flag; pos = 0 }), st)

unfoldable pub open_file :
    {S : Type 0}
    → (Bytes → Bytes)
    → UploadSession
    → OpenAnswers
    → UploadState S
    → Bytes
    → ℕ
    → Result OpenError UploadFile × UploadState S
unfolding as_file
open_file hex c a st name flag =
    if is_write_flag flag
    then as_file name flag (handle_upload_open hex c a st name)
    else (err not_supported, st)

unfoldable pub moved :
    UploadFile → Written → (ℕ × Option UploadError) × (UploadFile × UploadManager)
moved f ((n, e), (w, m)) = ((n, e), (record f { writer = w; pos = f.pos + n }, m))

-- `uploadFile.Write`
unfoldable pub write_file :
    UploadFile
    → UploadManager
    → Bytes
    → WriteAnswer
    → (ℕ × Option UploadError) × (UploadFile × UploadManager)
unfolding moved
write_file f m p answer = moved f (write f.writer m p answer)
