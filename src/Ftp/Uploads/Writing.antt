-- ===== src/Ftp/Uploads/Writing.antt =====
-- pkg/ftp/driver.go: `uploadWriter.Write`. The writer refers to its upload in the spool's heap.
pub mod Counted
use ocis_ftp_bridge.Prelude.{
  ℕ, ◌+◌, Bool, true, false, Option, none, some, ◌&&◌, ltb, if◌then◌else◌, Bytes, length, List, [],
  ◌∷◌,
}
use ocis_ftp_bridge.Prelude.Map.{lookup, nat_eq}
use ocis_ftp_bridge.Spool.Types.{SpoolError, Upload, UploadManager, WriteAnswer, file_too_large}
use ocis_ftp_bridge.Spool.UploadManager.{write_chunk, int64_sum_exceeds}
use ocis_ftp_bridge.Ftp.Uploads.{UploadError, UploadWriter, upload_cancelled_error, spool_failed}

-- What a call of `Write` returns, with the writer and the spool that it leaves.
abbrev pub Written : Type 0
Written = (ℕ × Option UploadError) × (UploadWriter × UploadManager)

-- The first error that a write met is kept.
unfoldable pub fail_write : UploadWriter → ℕ → UploadError → UploadManager → Written
fail_write w n e m = ((n, some e), (record w { write_err = some e }, m))

unfoldable pub after_chunk : UploadWriter → (ℕ × Option SpoolError) × UploadManager → Written
unfolding fail_write
after_chunk w ((n, none), m) = ((n, none), (w, m))
after_chunk w ((n, some e), m) = fail_write w n (spool_failed e) m

-- The checks of `Write` before the spool's own.
unfoldable pub write_refused : Upload → ℕ → Option UploadError
unfolding int64_sum_exceeds
write_refused u n =
    if u.done
    then some upload_cancelled_error
    else if ltb u.size (u.bytes_received + n) && ltb 0 u.size
    then some (spool_failed file_too_large)
    else if int64_sum_exceeds u.bytes_received n u.account_max_size
    then some (spool_failed file_too_large)
    else none

unfoldable pub write_open :
    UploadWriter → UploadManager → Option Upload → Bytes → WriteAnswer → Written
unfolding after_chunk write_refused
write_open w m none p answer = after_chunk w (write_chunk m none p answer)
write_open w m (some u) p answer = elim (write_refused u (length p)) [
  | some e ↦ fail_write w 0 e m
  | none ↦ after_chunk w (write_chunk m (some w.upload) p answer)
]

-- A writer always has an upload of the heap; without one, it is as for `WriteChunk` on nil.
unfoldable pub write : UploadWriter → UploadManager → Bytes → WriteAnswer → Written
unfolding write_open
write w m p answer = elim w.write_err [
  | some e ↦ ((0, some e), (w, m))
  | none ↦ write_open w m (lookup w.upload m.uploads) p answer
]

-- The writes of a transfer, in their order.
unfoldable pub write_all :
    UploadWriter → UploadManager → List (Bytes × WriteAnswer) → UploadWriter × UploadManager
unfolding write
write_all w m [] = (w, m)
write_all w m ((p, answer) ∷ more) =
    let (returned, (w', m')) = write w m p answer in write_all w' m' more
