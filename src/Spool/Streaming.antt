-- ===== src/Spool/Streaming.antt =====
-- pkg/spool/spool.go: `defaultManager.StoreStream`, over the upload manager. The reader is the list of
-- what its reads give, with what the spool's file answers to each chunk; after them it is at its end.
pub mod Whole
use ocis_ftp_bridge.Prelude.{
  ℕ, zero, suc, ◌+◌, ◌≡◌, refl, sym, ap, ◌∙◌, Bool, true, false, ◌==◌, ◌||◌, not, ltb,
  if◌then◌else◌, Option, none, some, Bytes, same, length, List, [], ◌∷◌, Result, ok, err, refuse,
  ◌>>◌, arith, Bool-cases, inl, inr, ◌⊎◌, Result-cases, Option-cases,
}
use ocis_ftp_bridge.Prelude.Int.{ℤ, pos, negsuc}
use ocis_ftp_bridge.Prelude.Map.{
  lookup, insert, nat_eq, bytes_eq, lookup-insert, lookup-insert_self,
}
use ocis_ftp_bridge.Spool.Types.{
  SpoolError, invalid_parameters, empty_data, file_too_large, os_failure, FileRef, Upload,
  UploadManager, StartAnswers, FinishAnswers, WriteAnswer, written, write_failed,
}
use ocis_ftp_bridge.Spool.UploadManager.{
  start_upload, write_chunk, finish_upload, abort_upload, get_upload, known_size, check_start,
  open_temp, track, put_chunk, chunk_refused, store, set_usage, generate_upload_id,
  release_upload_bytes,
}
use ocis_ftp_bridge.Spool.UploadManager.Ends.{finish_upload-ok}

-- An answer of `Read`: some bytes, maybe at the end of the file, or an error that is not `io.EOF`.
pub data ReadAnswer : Type 0 where
  read_bytes : Bytes → ReadAnswer
  read_failed : ReadAnswer

abbrev pub Reads : Type 0
Reads = List (ReadAnswer × WriteAnswer)

abbrev pub Streamed : Type 0
Streamed = Option SpoolError × UploadManager

unfoldable pub stream_failed : ℕ → SpoolError → UploadManager → Streamed
stream_failed ref e m = (some e, (abort_upload m (some ref)).1)

-- A chunk was written, or the upload is aborted.
unfoldable pub after_write :
    ℕ → (ℕ × Option SpoolError) × UploadManager → (UploadManager → Streamed) → Streamed
unfolding stream_failed
after_write ref ((n, none), m) next = next m
after_write ref ((n, some e), m) next = stream_failed ref e m

-- The loop of `StoreStream`; a read of no bytes ends it.
unfoldable pub stream_chunks : ℕ → Reads → UploadManager → Streamed
unfolding after_write stream_failed
stream_chunks ref [] m = (none, m)
stream_chunks ref ((read_failed, answer) ∷ more) m = stream_failed ref os_failure m
stream_chunks ref ((read_bytes p, answer) ∷ more) m =
    if length p == 0
    then (none, m)
    else after_write ref (write_chunk m (some ref) p answer) (stream_chunks ref more)

unfoldable pub is_positive : ℤ → Bool
is_positive (pos n) = not (n == 0)
is_positive (negsuc n) = false

-- The checks of `StoreStream` before it starts the upload.
unfoldable pub check_stream : Bytes → Bytes → Bytes → Bool → ℤ → ℕ → Result SpoolError (Unit {0})
unfolding is_positive known_size
check_stream user_id filename target_path has_reader size max_size =
    refuse (same user_id [] || (same filename [] || same target_path [])) invalid_parameters
    >> (refuse (not has_reader) invalid_parameters
        >> (refuse (not (is_positive size)) empty_data
            >> refuse (ltb max_size (known_size size)) file_too_large))

unfoldable pub finish_stream :
    (Bytes → Bytes) → ℕ → FinishAnswers → Streamed → Result SpoolError FileRef × UploadManager
finish_stream hex ref answers (some e, m) = (err e, m)
finish_stream hex ref answers (none, m) = finish_upload hex m (some ref) answers

unfoldable pub stream_started :
    (Bytes → Bytes)
    → Reads
    → FinishAnswers
    → Result SpoolError ℕ × UploadManager
    → Result SpoolError FileRef × UploadManager
unfolding stream_chunks finish_stream
stream_started hex reads answers (err e, m) = (err e, m)
stream_started hex reads answers (ok ref, m) =
    finish_stream hex ref answers (stream_chunks ref reads m)

-- `max_size` is the manager's. The new upload gets the reference `ref`.
unfoldable pub store_stream :
    (Bytes → Bytes)
    → ℕ
    → UploadManager
    → ℕ
    → Bytes
    → Bytes
    → Bytes
    → Bool
    → ℤ
    → ℕ
    → StartAnswers
    → Reads
    → FinishAnswers
    → Result SpoolError FileRef × UploadManager
unfolding check_stream stream_started
store_stream hex max_size m ref user_id filename target_path has_reader size now start reads
      finish =
    elim (check_stream user_id filename target_path has_reader size max_size) [
      | err e ↦ (err e, m)
      | ok passed ↦
          stream_started hex reads finish
            (start_upload hex m ref user_id filename target_path size max_size now start)
    ]
