-- ===== src/Ftp/Uploads/Closing/Ends.antt =====
-- What every `Close` does, whether it succeeds or fails.
use ocis_ftp_bridge.Prelude.{
  ℕ, ◌+◌, ◌≡◌, refl, true, Bool-cases, inl, inr, ◌⊎◌, Option, none, some, Option-cases, Bytes,
  Result, ok, err, arith, List,
}
use ocis_ftp_bridge.Prelude.Map.{
  lookup, insert, nat_eq, bytes_eq, lookup-insert, lookup-delete, lookup-delete_self,
}
use ocis_ftp_bridge.Spool.Types.{SpoolError, UploadManager, WriteAnswer, FinishAnswers, FileRef}
use ocis_ftp_bridge.Spool.UploadManager.{
  write_chunk, finish_upload, left_by_publish, left_by_finish,
}
use ocis_ftp_bridge.Webdav.Types.{Transport}
use ocis_ftp_bridge.Ftp.UploadSlots.{release_upload_slot}
use ocis_ftp_bridge.Ftp.Uploads.{
  UploadError, UploadSession, UploadState, UploadWriter, up_to_uint64,
}
use ocis_ftp_bridge.Ftp.Uploads.Writing.{fail_write, after_chunk, write_open, write, write_all}
use ocis_ftp_bridge.Ftp.Uploads.Writing.Counted.{write_all_failed}
use ocis_ftp_bridge.Ftp.Uploads.Closing.{
  CloseAnswers, end_upload, record_upload_failure, close_failed, close_committed, close_finished,
  is_complete, close, aborted, with_file, with_left, delete_spooled,
}
use ocis_ftp_bridge.Ftp.Uploads.Closing.Stored.{close_returns_write_err}

-- The error that `Write` returns is the one it keeps.
after_chunk-keeps_error :
    (w : UploadWriter) (r : (ℕ × Option SpoolError) × UploadManager) (e : UploadError)
    → (after_chunk w r).0.1 ≡ some e
    → (after_chunk w r).1.0.write_err ≡ some e
unfolding after_chunk fail_write
after_chunk-keeps_error w ((n, none), m) e h = cc
after_chunk-keeps_error w ((n, some cause), m) e h = h

written-keeps_error :
    (w : UploadWriter) (m : UploadManager) (p : Bytes) (answer : WriteAnswer) (e : UploadError)
    → (write w m p answer).0.1 ≡ some e
    → (write w m p answer).1.0.write_err ≡ some e
unfolding write write_open fail_write
written-keeps_error w m p answer e h = ground (
  arith,
  after_chunk-keeps_error w (write_chunk m (some w.upload) p answer) e,
  after_chunk-keeps_error w (write_chunk m none p answer) e,
)

module _ {S : Type 0} (t : Transport S) (c : UploadSession) where
  -- One more success or one more failure.
  abbrev pub IsOutcome : Option UploadError → UploadState S → UploadState S → Type 0
  IsOutcome e st st' =
      ((e ≡ none)
        × (st'.uploads_success ≡ up_to_uint64 (st.uploads_success + 1))
        × (st'.uploads_failed ≡ st.uploads_failed))
      ⊎ ((st'.uploads_success ≡ st.uploads_success)
          × (st'.uploads_failed ≡ up_to_uint64 (st.uploads_failed + 1)))

  abbrev pub IsEnded : UploadWriter → UploadState S → Option UploadError × UploadState S → Type 0
  IsEnded w st r =
      (r.1.upload_slots ≡ release_upload_slot st.upload_slots c.slot_account)
      × (lookup w.upload_id r.1.spool_uploads ≡ none)
      × IsOutcome r.0 st r.1

  close_failed-IsEnded :
      (w : UploadWriter) (e : Option UploadError) (st : UploadState S)
      → IsEnded w st (close_failed t c w e st)
  unfolding close_failed end_upload record_upload_failure
  close_failed-IsEnded w e st = (refl, lookup-delete_self w.upload_id _, inr (refl, refl))

  close_committed-IsEnded :
      (a : CloseAnswers) (w : UploadWriter) (file : FileRef) (st : UploadState S)
      (r : Result UploadError Bytes × S)
      → IsEnded w st (close_committed t c a w file st r)
  unfolding close_committed end_upload
  close_committed-IsEnded a w file st (err e, s) =
      close_failed-IsEnded w (some e)
        (delete_spooled t c a.removes file.path (record st { remote = s }))
  close_committed-IsEnded a w file st (ok path, s) =
      (refl, lookup-delete_self w.upload_id _, inl (refl, refl, refl))

  close_finished-IsEnded :
      (a : CloseAnswers) (w : UploadWriter) (st : UploadState S) (left : Option (Bytes × ℕ))
      (r : Result SpoolError FileRef × UploadManager)
      → IsEnded w st (close_finished t c a w st left r)
  unfolding close_finished
  close_finished-IsEnded a w st none (err e, m) = close_failed-IsEnded w _ (record st { spool = m })
  close_finished-IsEnded a w st (some (path, size)) (err e, m) =
      close_failed-IsEnded w _ (with_left t c (some (path, size)) (record st { spool = m }))
  close_finished-IsEnded a w st left (ok file, m) =
      close_committed-IsEnded a w file (with_file t c m file st) _

  -- Each `Close`, whatever it meets, gives the upload's slot back, removes its tracking, and counts
  -- one success, with no error, or one failure.
  pub close-IsEnded :
      (hex : Bytes → Bytes) (a : CloseAnswers) (w : UploadWriter) (st : UploadState S)
      → IsEnded w st (close t c hex a w st)
  unfolding close
  close-IsEnded hex a w st = elim (Option-cases w.write_err) [
    | inl clean ↦ elim (Bool-cases (is_complete (lookup w.upload st.spool.uploads))) [
      | inl all ↦
          rw (clean, close)
            (rw all (
              close_finished-IsEnded a w st (left_by_finish hex st.spool (some w.upload) a.finish)
                (finish_upload hex st.spool (some w.upload) a.finish)))
      | inr part ↦ rw (clean, close) (rw part (close_failed-IsEnded w _ (aborted t c w.upload st)))
    ]
    | inr (e, failed) ↦
        rw (failed, close) (close_failed-IsEnded w (some e) (aborted t c w.upload st))
  ]

  close_committed-spooled :
      (a : CloseAnswers) (w : UploadWriter) (file : FileRef) (m : UploadManager)
      (st : UploadState S) (r : Result UploadError Bytes × S) (path : Bytes)
      → a.removes ≡ true
      → lookup path st.spooled ≡ none
      → lookup path (close_committed t c a w file (with_file t c m file st) r).1.spooled ≡ none
  unfolding close_committed close_failed end_upload record_upload_failure
  close_committed-spooled a w file m st (err e, s) path removes h = ground (
    arith,
    lookup-delete file.path path (insert file.path file.size st.spooled),
    lookup-insert file.path path file.size st.spooled,
  )
  close_committed-spooled a w file m st (ok at, s) path removes h = ground (
    arith,
    lookup-delete file.path path (insert file.path file.size st.spooled),
    lookup-insert file.path path file.size st.spooled,
  )

  close_finished-spooled :
      (a : CloseAnswers) (w : UploadWriter) (st : UploadState S)
      (r : Result SpoolError FileRef × UploadManager) (path : Bytes)
      → a.removes ≡ true
      → lookup path st.spooled ≡ none
      → lookup path (close_finished t c a w st none r).1.spooled ≡ none
  unfolding close_finished close_failed end_upload record_upload_failure
  close_finished-spooled a w st (err e, m) path removes h = h
  close_finished-spooled a w st (ok file, m) path removes h =
      close_committed-spooled a w file m st _ path removes h

  -- A `FinishUpload` whose `Chmod` works, and whose failed copy leaves no part, leaves nothing at the
  -- final path when it fails.
  left_by_finish-none :
      (hex : Bytes → Bytes) (m : UploadManager) (ref : ℕ) (f : FinishAnswers)
      → f.mode_set ≡ true
      → f.part_copied ≡ none
      → left_by_finish hex m (some ref) f ≡ none
  unfolding left_by_finish left_by_publish
  left_by_finish-none hex m ref f set no_part = ground (arith, set, no_part)

  -- If `DeleteByPath` works, and `FinishUpload` neither fails to set the mode of the file that it moved
  -- nor leaves a part of it by a copy that failed, then a `Close` leaves no file at a final path of
  -- the spool that was not there before, also where the commit failed. Temporary files are not
  -- counted.
  pub close_leaves_no_file :
      (hex : Bytes → Bytes) (a : CloseAnswers) (w : UploadWriter) (st : UploadState S)
      (path : Bytes)
      → a.removes ≡ true
      → a.finish.mode_set ≡ true
      → a.finish.part_copied ≡ none
      → lookup path st.spooled ≡ none
      → lookup path (close t c hex a w st).1.spooled ≡ none
  unfolding close close_failed end_upload record_upload_failure
  close_leaves_no_file hex a w st path removes set no_part h = ground (
    arith,
    left_by_finish-none hex st.spool w.upload a.finish set no_part,
    close_finished-spooled a w st (finish_upload hex st.spool (some w.upload) a.finish) path removes
        h,
  )

  -- When a `Write` returns an error, the later writes change neither the writer nor the spool, and
  -- `Close` returns that error.
  pub write_error_sticks :
      (hex : Bytes → Bytes) (a : CloseAnswers) (w : UploadWriter) (st : UploadState S) (p : Bytes)
      (answer : WriteAnswer) (e : UploadError) (ws : List (Bytes × WriteAnswer))
      → (write w st.spool p answer).0.1 ≡ some e
      → (write_all (write w st.spool p answer).1.0 (write w st.spool p answer).1.1 ws
          ≡ (write w st.spool p answer).1)
        × ((close t c hex a (write w st.spool p answer).1.0 st).0 ≡ some e)
  write_error_sticks hex a w st p answer e ws h =
      let kept = written-keeps_error w st.spool p answer e h in
      (write_all_failed _ _ e ws kept, close_returns_write_err t c hex a _ st e kept)
