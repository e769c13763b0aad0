-- ===== src/Ftp/Uploads/Closing/Stored.antt =====
-- When `Close` reports success, the WebDAV server has taken the whole file.
use ocis_ftp_bridge.Prelude.{
  ℕ, zero, suc, ◌+◌, ◌≤◌, ◌≡◌, refl, sym, ap, ◌∙◌, Bool, true, false, not, ◌&&◌, ltb, Bool-cases,
  inl, inr, ◌⊎◌, Option, none, some, Option-cases, Bytes, same, List, [], Result, ok, err, arith,
}
use ocis_ftp_bridge.Prelude.Map.{lookup, nat_eq, bytes_eq}
use ocis_ftp_bridge.Spool.Types.{SpoolError, Upload, UploadManager, WriteAnswer, FileRef}
use ocis_ftp_bridge.Spool.UploadManager.{finish_upload, left_by_finish}
use ocis_ftp_bridge.Spool.UploadManager.Ends.{finish_upload-ok}
use ocis_ftp_bridge.Transfer.Types.{TransferManager, TransferError}
use ocis_ftp_bridge.Webdav.Types.{WebdavError, Transport}
use ocis_ftp_bridge.Webdav.Client.{upload_stream}
use ocis_ftp_bridge.Webdav.Client.Answered.{IsPut, upload_stream-IsPut}
use ocis_ftp_bridge.Ftp.Uploads.{
  UploadError, UploadSession, UploadState, UploadWriter, up_to_uint64,
}
use ocis_ftp_bridge.Ftp.Uploads.Writing.{write_all}
use ocis_ftp_bridge.Ftp.Uploads.Writing.Counted.{sent_bytes, write_all-IsAppended}
use ocis_ftp_bridge.Ftp.Uploads.Closing.{
  is_overwrite, is_rename, next_path, CloseAnswers, commit_attempts, after_directories,
  commit_to_webdav, close_failed, close_committed, close_finished, is_complete, close, final_path,
  end_upload, with_file,
}

-- The path after `k` renamings, from an attempt on.
unfoldable pub renamed : ℕ → ℕ → Bytes → Bytes
renamed attempt zero path = path
renamed attempt (suc k) path = renamed (suc attempt) k (next_path attempt path)

module _ {S : Type 0} (t : Transport S) (c : UploadSession) where
  -- The last request to the server was a `PUT` of this size, answered with a success, to the given path
  -- or, under the policy for that, to one after a few renamings. It may overwrite only under the policy
  -- for that.
  abbrev pub IsStored : ℕ → ℕ → Bytes → ℕ → S → Type 0
  IsStored n attempt path size s =
      (k : ℕ) × (suc k ≤ n)
      × ((k ≡ 0) ⊎ (is_rename c.collision_policy ≡ true))
      × IsPut t c.webdav_client size (is_overwrite c.collision_policy) (renamed attempt k path) s

  commit_attempts-IsStored :
      (opens : ℕ → Bool) (size n attempt : ℕ) (path : Bytes) (s : S) (at : Bytes)
      → (commit_attempts t c opens size n attempt path s).0 ≡ ok at
      → IsStored n attempt path size (commit_attempts t c opens size n attempt path s).1
  unfolding commit_attempts renamed
  commit_attempts-IsStored opens size zero attempt path s at h = cc
  commit_attempts-IsStored opens size (suc n) attempt path s at h =
      let sent =
        upload_stream t c.webdav_client path true true size (is_overwrite c.collision_policy) s in
      elim (Bool-cases (not (opens attempt))) [
        | inl shut ↦ ground arith
        | inr opened ↦ elim (Option-cases sent.0) [
          | inl stored ↦
              let is : commit_attempts t c opens size (suc n) attempt path s ≡ (ok path, sent.1) =
                ground arith in
              rw (is, commit_attempts)
                (
                  0,
                  omega arith,
                  inl refl,
                  upload_stream-IsPut t c.webdav_client size (is_overwrite c.collision_policy) path
                      true true s stored,
                )
          | inr (e, failed) ↦ elim (Bool-cases (is_rename c.collision_policy && ltb 0 n)) [
            | inl again ↦
                let rest =
                  commit_attempts t c opens size n (suc attempt) (next_path attempt path) sent.1 in
                let is : commit_attempts t c opens size (suc n) attempt path s ≡ rest =
                  ground arith in
                let (k, few, named, stored) =
                  commit_attempts-IsStored opens size n (suc attempt) (next_path attempt path)
                    sent.1 at (ap (λ r. r.0) (sym is) ∙ h) in
                rw (is, commit_attempts) (suc k, omega arith, inr (ground arith), stored)
            | inr last ↦ ground arith
          ]
        ]
      ]

  after_directories-IsStored :
      (opens : ℕ → Bool) (size : ℕ) (path : Bytes)
      (made : Result (TransferError WebdavError) (Unit {0}) × S) (at : Bytes)
      → (after_directories t c opens size path made).0 ≡ ok at
      → IsStored 3 0 path size (after_directories t c opens size path made).1
  unfolding after_directories
  after_directories-IsStored opens size path (err e, s) at h = cc
  after_directories-IsStored opens size path (ok done, s) at h =
      commit_attempts-IsStored opens size 3 0 path s at h

  commit_to_webdav-IsStored :
      (opens : ℕ → Bool) (tm : Option (TransferManager S WebdavError)) (path : Bytes)
      (file : FileRef) (s : S) (at : Bytes)
      → (commit_to_webdav t c opens tm path file s).0 ≡ ok at
      → IsStored 3 0
          (final_path c path file)
          file.size
          (commit_to_webdav t c opens tm path file s).1
  unfolding commit_to_webdav
  commit_to_webdav-IsStored opens none path file s at h = cc
  commit_to_webdav-IsStored opens (some tm) path file s at h =
      after_directories-IsStored opens file.size (final_path c path file) _ at h

  -- The end of a successful `Close`: one more success, and the file's bytes.
  abbrev pub IsCounted : ℕ → UploadState S → UploadState S → Type 0
  IsCounted size st st' =
      (st'.uploads_success ≡ up_to_uint64 (st.uploads_success + 1))
      × (st'.uploads_failed ≡ st.uploads_failed)
      × (st'.total_bytes_uploaded ≡ up_to_uint64 (st.total_bytes_uploaded + size))

  close_committed-IsStored :
      (a : CloseAnswers) (w : UploadWriter) (file : FileRef) (st : UploadState S)
      (r : Result UploadError Bytes × S)
      → ((at : Bytes) → r.0 ≡ ok at → IsStored 3 0 (final_path c w.path file) file.size r.1)
      → (close_committed t c a w file st r).0 ≡ none
      → IsStored 3 0
          (final_path c w.path file)
          file.size
          (close_committed t c a w file st r).1.remote
        × IsCounted file.size st (close_committed t c a w file st r).1
  unfolding close_committed close_failed end_upload
  close_committed-IsStored a w file st (err e, s) k h = cc
  close_committed-IsStored a w file st (ok path, s) k h = (k path refl, (refl, refl, refl))

  close_finished-IsStored :
      (a : CloseAnswers) (w : UploadWriter) (st : UploadState S) (left : Option (Bytes × ℕ))
      (r : Result SpoolError FileRef × UploadManager)
      → (close_finished t c a w st left r).0 ≡ none
      → (file : FileRef) × (r.0 ≡ ok file)
        × IsStored 3 0
            (final_path c w.path file)
            file.size
            (close_finished t c a w st left r).1.remote
        × IsCounted file.size st (close_finished t c a w st left r).1
  unfolding close_finished close_failed
  close_finished-IsStored a w st left (err e, m) h = cc
  close_finished-IsStored a w st left (ok file, m) h =
      let (stored, counted) =
        close_committed-IsStored a w file (with_file t c m file st) _
          (λ at q.
            commit_to_webdav-IsStored a.opens (lookup c.user st.transfer_managers) w.path file
              st.remote at q)
          h in
      (file, refl, stored, counted)

  close-IsStored :
      (hex : Bytes → Bytes) (a : CloseAnswers) (w : UploadWriter) (st : UploadState S) (u : Upload)
      (path : Bytes)
      → lookup w.upload st.spool.uploads ≡ some u
      → u.size ≡ 0
      → w.path ≡ path
      → same path [] ≡ false
      → (close t c hex a w st).0 ≡ none
      → IsStored 3 0 path u.bytes_received (close t c hex a w st).1.remote
        × IsCounted u.bytes_received st (close t c hex a w st).1
  unfolding close close_failed is_complete final_path
  close-IsStored hex a w st u path at unknown is_path named h = elim (Option-cases w.write_err) [
    | inl clean ↦
        let finished =
          close_finished t c a w st (left_by_finish hex st.spool (some w.upload) a.finish)
            (finish_upload hex st.spool (some w.upload) a.finish) in
        let is : close t c hex a w st ≡ finished = ground arith in
        let (file, fin, stored, counted) =
          close_finished-IsStored a w st _ _ (ap (λ r. r.0) (sym is) ∙ h) in
        let all = (finish_upload-ok hex st.spool w.upload u a.finish file at fin).0 in
        let there : final_path c w.path file ≡ path = ground arith in
        rw (is, close) (rw (← all) (rw (← there) stored), rw (← all) counted)
    | inr (e, failed) ↦ ground arith
  ]

  pub close_returns_write_err :
      (hex : Bytes → Bytes) (a : CloseAnswers) (w : UploadWriter) (st : UploadState S)
      (e : UploadError)
      → w.write_err ≡ some e
      → (close t c hex a w st).0 ≡ some e
  unfolding close close_failed
  close_returns_write_err hex a w st e h = ground arith

  -- A transfer: the writes, then `Close`.
  abbrev pub transfer :
      (Bytes → Bytes)
      → CloseAnswers
      → UploadWriter
      → List (Bytes × WriteAnswer)
      → UploadState S
      → Option UploadError × UploadState S
  transfer hex a w ws st =
      let (w', m) = write_all w st.spool ws in close t c hex a w' (record st { spool = m })

  -- After any writes to an upload of unknown size that had no error before them, if `Close` returns
  -- no error, then the last request was a `PUT` of as many bytes as were received before and sent by
  -- these writes, answered with a success, and one success with these bytes is counted.
  pub transfer-IsStored :
      (hex : Bytes → Bytes) (a : CloseAnswers) (w : UploadWriter) (st : UploadState S) (u : Upload)
      (ws : List (Bytes × WriteAnswer))
      → w.write_err ≡ none
      → lookup w.upload st.spool.uploads ≡ some u
      → u.size ≡ 0
      → same w.path [] ≡ false
      → (transfer hex a w ws st).0 ≡ none
      → IsStored 3 0 w.path (u.bytes_received + sent_bytes ws) (transfer hex a w ws st).1.remote
        × IsCounted (u.bytes_received + sent_bytes ws) st (transfer hex a w ws st).1
  transfer-IsStored hex a w st u ws clean at unknown named h =
      let r = write_all w st.spool ws in
      elim (Option-cases r.0.write_err) [
        | inl fine ↦
            let (is, here) = write_all-IsAppended w st.spool u ws clean at fine in
            let same_upload : r.0.upload ≡ w.upload = ap (λ v. v.upload) is in
            close-IsStored hex a r.0 (record st { spool = r.1 })
              (record u { bytes_received = u.bytes_received + sent_bytes ws }) w.path
              (ap (λ k. lookup k r.1.uploads) same_upload ∙ here) unknown (ap (λ v. v.path) is)
              named h
        | inr (e, failed) ↦
            let told = close_returns_write_err hex a r.0 (record st { spool = r.1 }) e failed in cc
      ]
