-- ===== src/Ftp/Uploads/Stor.antt =====
-- A whole STOR: `handleUploadOpen`, the writes, and `Close`.
use ocis_ftp_bridge.Prelude.{
  ℕ, ◌+◌, ◌≡◌, refl, sym, ap, subst, ◌∙◌, Bool, true, false, none, some, Bytes, same, Result, ok,
  err, arith, List, [], ◌∷◌, ◌++◌, All,
}
use ocis_ftp_bridge.Prelude.Map.{Map, lookup, insert, nat_eq, bytes_eq}
use ocis_ftp_bridge.Go.FilePath.{is_abs, names, dir, slash}
use ocis_ftp_bridge.Go.FilePath.Components.{NoUp}
use ocis_ftp_bridge.Go.Strings.{trim_prefix}
use ocis_ftp_bridge.Spool.Types.{SpoolError, UploadManager, WriteAnswer}
use ocis_ftp_bridge.Transfer.Types.{TransferError, Transferred, TransferManager, TargetConfig}
use ocis_ftp_bridge.Transfer.Paths.{get_target}
use ocis_ftp_bridge.Transfer.Upload.{process_upload}
use ocis_ftp_bridge.Transfer.Upload.Placed.{process_upload_contained}
use ocis_ftp_bridge.Transfer.Containment.{file_names}
use ocis_ftp_bridge.Webdav.Types.{WebdavError, Transport}
use ocis_ftp_bridge.Ftp.UploadSlots.{Slots, taken_by}
use ocis_ftp_bridge.Ftp.Uploads.{
  UploadError, UploadSession, UploadState, UploadWriter, OpenAnswers, upload_request, track_upload,
  started, open_spool, with_target, handle_upload_open,
}
use ocis_ftp_bridge.Ftp.Uploads.Writing.{write_all}
use ocis_ftp_bridge.Ftp.Uploads.Writing.Counted.{sent_bytes}
use ocis_ftp_bridge.Ftp.Uploads.Opening.{IsOpened, handle_upload_open-IsOpened}
use ocis_ftp_bridge.Ftp.Uploads.Closing.{CloseAnswers}
use ocis_ftp_bridge.Ftp.Uploads.Closing.Stored.{IsStored, IsCounted, transfer, transfer-IsStored}
use ocis_ftp_bridge.Ftp.Uploads.Closing.Ends.{close-IsEnded}

abs-named : (p : Bytes) → is_abs p ≡ true → same p [] ≡ false
abs-named [] h = cc
abs-named (x ∷ p) h = refl

-- The writer of a successful open has the target of the transfer manager.
abbrev IsTargeted :
    Result (TransferError WebdavError) Transferred → Result UploadError UploadWriter → Type 0
IsTargeted r (err e) = Unit
IsTargeted r (ok w) = (target : Transferred) × (r ≡ ok target) × (w.path ≡ target.target_path)

module _ {S : Type 0} (hex : Bytes → Bytes) (c : UploadSession) where
  started-IsTargeted :
      (a : OpenAnswers) (st : UploadState S) (target : Transferred)
      (r : Result SpoolError ℕ × UploadManager)
      → IsTargeted (ok target) (started hex c a st target r).0
  unfolding started track_upload
  started-IsTargeted a st target (err e, m) = tt
  started-IsTargeted a st target (ok upload, m) = (target, refl, refl)

  open_spool-IsTargeted :
      (a : OpenAnswers) (st : UploadState S) (target : Transferred) (r : Map Bytes Slots × Bool)
      → IsTargeted (ok target) (open_spool hex c a st target r).0
  unfolding open_spool
  open_spool-IsTargeted a st target (slots, false) = tt
  open_spool-IsTargeted a st target (slots, true) =
      started-IsTargeted a (record st { upload_slots = slots }) target _

  with_target-IsTargeted :
      (a : OpenAnswers) (st : UploadState S)
      (r : Result (TransferError WebdavError) Transferred × (TransferManager S WebdavError × S))
      → IsTargeted r.0 (with_target hex c a st r).0
  unfolding with_target
  with_target-IsTargeted a st (err e, (tm, s)) = tt
  with_target-IsTargeted a st (ok target, (tm, s)) =
      open_spool-IsTargeted a
        (record st { transfer_managers = insert c.user tm st.transfer_managers; remote = s }) target
        _

  -- When `handleUploadOpen` succeeds for a user whose account has an absolute root, the writer's
  -- target is an absolute path: the root, below it the directory of the FTP path, and below it a
  -- file, without any component that goes up.
  pub handle_upload_open_contained :
      (a : OpenAnswers) (st : UploadState S) (path : Bytes) (tm : TransferManager S WebdavError)
      (config : TargetConfig) (w : UploadWriter)
      → lookup c.user st.transfer_managers ≡ some tm
      → get_target tm c.user ≡ some config
      → is_abs config.root ≡ true
      → (handle_upload_open hex c a st path).0 ≡ ok w
      → (is_abs w.path ≡ true)
        × All NoUp (names w.path)
        × (filename : Bytes) × (names w.path
            ≡ names config.root
              ++ (names (trim_prefix (dir path) (slash ∷ [])) ++ file_names filename))
  unfolding handle_upload_open upload_request
  handle_upload_open_contained a st path tm config w at target abs h =
      let found = process_upload tm (upload_request c.user path) a.stamp st.remote in
      let is : handle_upload_open hex c a st path ≡ with_target hex c a st found = ground arith in
      let opened : (with_target hex c a st found).0 ≡ ok w = ap (λ r. r.0) (sym is) ∙ h in
      let (done, placed, is_path) =
        subst (IsTargeted found.0) opened (with_target-IsTargeted a st found) in
      let (rooted, parts, no_up, size) =
        process_upload_contained tm (upload_request c.user path) a.stamp st.remote config done
          target abs placed in
      (ap is_abs is_path ∙ rooted, rw is_path no_up, done.filename, ap names is_path ∙ parts)

module _ {S : Type 0} (t : Transport S) (hex : Bytes → Bytes) (c : UploadSession) where
  -- After a STOR whose open succeeded, every user's count of taken slots is as before it, whatever
  -- the writes and the close met.
  pub stor_returns_slot :
      (a : OpenAnswers) (b : CloseAnswers) (st st' : UploadState S) (path user : Bytes)
      (w : UploadWriter) (ws : List (Bytes × WriteAnswer))
      → handle_upload_open hex c a st path ≡ (ok w, st')
      → taken_by user (transfer t c hex b w ws st').1.upload_slots ≡ taken_by user st.upload_slots
  stor_returns_slot a b st st' path user w ws h =
      let opened : IsOpened hex c user st (ok w, st') =
        subst (IsOpened hex c user st) h (handle_upload_open-IsOpened hex c a st path user) in
      let r = write_all w st'.spool ws in
      ap (taken_by user) (close-IsEnded t c hex b r.0 (record st' { spool = r.1 })).0 ∙ opened.0

  -- Of a user whose account has an absolute root, let a STOR's open succeed and its `Close` report no
  -- error. Then the last request to the WebDAV server was a `PUT` to the URL of the writer's target,
  -- or of that target renamed under the policy for that, with the session's credentials, with the
  -- number of bytes of the writes as its content length, and refusing to overwrite unless the policy
  -- allows it; the server answered it with a status from 200 to 299; and one success with these
  -- bytes is counted. The bytes themselves are not modelled.
  pub stor-IsStored :
      (a : OpenAnswers) (b : CloseAnswers) (st st' : UploadState S) (path : Bytes)
      (tm : TransferManager S WebdavError) (config : TargetConfig) (w : UploadWriter)
      (ws : List (Bytes × WriteAnswer))
      → lookup c.user st.transfer_managers ≡ some tm
      → get_target tm c.user ≡ some config
      → is_abs config.root ≡ true
      → handle_upload_open hex c a st path ≡ (ok w, st')
      → (transfer t c hex b w ws st').0 ≡ none
      → IsStored t c 3 0 w.path (sent_bytes ws) (transfer t c hex b w ws st').1.remote
        × IsCounted t c (sent_bytes ws) st' (transfer t c hex b w ws st').1
  stor-IsStored a b st st' path tm config w ws at target abs h done =
      let (back, clean, tracked, u, here, unknown, none_yet, there) : IsOpened hex c c.user st
          (ok w, st') =
        subst (IsOpened hex c c.user st) h (handle_upload_open-IsOpened hex c a st path c.user) in
      let rooted =
        (handle_upload_open_contained hex c a st path tm config w at target abs
          (ap (λ r. r.0) h)).0 in
      let sum : u.bytes_received + sent_bytes ws ≡ sent_bytes ws = omega (arith, none_yet) in
      let after = (transfer t c hex b w ws st').1 in
      subst (λ n. IsStored t c 3 0 w.path n after.remote × IsCounted t c n st' after) sum
        (transfer-IsStored t c hex b w st' u ws clean here unknown (abs-named w.path rooted) done)
