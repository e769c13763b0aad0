-- ===== src/Ftp/Uploads/Opening.antt =====
-- What `handleUploadOpen` leaves: without an error, a slot, a tracked upload and a target below the
-- account's root; with an error, none of them.
use ocis_ftp_bridge.Prelude.{
  ℕ, suc, ◌-◌, ◌≡◌, refl, sym, ap, ◌∙◌, Bool, true, false, inl, inr, none, some, Option-cases,
  Bytes, same_iff, Result, ok, err, Result-cases, arith,
}
use ocis_ftp_bridge.Prelude.Int.{negsuc}
use ocis_ftp_bridge.Prelude.Map.{
  Map, lookup, insert, nat_eq, bytes_eq, lookup-insert, lookup-insert_self,
}
use ocis_ftp_bridge.Spool.Types.{SpoolError, Upload, UploadManager, StartAnswers}
use ocis_ftp_bridge.Spool.UploadManager.{start_upload, check_start, open_temp, track, known_size}
use ocis_ftp_bridge.Transfer.Types.{TransferError, Transferred, TransferManager}
use ocis_ftp_bridge.Webdav.Types.{WebdavError}
use ocis_ftp_bridge.Ftp.UploadSlots.{
  Slots, SlotAccount, acquire_upload_slot, release_upload_slot, slots_or_new, take_slot, taken_by,
}
use ocis_ftp_bridge.Ftp.Uploads.{
  UploadError, UploadSession, UploadState, UploadWriter, OpenAnswers, track_upload, started,
  open_spool, with_target, handle_upload_open,
}

-- A slot that was taken and given back leaves everyone's count as it was.
pub acquire-release :
    (slots : Map Bytes Slots) (account : SlotAccount) (user : Bytes)
    → (acquire_upload_slot slots account).1 ≡ true
    → taken_by user (release_upload_slot (acquire_upload_slot slots account).0 account)
      ≡ taken_by user slots
unfolding acquire_upload_slot release_upload_slot slots_or_new take_slot taken_by
acquire-release slots account user h =
    let name = account.username in
    let ch = slots_or_new account.max_concurrent_uploads (lookup name slots) in
    let taken = record ch { taken = suc ch.taken } in
    let held = insert name taken slots in
    ground (
      arith,
      lookup-insert name user taken slots,
      lookup-insert_self name taken slots,
      lookup-insert name user (record taken { taken = suc ch.taken - 1 }) held,
      same_iff name user,
    )

pub refused-kept :
    (slots : Map Bytes Slots) (account : SlotAccount) (user : Bytes)
    → (acquire_upload_slot slots account).1 ≡ false
    → taken_by user (acquire_upload_slot slots account).0 ≡ taken_by user slots
unfolding acquire_upload_slot slots_or_new take_slot taken_by
refused-kept slots account user h =
    let name = account.username in
    let ch = slots_or_new account.max_concurrent_uploads (lookup name slots) in
    ground (arith, lookup-insert name user ch slots, same_iff name user)

-- `StartUpload` either fails and changes nothing, or tracks a new upload without bytes.
abbrev pub IsStarted : UploadManager → ℕ → Bytes → Result SpoolError ℕ × UploadManager → Type 0
IsStarted m ref target (err e, m') = m' ≡ m
IsStarted m ref target (ok r, m') =
    (r ≡ ref)
    × (u : Upload) × (lookup ref m'.uploads ≡ some u)
    × (u.size ≡ 0)
    × (u.bytes_received ≡ 0)
    × (u.target_path ≡ target)

start_upload-IsStarted :
    (hex : Bytes → Bytes) (m : UploadManager) (ref : ℕ) (user filename target : Bytes)
    (limit now : ℕ) (answers : StartAnswers)
    → IsStarted m ref target
        (start_upload hex m ref user filename target (negsuc 0) limit now answers)
unfolding start_upload track known_size
start_upload-IsStarted hex m ref user filename target limit now answers =
    elim (Result-cases (check_start m user filename target 0 limit)) [
      | inl (e, refused) ↦ rw (refused, start_upload) refl
      | inr (passed, fine) ↦ elim (Result-cases (open_temp answers user)) [
        | inl (e, refused) ↦ rw (fine, start_upload) (rw refused refl)
        | inr (temp, made) ↦
            rw (fine, start_upload)
              (rw made (refl, _, lookup-insert_self ref _ m.uploads, refl, refl, refl))
      ]
    ]

module _ {S : Type 0} (hex : Bytes → Bytes) (c : UploadSession) where
  -- An error changes nothing that a user's further uploads depend on. Without one, the user has a
  -- slot more, whose release restores the counts, and the writer's upload is tracked and empty.
  abbrev pub IsOpened :
      Bytes → UploadState S → Result UploadError UploadWriter × UploadState S → Type 0
  IsOpened user st (err e, st') =
      (taken_by user st'.upload_slots ≡ taken_by user st.upload_slots)
      × (st'.spool ≡ st.spool)
      × (st'.spool_uploads ≡ st.spool_uploads)
      × (st'.uploads_total ≡ st.uploads_total)
  IsOpened user st (ok w, st') =
      (taken_by user (release_upload_slot st'.upload_slots c.slot_account)
        ≡ taken_by user st.upload_slots)
      × (w.write_err ≡ none)
      × (lookup w.upload_id st'.spool_uploads ≡ some w.upload)
      × (u : Upload) × (lookup w.upload st'.spool.uploads ≡ some u)
      × (u.size ≡ 0)
      × (u.bytes_received ≡ 0)
      × (u.target_path ≡ w.path)

  started-IsOpened :
      (a : OpenAnswers) (st : UploadState S) (slots : Map Bytes Slots) (target : Transferred)
      (r : Result SpoolError ℕ × UploadManager) (user : Bytes)
      → taken_by user (release_upload_slot slots c.slot_account) ≡ taken_by user st.upload_slots
      → IsStarted st.spool a.reference target.target_path r
      → IsOpened user st (started hex c a (record st { upload_slots = slots }) target r)
  unfolding started track_upload
  started-IsOpened a st slots target (err e, m) user back h = (back, h, refl, refl)
  started-IsOpened a st slots target (ok upload, m) user back (is, u, at, size, none_yet, there) = (
    back,
    refl,
    lookup-insert_self _ upload st.spool_uploads,
    u,
    ap (λ k. lookup k m.uploads) is ∙ at,
    size,
    none_yet,
    there,
  )

  open_spool-IsOpened :
      (a : OpenAnswers) (st : UploadState S) (target : Transferred) (user : Bytes)
      (r : Map Bytes Slots × Bool)
      → acquire_upload_slot st.upload_slots c.slot_account ≡ r
      → IsOpened user st (open_spool hex c a st target r)
  unfolding open_spool
  open_spool-IsOpened a st target user (slots, false) is =
      let kept = refused-kept st.upload_slots c.slot_account user (ap (λ r. r.1) is) in
      (ap (λ r. taken_by user r.0) (sym is) ∙ kept, refl, refl, refl)
  open_spool-IsOpened a st target user (slots, true) is =
      let back = acquire-release st.upload_slots c.slot_account user (ap (λ r. r.1) is) in
      started-IsOpened a st slots target _ user
        (ap (λ r. taken_by user (release_upload_slot r.0 c.slot_account)) (sym is) ∙ back)
        (start_upload-IsStarted hex st.spool a.reference c.user target.filename target.target_path
          c.max_size a.now a.start)

  with_target-IsOpened :
      (a : OpenAnswers) (st : UploadState S) (user : Bytes)
      (r : Result (TransferError WebdavError) Transferred × (TransferManager S WebdavError × S))
      → IsOpened user st (with_target hex c a st r)
  unfolding with_target
  with_target-IsOpened a st user (err e, (tm, s)) = (refl, refl, refl, refl)
  with_target-IsOpened a st user (ok target, (tm, s)) =
      open_spool-IsOpened a
        (record st { transfer_managers = insert c.user tm st.transfer_managers; remote = s }) target
        user _ refl

  -- When `handleUploadOpen` fails, no slot is kept, no upload is tracked or counted, and the spool is
  -- as it was. When it succeeds, the slot that it took is the one whose release restores every user's
  -- count, and the writer's upload is tracked, empty, of unknown size and for the writer's target.
  pub handle_upload_open-IsOpened :
      (a : OpenAnswers) (st : UploadState S) (path user : Bytes)
      → IsOpened user st (handle_upload_open hex c a st path)
  unfolding handle_upload_open
  handle_upload_open-IsOpened a st path user =
      elim (Option-cases (lookup c.user st.transfer_managers)) [
        | inl n ↦ rw (n, handle_upload_open) (refl, refl, refl, refl)
        | inr (tm, n) ↦ rw (n, handle_upload_open) (with_target-IsOpened a st user _)
      ]
