-- ===== src/Spool/UploadManager/Ends.antt =====
-- How an upload ends: what a successful `FinishUpload` returns, and what is left after `AbortUpload`.
use ocis_ftp_bridge.Prelude.{
  Option-cases, ℕ, ◌≡◌, refl, ap, true, false, none, some, ◌⊎◌, inl, inr, Bytes, arith, ok, err,
}
use ocis_ftp_bridge.Prelude.Map.{lookup, nat_eq, bytes_eq, lookup-insert_self, lookup-delete_self}
use ocis_ftp_bridge.Spool.Types.{
  Upload, UploadManager, upload_cancelled, FinishAnswers, FileRef, WriteAnswer,
}
use ocis_ftp_bridge.Spool.UploadManager.{
  store, write_chunk, chunk_refused, finish_upload, publish_temp, abort_upload,
  release_upload_bytes, current_usage, get_upload,
}

release_inactive :
    (m : UploadManager) (u : Upload) → lookup u.id (release_upload_bytes m u).active_uploads ≡ none
unfolding release_upload_bytes
release_inactive m u = elim (Option-cases (lookup u.id m.active_uploads)) [
  | inl a ↦ rw (a, release_upload_bytes) a
  | inr (s, a) ↦ rw (a, release_upload_bytes) (lookup-delete_self u.id m.active_uploads)
]

release_again :
    (m : UploadManager) (u : Upload)
    → lookup u.id m.active_uploads ≡ none
    → release_upload_bytes m u ≡ m
unfolding release_upload_bytes
release_again m u a = rw (a, release_upload_bytes) refl

module _ (hex : Bytes → Bytes) where
  publish-ok :
      (m : UploadManager) (u : Upload) (answers : FinishAnswers) (ref : FileRef)
      → (publish_temp hex m u answers).0 ≡ ok ref
      → (ref.size ≡ u.bytes_received)
        × (lookup u.id (publish_temp hex m u answers).1.active_uploads ≡ none)
  unfolding publish_temp
  publish-ok m u answers ref h = elim (Option-cases answers.absolute) [
    | inl a ↦ ground arith
    | inr (dir, a) ↦ ground (arith, release_inactive m u)
  ]

  -- When `FinishUpload` succeeds on an upload, the file's size is the number of bytes received, which
  -- is the expected size where that is known, the context was not done, and the upload is no longer active.
  pub finish_upload-ok :
      (m : UploadManager) (r : ℕ) (u : Upload) (answers : FinishAnswers) (ref : FileRef)
      → lookup r m.uploads ≡ some u
      → (finish_upload hex m (some r) answers).0 ≡ ok ref
      → (ref.size ≡ u.bytes_received)
        × ((u.size ≡ 0) ⊎ (ref.size ≡ u.size))
        × (u.done ≡ false)
        × (get_upload (finish_upload hex m (some r) answers).1 u.id ≡ none)
  unfolding finish_upload get_upload
  finish_upload-ok m r u answers ref h fin = ground (
    arith,
    publish-ok (store m r (record u { closed = true })) (record u { closed = true }) answers ref,
  )

-- An upload whose context is done takes no chunk and is not finished.
done_refused :
    (hex : Bytes → Bytes) (m : UploadManager) (r : ℕ) (u : Upload) (chunk : Bytes)
    (answer : WriteAnswer) (answers : FinishAnswers)
    → lookup r m.uploads ≡ some u
    → u.done ≡ true
    → ((write_chunk m (some r) chunk answer).0 ≡ (0, some upload_cancelled))
      × ((finish_upload hex m (some r) answers).0 ≡ err upload_cancelled)
unfolding write_chunk chunk_refused finish_upload
done_refused hex m r u chunk answer answers h d = (ground arith, ground arith)

abort_leaves :
    (m : UploadManager) (r : ℕ) (u : Upload)
    → lookup r m.uploads ≡ some u
    → (lookup r (abort_upload m (some r)).1.uploads
        ≡ some (record u { done = true; closed = true }))
      × (lookup u.id (abort_upload m (some r)).1.active_uploads ≡ none)
unfolding abort_upload store release_upload_bytes
abort_leaves m r u h =
    let v = record u { done = true; closed = true } in
    let kept = lookup-insert_self r v m.uploads in
    elim (Option-cases (lookup u.id m.active_uploads)) [
      | inl a ↦ rw (h, abort_upload) (rw (a, release_upload_bytes) (kept, a))
      | inr (s, a) ↦
          rw (h, abort_upload)
            (rw (a, release_upload_bytes) (kept, lookup-delete_self u.id m.active_uploads))
    ]

abort_inactive :
    (m : UploadManager) (r : ℕ) (u : Upload)
    → lookup r m.uploads ≡ some u
    → lookup u.id m.active_uploads ≡ none
    → current_usage (abort_upload m (some r)).1 ≡ current_usage m
unfolding abort_upload store current_usage
abort_inactive m r u h a =
    let v = record u { done = true; closed = true } in
    rw (h, abort_upload) (ap current_usage (release_again (store m r v) v a))

-- After `AbortUpload` on an upload, a second abort changes neither the usage nor the number of active
-- uploads, and further chunks and `FinishUpload` are refused as cancelled.
abort_upload_final :
    (hex : Bytes → Bytes) (m : UploadManager) (r : ℕ) (u : Upload) (chunk : Bytes)
    (answer : WriteAnswer) (answers : FinishAnswers)
    → lookup r m.uploads ≡ some u
    → (current_usage (abort_upload (abort_upload m (some r)).1 (some r)).1
        ≡ current_usage (abort_upload m (some r)).1)
      × ((write_chunk (abort_upload m (some r)).1 (some r) chunk answer).0
          ≡ (0, some upload_cancelled))
      × ((finish_upload hex (abort_upload m (some r)).1 (some r) answers).0 ≡ err upload_cancelled)
abort_upload_final hex m r u chunk answer answers h =
    let (kept, gone) = abort_leaves m r u h in
    let v = record u { done = true; closed = true } in
    let m' = (abort_upload m (some r)).1 in
    let (no_chunk, no_finish) = done_refused hex m' r v chunk answer answers kept refl in
    (abort_inactive m' r v kept gone, no_chunk, no_finish)
