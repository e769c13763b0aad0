-- ===== src/Spool/UploadManager/Sound.antt =====
-- What each operation of the upload manager keeps of its accounting.
use ocis_ftp_bridge.Prelude.{
  Option-cases, Result-cases, ℕ, ◌≡◌, refl, ◌∙◌, Bool, true, false, none, some, ◌⊎◌, inl, inr,
  Bool-cases, Bytes, arith, ◌==◌, ltb, ◌&&◌, ◌||◌, not,
}
use ocis_ftp_bridge.Prelude.Int.{ℤ}
use ocis_ftp_bridge.Prelude.Map.{lookup, nat_eq, bytes_eq, lookup-insert_self}
use ocis_ftp_bridge.Spool.Types.{Upload, UploadManager, StartAnswers, FinishAnswers, WriteAnswer}
use ocis_ftp_bridge.Spool.UploadManager.{
  store, set_usage, track, write_chunk, put_chunk, start_upload, finish_upload, publish_temp,
  abort_upload, cancel_context, get_upload, remove_upload, release_upload_bytes, generate_upload_id,
  known_size, check_start, open_temp,
}
use ocis_ftp_bridge.Spool.UploadManager.Accounting.{
  IsAccounted, store-IsAccounted, active_bytes-store_same, release-IsAccounted,
}
use ocis_ftp_bridge.Spool.UploadManager.Chunks.{IsNewId, track-IsAccounted}

-- The accounting, for a spool of a given size.
abbrev pub IsSound : ℕ → UploadManager → Type 0
IsSound limit m = IsAccounted m × (m.max_total_size ≡ limit)

-- Marking an upload as done or closed.
touch-IsSound :
    (limit : ℕ) (m : UploadManager) (r : ℕ) (u : Upload) (done closed : Bool)
    → IsSound limit m
    → lookup r m.uploads ≡ some u
    → (closed ≡ true) ⊎ (closed ≡ u.closed)
    → IsSound limit (store m r (record u { done = done; closed = closed }))
unfolding store set_usage
touch-IsSound limit m r u done closed (w, size) h shut =
    let v = record u { done = done; closed = closed } in
    let bounds = w.bounded r u h in
    (
      store-IsAccounted m r m.current_usage u v w h refl shut bounds.0 bounds.1
          (active_bytes-store_same m r u v w h refl ∙ w.counted) w.within,
      size,
    )

release-IsSound :
    (limit : ℕ) (m : UploadManager) (r : ℕ) (u : Upload)
    → IsSound limit m
    → lookup r m.uploads ≡ some u
    → u.closed ≡ true
    → IsSound limit (release_upload_bytes m u)
unfolding release_upload_bytes
release-IsSound limit m r u (w, size) h shut = (
  release-IsAccounted m r u w h shut,
  elim (Option-cases (lookup u.id m.active_uploads)) [
    | inl a ↦ rw (a, release_upload_bytes) size
    | inr (s, a) ↦ rw (a, release_upload_bytes) size
  ],
)

pub abort-IsSound :
    (limit : ℕ) (m : UploadManager) (r : ℕ) (u : Upload)
    → IsSound limit m
    → lookup r m.uploads ≡ some u
    → IsSound limit (abort_upload m (some r)).1
unfolding abort_upload store
abort-IsSound limit m r u w h =
    let v = record u { done = true; closed = true } in
    rw (h, abort_upload)
      (release-IsSound limit (store m r v) r v (touch-IsSound limit m r u true true w h (inl refl))
        (lookup-insert_self r v m.uploads) refl)

pub cancel-IsSound :
    (limit : ℕ) (m : UploadManager) (r : ℕ) (u : Upload)
    → IsSound limit m
    → lookup r m.uploads ≡ some u
    → IsSound limit (cancel_context m r)
unfolding cancel_context
cancel-IsSound limit m r u w h =
    rw (h, cancel_context) (touch-IsSound limit m r u true u.closed w h (inr refl))

pub remove-IsSound :
    (limit : ℕ) (m : UploadManager) (id : Bytes) (r : ℕ) (u : Upload)
    → IsSound limit m
    → get_upload m id ≡ some r
    → lookup r m.uploads ≡ some u
    → u.closed ≡ true
    → IsSound limit (remove_upload m id)
unfolding remove_upload
remove-IsSound limit m id r u w active h shut =
    rw (active, remove_upload) (rw h (release-IsSound limit m r u w h shut))

pub remove_unknown-IsSound :
    (limit : ℕ) (m : UploadManager) (id : Bytes)
    → IsSound limit m
    → get_upload m id ≡ none
    → IsSound limit (remove_upload m id)
unfolding remove_upload
remove_unknown-IsSound limit m id w absent = rw (absent, remove_upload) w

pub write_chunk-limit :
    (m : UploadManager) (r : ℕ) (chunk : Bytes) (answer : WriteAnswer)
    → (write_chunk m (some r) chunk answer).1.max_total_size ≡ m.max_total_size
unfolding write_chunk put_chunk store set_usage
write_chunk-limit m r chunk answer = ground arith

module _ (hex : Bytes → Bytes) where
  publish-IsSound :
      (limit : ℕ) (m : UploadManager) (r : ℕ) (u : Upload) (answers : FinishAnswers)
      → IsSound limit m
      → lookup r m.uploads ≡ some u
      → u.closed ≡ true
      → IsSound limit (publish_temp hex m u answers).1
  unfolding publish_temp
  publish-IsSound limit m r u answers w h shut = elim (Option-cases answers.absolute) [
    | inl a ↦ rw (a, publish_temp) w
    | inr (dir, a) ↦
        elim (Bool-cases (not ((answers.renamed || answers.copied) && answers.mode_set))) [
          | inl bad ↦ rw (a, publish_temp) (rw bad w)
          | inr good ↦ rw (a, publish_temp) (rw good (release-IsSound limit m r u w h shut))
        ]
  ]

  pub finish-IsSound :
      (limit : ℕ) (m : UploadManager) (r : ℕ) (u : Upload) (answers : FinishAnswers)
      → IsSound limit m
      → lookup r m.uploads ≡ some u
      → IsSound limit (finish_upload hex m (some r) answers).1
  unfolding finish_upload store
  finish-IsSound limit m r u answers w h =
      let v = record u { done = false; closed = true } in
      let shut = touch-IsSound limit m r u false true w h (inl refl) in
      let last =
        publish-IsSound limit (store m r v) r v answers shut (lookup-insert_self r v m.uploads)
          refl in
      rw (h, finish_upload)
        (elim (Bool-cases u.done) [
          | inl t ↦ rw t w
          | inr t ↦ elim (Bool-cases (ltb 0 u.size && not (u.bytes_received == u.size))) [
            | inl c ↦ rw t (rw c w)
            | inr c ↦ elim (Bool-cases (not answers.synced)) [
              | inl s ↦ rw t (rw c (rw s w))
              | inr s ↦ elim (Bool-cases (not answers.file_closed)) [
                | inl f ↦ rw t (rw c (rw s (rw f shut)))
                | inr f ↦ rw t (rw c (rw s (rw f last)))
              ]
            ]
          ]
        ])

  track-IsSound :
      (limit : ℕ) (m : UploadManager) (r : ℕ) (u : Upload)
      → IsSound limit m
      → lookup r m.uploads ≡ none
      → IsNewId m u.id
      → u.bytes_received ≡ 0
      → IsSound limit (track m r u)
  unfolding track
  track-IsSound limit m r u (w, size) free new zero_bytes =
      (track-IsAccounted m r u w free new zero_bytes, size)

  pub start-IsSound :
      (limit : ℕ) (m : UploadManager) (r : ℕ) (user_id filename target_path : Bytes) (expected : ℤ)
      (account_max now : ℕ) (answers : StartAnswers)
      → IsSound limit m
      → lookup r m.uploads ≡ none
      → IsNewId m (generate_upload_id hex user_id filename target_path now)
      → IsSound limit
          (start_upload hex m r user_id filename target_path expected account_max now answers).1
  unfolding start_upload
  start-IsSound limit m r user_id filename target_path expected account_max now answers w free new =
      elim (Result-cases
        (check_start m user_id filename target_path (known_size expected) account_max)) [
          | inl (e, c) ↦ rw (c, start_upload) w
          | inr (done, c) ↦ elim (Result-cases (open_temp answers user_id)) [
            | inl (e, o) ↦ rw (c, start_upload) (rw o w)
            | inr (path, o) ↦
                rw (c, start_upload)
                  (rw o (track-IsSound limit m r (new_upload path) w free new refl))
          ]
        ]
    where
      new_upload : Bytes → Upload
      new_upload path = record {
        id = generate_upload_id hex user_id filename target_path now;
        user_id = user_id;
        filename = filename;
        target_path = target_path;
        temp_path = path;
        size = known_size expected;
        bytes_received = 0;
        started_at = now;
        account_max_size = account_max;
        done = false;
        closed = false;
      }
