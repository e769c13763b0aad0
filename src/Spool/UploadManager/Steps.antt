-- ===== src/Spool/UploadManager/Steps.antt =====
-- Runs of the upload manager: `StartUpload`, `WriteChunk`, `FinishUpload`, `AbortUpload`,
-- `RemoveUpload` and cancelled contexts, each under the conditions of its step.
use ocis_ftp_bridge.Prelude.{
  ℕ, ◌≤◌, ◌≡◌, refl, sym, ◌∙◌, true, none, some, ◌⊎◌, Bytes, arith, length,
}
use ocis_ftp_bridge.Prelude.Int.{ℤ}
use ocis_ftp_bridge.Prelude.Map.{lookup, nat_eq, bytes_eq}
use ocis_ftp_bridge.Spool.Types.{Upload, UploadManager, StartAnswers, FinishAnswers, WriteAnswer}
use ocis_ftp_bridge.Spool.UploadManager.{
  max_int64, write_chunk, start_upload, finish_upload, abort_upload, cancel_context, get_upload,
  remove_upload, generate_upload_id, new_upload_manager, current_usage,
}
use ocis_ftp_bridge.Spool.UploadManager.Usage.{active_bytes}
use ocis_ftp_bridge.Spool.UploadManager.Accounting.{new-IsAccounted}
use ocis_ftp_bridge.Spool.UploadManager.Chunks.{IsNewId, possible, write_chunk-IsAccounted}
use ocis_ftp_bridge.Spool.UploadManager.Sound.{
  IsSound, abort-IsSound, cancel-IsSound, remove-IsSound, remove_unknown-IsSound, write_chunk-limit,
  finish-IsSound, start-IsSound,
}

module _ (hex : Bytes → Bytes) where
  -- The managers that a manager reaches. A started upload gets a reference and an id that no other
  -- upload has, which `StartUpload` does not check; a write to a closed file fails; and
  -- `RemoveUpload` is called for an unknown id or after the upload's file was closed.
  pub data Reach (m₀ : UploadManager) : UploadManager → Type 0 where
    begin : Reach m₀ m₀
    start :
        {m : UploadManager} (r : ℕ) (user_id filename target_path : Bytes) (expected : ℤ)
        (account_max now : ℕ) (answers : StartAnswers)
        → Reach m₀ m
        → lookup r m.uploads ≡ none
        → IsNewId m (generate_upload_id hex user_id filename target_path now)
        → Reach m₀
            (start_upload hex m r user_id filename target_path expected account_max now answers).1
    write :
        {m : UploadManager} (r : ℕ) (u : Upload) (chunk : Bytes) (answer : WriteAnswer)
        → Reach m₀ m
        → lookup r m.uploads ≡ some u
        → length chunk ≤ max_int64
        → possible u answer ≡ true
        → Reach m₀ (write_chunk m (some r) chunk answer).1
    finish :
        {m : UploadManager} (r : ℕ) (u : Upload) (answers : FinishAnswers)
        → Reach m₀ m
        → lookup r m.uploads ≡ some u
        → Reach m₀ (finish_upload hex m (some r) answers).1
    abort :
        {m : UploadManager} (r : ℕ) (u : Upload)
        → Reach m₀ m
        → lookup r m.uploads ≡ some u
        → Reach m₀ (abort_upload m (some r)).1
    cancel :
        {m : UploadManager} (r : ℕ) (u : Upload)
        → Reach m₀ m
        → lookup r m.uploads ≡ some u
        → Reach m₀ (cancel_context m r)
    remove :
        {m : UploadManager} (id : Bytes) (r : ℕ) (u : Upload)
        → Reach m₀ m
        → get_upload m id ≡ some r
        → lookup r m.uploads ≡ some u
        → u.closed ≡ true
        → Reach m₀ (remove_upload m id)
    remove_unknown :
        {m : UploadManager} (id : Bytes)
        → Reach m₀ m
        → get_upload m id ≡ none
        → Reach m₀ (remove_upload m id)

  pub Reach-IsSound :
      (dir : Bytes) (limit : ℕ) (m : UploadManager)
      → limit ≤ max_int64
      → Reach (new_upload_manager dir limit) m
      → IsSound limit m
  unfolding new_upload_manager
  Reach-IsSound dir limit m small begin = (new-IsAccounted dir limit, refl)
  Reach-IsSound dir limit m small (start {m = k} r us f t e a now answers run free new) =
      start-IsSound hex limit k r us f t e a now answers (Reach-IsSound dir limit k small run) free
        new
  Reach-IsSound dir limit m small (write {m = k} r u chunk answer run h short can) =
      let (w, size) = Reach-IsSound dir limit k small run in
      (
        write_chunk-IsAccounted k r u chunk answer w h (omega arith) short can,
        write_chunk-limit k r chunk answer ∙ size,
      )
  Reach-IsSound dir limit m small (finish {m = k} r u answers run h) =
      finish-IsSound hex limit k r u answers (Reach-IsSound dir limit k small run) h
  Reach-IsSound dir limit m small (abort {m = k} r u run h) =
      abort-IsSound limit k r u (Reach-IsSound dir limit k small run) h
  Reach-IsSound dir limit m small (cancel {m = k} r u run h) =
      cancel-IsSound limit k r u (Reach-IsSound dir limit k small run) h
  Reach-IsSound dir limit m small (remove {m = k} id r u run active h shut) =
      remove-IsSound limit k id r u (Reach-IsSound dir limit k small run) active h shut
  Reach-IsSound dir limit m small (remove_unknown {m = k} id run absent) =
      remove_unknown-IsSound limit k id (Reach-IsSound dir limit k small run) absent

  -- From a new upload manager whose limit is below 2 ^ 63, let operations follow each other in any
  -- order, where each started upload gets an id that no upload had before, a write to a closed file
  -- fails, no chunk is longer than a Go slice can be, and `RemoveUpload` is called only for an id that is not active or an upload whose file
  -- is closed. Then the usage counter is always equal to the bytes received by the active uploads,
  -- and that sum is within the limit.
  pub usage_exact :
      (dir : Bytes) (limit : ℕ) (m : UploadManager)
      → limit ≤ max_int64
      → Reach (new_upload_manager dir limit) m
      → ((current_usage m).0 ≡ active_bytes m) × (active_bytes m ≤ limit)
  unfolding current_usage
  usage_exact dir limit m small run =
      let (w, size) = Reach-IsSound dir limit m small run in
      (sym w.counted, omega (arith, w.counted, w.within, size))

  -- In every manager reached from a new one whose limit is below 2 ^ 63, under the same conditions
  -- on ids, on writes, on chunks and on `RemoveUpload`, each upload has received at most the
  -- account's maximum, and at most its expected size where that is known.
  pub uploads_within_limits :
      (dir : Bytes) (limit : ℕ) (m : UploadManager) (r : ℕ) (u : Upload)
      → limit ≤ max_int64
      → Reach (new_upload_manager dir limit) m
      → lookup r m.uploads ≡ some u
      → (u.bytes_received ≤ u.account_max_size) × ((u.size ≡ 0) ⊎ (u.bytes_received ≤ u.size))
  uploads_within_limits dir limit m r u small run h =
      (Reach-IsSound dir limit m small run).0.bounded r u h
