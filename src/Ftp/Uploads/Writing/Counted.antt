-- ===== src/Ftp/Uploads/Writing/Counted.antt =====
-- What the writes of a transfer leave behind: the bytes that came, or the first error.
use ocis_ftp_bridge.Prelude.{
  ℕ, ◌+◌, ◌≡◌, refl, sym, ap, ◌∙◌, inl, inr, none, some, Option-cases, Bytes, length, List, [], ◌∷◌,
  arith,
}
use ocis_ftp_bridge.Prelude.Map.{lookup, nat_eq, lookup-insert_self}
use ocis_ftp_bridge.Spool.Types.{Upload, UploadManager, WriteAnswer, written, write_failed}
use ocis_ftp_bridge.Spool.UploadManager.{write_chunk, put_chunk, store, set_usage}
use ocis_ftp_bridge.Ftp.Uploads.{UploadError, UploadWriter}
use ocis_ftp_bridge.Ftp.Uploads.Writing.{fail_write, after_chunk, write_open, write, write_all}

-- The bytes that a client sent.
unfoldable pub sent_bytes : List (Bytes × WriteAnswer) → ℕ
sent_bytes [] = 0
sent_bytes ((p, answer) ∷ more) = length p + sent_bytes more

-- A writer after an error, over any further writes.
pub write_all_failed :
    (w : UploadWriter) (m : UploadManager) (e : UploadError) (ws : List (Bytes × WriteAnswer))
    → w.write_err ≡ some e
    → write_all w m ws ≡ (w, m)
unfolding write_all write
write_all_failed w m e [] h = refl
write_all_failed w m e ((p, answer) ∷ ws) h = ground (arith, write_all_failed w m e ws h)

-- A write that met no error: the upload of the writer has the bytes.
abbrev pub IsAppended :
    UploadWriter → UploadManager → Upload → ℕ → UploadWriter × UploadManager → Type 0
IsAppended w m u n (w', m') =
    (w' ≡ w)
    × (lookup w.upload m'.uploads ≡ some (record u { bytes_received = u.bytes_received + n }))

put_chunk-IsAppended :
    (w : UploadWriter) (m : UploadManager) (u : Upload) (n : ℕ) (answer : WriteAnswer)
    → (after_chunk w (put_chunk m w.upload u n answer)).1.0.write_err ≡ none
    → IsAppended w m u n (after_chunk w (put_chunk m w.upload u n answer)).1
unfolding after_chunk put_chunk fail_write store set_usage
put_chunk-IsAppended w m u n written h = ground (
  arith,
  lookup-insert_self w.upload (record u { bytes_received = u.bytes_received + n }) m.uploads,
)
put_chunk-IsAppended w m u n (write_failed k) h = ground arith

pub write-IsAppended :
    (w : UploadWriter) (m : UploadManager) (u : Upload) (p : Bytes) (answer : WriteAnswer)
    → w.write_err ≡ none
    → lookup w.upload m.uploads ≡ some u
    → (write w m p answer).1.0.write_err ≡ none
    → IsAppended w m u (length p) (write w m p answer).1
unfolding write write_open write_chunk fail_write after_chunk
write-IsAppended w m u p answer o at h =
    ground (arith, put_chunk-IsAppended w m u (length p) answer)

-- The writes that met no error have put every byte that was sent into the upload.
pub write_all-IsAppended :
    (w : UploadWriter) (m : UploadManager) (u : Upload) (ws : List (Bytes × WriteAnswer))
    → w.write_err ≡ none
    → lookup w.upload m.uploads ≡ some u
    → (write_all w m ws).0.write_err ≡ none
    → IsAppended w m u (sent_bytes ws) (write_all w m ws)
unfolding write_all sent_bytes
write_all-IsAppended w m u [] o at h =
    let same_size : u.bytes_received + 0 ≡ u.bytes_received = omega arith in
    (refl, at ∙ ap (λ n. some (record u { bytes_received = n })) (sym same_size))
write_all-IsAppended w m u ((p, answer) ∷ ws) o at h =
    let r = write w m p answer in
    elim (Option-cases r.1.0.write_err) [
      | inl clean ↦
          let (is, here) = write-IsAppended w m u p answer o at clean in
          let upload_is : r.1.0.upload ≡ w.upload = ap (λ v. v.upload) is in
          let v = record u { bytes_received = u.bytes_received + length p } in
          let (is_too, there) = write_all-IsAppended r.1.0 r.1.1 v ws clean (rw upload_is here) h in
          let sum : (u.bytes_received + length p) + sent_bytes ws
              ≡ u.bytes_received + (length p + sent_bytes ws) =
            omega arith in
          (
            is_too ∙ is,
            ap (λ k. lookup k (write_all r.1.0 r.1.1 ws).1.uploads) (sym upload_is)
                ∙ there
                ∙ ap (λ n. some (record u { bytes_received = n })) sum,
          )
      | inr (e, failed) ↦ let stays = write_all_failed r.1.0 r.1.1 e ws failed in ground arith
    ]
