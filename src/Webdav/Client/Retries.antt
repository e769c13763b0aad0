-- ===== src/Webdav/Client/Retries.antt =====
-- How often `UploadStream` sends the file, and when it reports success.
use ocis_ftp_bridge.Prelude.{
  ℕ, zero, suc, ◌+◌, ◌≤◌, ◌≡◌, refl, Bool, true, false, not, Bool-cases, inl, inr, Option, none,
  some, Bytes, same, arith, [], Result-cases, Option-cases,
}
use ocis_ftp_bridge.Webdav.Types.{WebdavError, request_failed, Transport, WebdavClient}
use ocis_ftp_bridge.Webdav.Paths.{normalize_path}
use ocis_ftp_bridge.Webdav.Client.{
  is_success, send, do_upload, after_attempt, retry_upload, upload_stream, is_temporary,
  handle_upload_response, answer_or, full_url, conclude, proceed,
}

-- What a watched transport has seen: the number of requests and the last answer.
pub record Seen (S : Type 0) : Type 0 where
  pub inner : S
  pub requests : ℕ
  pub last_answer : Option ℕ

abbrev pub noted : {S : Type 0} → ℕ → Option ℕ × S → Option ℕ × Seen S
noted n (answer, s) = (answer, record { inner = s; requests = suc n; last_answer = answer })

abbrev pub passed_on : {S : Type 0} → Seen S → Bool × S → Bool × Seen S
passed_on w (b, s) = (b, record w { inner = s })

-- The transport `t`, with its requests counted.
abbrev pub watched : {S : Type 0} → Transport S → Transport (Seen S)
watched t = record {
  parse_url = t.parse_url;
  perform = λ request w. noted w.requests (t.perform request w.inner);
  rewind = λ w. passed_on w (t.rewind w.inner);
  wait = λ w. passed_on w (t.wait w.inner);
}

-- The last answer was a success.
unfoldable pub succeeded : {S : Type 0} → Seen S → Bool
succeeded w = elim w.last_answer [ none ↦ false | some status ↦ is_success status ]

module _ {S : Type 0} (t : Transport S) (c : WebdavClient) (normalized : Bytes) (size : ℕ)
    (overwrite : Bool) where
  -- A result with at most `n` requests more than before, whose success comes from the server.
  abbrev IsWithin : ℕ → Seen S → Option WebdavError × Seen S → Type 0
  IsWithin n w r = (r.1.requests ≤ n + w.requests) × ((r.0 ≡ none) → succeeded r.1 ≡ true)

  conclude-IsWithin :
      (w : Seen S) (o : Option ℕ × S)
      → IsWithin 1 w (conclude (some request_failed) handle_upload_response (noted w.requests o))
  unfolding conclude answer_or handle_upload_response succeeded
  conclude-IsWithin w (none, s) = (omega arith, λ h. cc)
  conclude-IsWithin w (some status, s) = (omega arith, λ h. ground arith)

  do_upload-IsWithin :
      (w : Seen S) → IsWithin 1 w (do_upload (watched t) c normalized size overwrite w)
  unfolding do_upload send
  do_upload-IsWithin w = elim (Option-cases (t.parse_url (full_url c normalized))) [
    | inl p ↦ rw (p, do_upload, send) (omega arith, λ h. cc)
    | inr (url, p) ↦ rw (p, do_upload, send) (conclude-IsWithin w (t.perform _ w.inner))
  ]

  -- A step that goes on from an attempt.
  after_attempt-IsWithin :
      (n : ℕ) (w : Seen S) (r : Option WebdavError × Seen S)
      (again : WebdavError → Seen S → Option WebdavError × Seen S)
      → IsWithin 1 w r
      → ((e : WebdavError) (v : Seen S) → IsWithin n v (again e v))
      → IsWithin (suc n) w (after_attempt (watched t) r again)
  unfolding after_attempt
  after_attempt-IsWithin n w (none, v) again h k = (omega (arith, h.0), h.1)
  after_attempt-IsWithin n w (some e, v) again h k = elim (Bool-cases (is_temporary e)) [
    | inl y ↦ rw y (omega (arith, h.0, (k e v).0), (k e v).1)
    | inr y ↦ rw y (omega (arith, h.0), λ q. cc)
  ]

  proceed-IsWithin :
      (n : ℕ) (w : Seen S) (o : Bool × S) (e : WebdavError)
      (next : Seen S → Option WebdavError × Seen S)
      → ((v : Seen S) → v.requests ≡ w.requests → IsWithin n v (next v))
      → IsWithin n w (proceed (passed_on w o) e next)
  unfolding proceed
  proceed-IsWithin n w (true, s) e next h = h (record w { inner = s }) refl
  proceed-IsWithin n w (false, s) e next h = (omega arith, λ q. cc)

  retry_upload-IsWithin :
      (rewindable : Bool) (n : ℕ) (e : WebdavError) (w : Seen S)
      → IsWithin n w (retry_upload (watched t) c normalized size overwrite rewindable n e w)
  unfolding retry_upload
  retry_upload-IsWithin rewindable zero e w = (omega arith, λ q. cc)
  retry_upload-IsWithin false (suc n) e w = (omega arith, λ q. cc)
  retry_upload-IsWithin true (suc n) e w =
      proceed-IsWithin (suc n) w (t.rewind w.inner) _ _ (λ v same_v.
        proceed-IsWithin (suc n) v (t.wait v.inner) _ _ (λ u same_u.
          after_attempt-IsWithin n u (do_upload (watched t) c normalized size overwrite u) _
            (do_upload-IsWithin u) (retry_upload-IsWithin true n)))

upload_stream-IsWithin :
    {S : Type 0} (t : Transport S) (c : WebdavClient) (path : Bytes) (has_reader rewindable : Bool)
    (size : ℕ) (overwrite : Bool) (w : Seen S)
    → ((upload_stream (watched t) c path has_reader rewindable size overwrite w).1.requests
        ≤ 3 + w.requests)
      × ((upload_stream (watched t) c path has_reader rewindable size overwrite w).0 ≡ none
          → succeeded (upload_stream (watched t) c path has_reader rewindable size overwrite w).1
            ≡ true)
unfolding upload_stream
upload_stream-IsWithin t c path has_reader rewindable size overwrite w =
    elim (Bool-cases (same path [])) [
      | inl p ↦ rw (p, upload_stream) (omega arith, λ q. cc)
      | inr p ↦ elim (Bool-cases (not has_reader)) [
        | inl r ↦ rw (p, upload_stream) (rw r (omega arith, λ q. cc))
        | inr r ↦ elim (Result-cases (normalize_path path)) [
          | inl (e, n) ↦ rw (p, upload_stream) (rw r (rw n (omega arith, λ q. cc)))
          | inr (normalized, n) ↦
              rw (p, upload_stream)
                (rw r (
                  rw n (
                    after_attempt-IsWithin t c normalized size overwrite 2 w _ _
                      (do_upload-IsWithin t c normalized size overwrite w)
                      (retry_upload-IsWithin t c normalized size overwrite rewindable 2))))
        ]
      ]
    ]

-- `UploadStream` sends at most three requests, whatever the transport answers.
upload_stream_attempts :
    {S : Type 0} (t : Transport S) (c : WebdavClient) (path : Bytes) (has_reader rewindable : Bool)
    (size : ℕ) (overwrite : Bool) (w : Seen S)
    → (upload_stream (watched t) c path has_reader rewindable size overwrite w).1.requests
      ≤ 3 + w.requests
upload_stream_attempts t c path has_reader rewindable size overwrite w =
    (upload_stream-IsWithin t c path has_reader rewindable size overwrite w).0

-- When `UploadStream` reports no error, the server's last answer was a status from 200 to 299.
upload_stream_success :
    {S : Type 0} (t : Transport S) (c : WebdavClient) (path : Bytes) (has_reader rewindable : Bool)
    (size : ℕ) (overwrite : Bool) (w : Seen S)
    → (upload_stream (watched t) c path has_reader rewindable size overwrite w).0 ≡ none
    → succeeded (upload_stream (watched t) c path has_reader rewindable size overwrite w).1 ≡ true
upload_stream_success t c path has_reader rewindable size overwrite w h =
    (upload_stream-IsWithin t c path has_reader rewindable size overwrite w).1 h
