-- ===== src/Webdav/Client/Answered.antt =====
-- What the server has answered when `UploadStream` reports success.
use ocis_ftp_bridge.Prelude.{
  ℕ, zero, suc, ◌≤◌, ◌<◌, ◌≡◌, refl, sym, subst, Bool, true, false, not, Bool-cases, inl, inr,
  Option, none, some, Option-cases, Bytes, same, arith, [], ok, Result-cases,
}
use ocis_ftp_bridge.Webdav.Types.{
  WebdavError, Request, request_failed, put, Transport, WebdavClient,
}
use ocis_ftp_bridge.Webdav.Paths.{normalize_path}
use ocis_ftp_bridge.Webdav.Client.{
  send, do_upload, after_attempt, retry_upload, upload_stream, is_temporary, handle_upload_response,
  answer_or, full_url, conclude, proceed,
}

module _ {S : Type 0} (t : Transport S) (c : WebdavClient) (size : ℕ) (overwrite : Bool) where
  abbrev request : Bytes → Request
  request url = record {
    method = put;
    url = url;
    username = c.username;
    token = c.token;
    if_none_match = not overwrite;
    content_length = size;
  }

  -- The last request was a `PUT` to the URL of the path, with the client's credentials, this content
  -- length, and `If-None-Match: *` unless it may overwrite; the server answered it with a status from
  -- 200 to 299, and this is the state after it.
  abbrev pub IsPutAt : Bytes → S → Type 0
  IsPutAt normalized s =
      (url : Bytes) × (before : S) × (status : ℕ) × (t.parse_url (full_url c normalized) ≡ some url)
      × (t.perform (request url) before ≡ (some status, s))
      × (200 ≤ status)
      × (status < 300)

  abbrev pub IsPut : Bytes → S → Type 0
  IsPut path s = (normalized : Bytes) × (normalize_path path ≡ ok normalized) × IsPutAt normalized s

  -- If a result is a success, it is one of such a request.
  abbrev Shows : Bytes → Option WebdavError × S → Type 0
  Shows normalized r = r.0 ≡ none → IsPutAt normalized r.1

  do_upload-Shows :
      (normalized : Bytes) (s : S) → Shows normalized (do_upload t c normalized size overwrite s)
  unfolding do_upload send conclude answer_or handle_upload_response
  do_upload-Shows normalized s = elim (Option-cases (t.parse_url (full_url c normalized))) [
    | inl p ↦ rw (p, do_upload, send) (λ h. cc)
    | inr (url, p) ↦
        subst (Shows normalized) (sym (sent url p))
          (answered url p (t.perform (request url) s) refl)
  ]
    where
      sent :
          (url : Bytes)
          → t.parse_url (full_url c normalized) ≡ some url
          → do_upload t c normalized size overwrite s
            ≡ conclude (some request_failed) handle_upload_response (t.perform (request url) s)
      sent url p = rw (do_upload, send, p) refl

      answered :
          (url : Bytes) (p : t.parse_url (full_url c normalized) ≡ some url) (r : Option ℕ × S)
          → t.perform (request url) s ≡ r
          → Shows normalized (conclude (some request_failed) handle_upload_response r)
      answered url p (none, s') e h = cc
      answered url p (some status, s') e h = (url, s, status, p, e, ground arith, ground arith)

  after_attempt-Shows :
      (normalized : Bytes) (r : Option WebdavError × S)
      (again : WebdavError → S → Option WebdavError × S)
      → Shows normalized r
      → ((e : WebdavError) (s : S) → Shows normalized (again e s))
      → Shows normalized (after_attempt t r again)
  unfolding after_attempt
  after_attempt-Shows normalized (none, s) again h k = h
  after_attempt-Shows normalized (some e, s) again h k = elim (Bool-cases (is_temporary e)) [
    | inl y ↦ rw y (k e s)
    | inr y ↦ rw y (λ q. cc)
  ]

  proceed-Shows :
      (normalized : Bytes) (o : Bool × S) (e : WebdavError) (next : S → Option WebdavError × S)
      → ((s : S) → Shows normalized (next s))
      → Shows normalized (proceed o e next)
  unfolding proceed
  proceed-Shows normalized (true, s) e next h = h s
  proceed-Shows normalized (false, s) e next h = λ q. cc

  retry_upload-Shows :
      (normalized : Bytes) (rewindable : Bool) (n : ℕ) (e : WebdavError) (s : S)
      → Shows normalized (retry_upload t c normalized size overwrite rewindable n e s)
  unfolding retry_upload
  retry_upload-Shows normalized rewindable zero e s = λ q. cc
  retry_upload-Shows normalized false (suc n) e s = λ q. cc
  retry_upload-Shows normalized true (suc n) e s = proceed-Shows normalized (t.rewind s) _ _ (λ s1.
      proceed-Shows normalized (t.wait s1) _ _ (λ s2.
        after_attempt-Shows normalized (do_upload t c normalized size overwrite s2) _
          (do_upload-Shows normalized s2) (retry_upload-Shows normalized true n)))

  -- When `UploadStream` reports no error, the server has answered a `PUT` of the whole size to the URL
  -- of the path with a status from 200 to 299, after which nothing was sent.
  pub upload_stream-IsPut :
      (path : Bytes) (has_reader rewindable : Bool) (s : S)
      → (upload_stream t c path has_reader rewindable size overwrite s).0 ≡ none
      → IsPut path (upload_stream t c path has_reader rewindable size overwrite s).1
  unfolding upload_stream
  upload_stream-IsPut path has_reader rewindable s = elim (Bool-cases (same path [])) [
    | inl p ↦ rw (p, upload_stream) (λ q. cc)
    | inr p ↦ elim (Bool-cases (not has_reader)) [
      | inl r ↦ rw (p, upload_stream) (rw r (λ q. cc))
      | inr r ↦ elim (Result-cases (normalize_path path)) [
        | inl (e, n) ↦ rw (p, upload_stream) (rw r (rw n (λ q. cc)))
        | inr (normalized, n) ↦
            rw (p, upload_stream)
              (rw r (
                rw n (λ q. (
                  normalized,
                  refl,
                  after_attempt-Shows normalized (do_upload t c normalized size overwrite s) _
                      (do_upload-Shows normalized s) (retry_upload-Shows normalized rewindable 2) q,
                ))))
      ]
    ]
  ]
