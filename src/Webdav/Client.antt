-- ===== src/Webdav/Client.antt =====
-- pkg/webdav/client.go: the operations of `webdavClient`. Each sends its requests through a
-- transport, whose state is passed on.
pub mod Retries
pub mod Answered
pub mod Recovery
use ocis_ftp_bridge.Prelude.{
  ℕ, zero, suc, ◌+◌, Bool, true, false, not, ◌&&◌, ◌||◌, ltb, leb, ◌==◌, if◌then◌else◌, Option,
  none, some, Bytes, codes, same, length, List, [], ◌∷◌, ◌++◌, Result, ok, err,
}
use ocis_ftp_bridge.Go.Strings.{has_suffix, trim_left, trim_right}
use ocis_ftp_bridge.Go.FilePath.{slash}
use ocis_ftp_bridge.Webdav.Types.{
  WebdavError, invalid_path, empty_data, path_not_found, unauthorized, forbidden, upload_conflict,
  file_too_large, rate_limited, temporary_failure, unexpected_status, request_failed, rewind_failed,
  aborted, attempts_exhausted, Method, put, mkcol, head, delete, propfind, Request, WebdavClient,
  Transport, FileInfo,
}
use ocis_ftp_bridge.Webdav.Paths.{normalize_path}

abbrev pub is_slash : ℕ → Bool
is_slash c = c == slash

-- `NewWebDAVClient`, without the choice of the HTTP client.
unfoldable pub new_webdav_client : Bytes → Bytes → Bytes → WebdavClient
new_webdav_client base_url username token = record {
  base_url = trim_right is_slash base_url;
  username = username;
  token = token;
}

unfoldable pub full_url : WebdavClient → Bytes → Bytes
full_url c normalized = c.base_url ++ (slash ∷ trim_left is_slash normalized)

-- 2xx.
abbrev pub is_success : ℕ → Bool
is_success status = leb 200 status && ltb status 300

-- `none` is success.
unfoldable pub handle_upload_response : ℕ → Option WebdavError
handle_upload_response status =
    if is_success status
    then none
    else if status == 401
    then some unauthorized
    else if status == 403
    then some forbidden
    else if status == 404
    then some path_not_found
    else if status == 409 || status == 412
    then some upload_conflict
    else if status == 413
    then some file_too_large
    else if status == 429
    then some rate_limited
    else if status == 500 || (status == 502 || (status == 503 || status == 504))
    then some temporary_failure
    else some (unexpected_status status)

-- The answers of the four control operations.
unfoldable pub handle_mkcol : ℕ → Option WebdavError
handle_mkcol status =
    if is_success status || (status == 409 || status == 405)
    then none
    else if status == 401
    then some unauthorized
    else if status == 403
    then some forbidden
    else if status == 404
    then some path_not_found
    else some (unexpected_status status)

unfoldable pub handle_head : ℕ → Result WebdavError Bool
handle_head status =
    if status == 200 || status == 204
    then ok true
    else if status == 404
    then ok false
    else if status == 401
    then err unauthorized
    else if status == 403
    then err forbidden
    else err (unexpected_status status)

unfoldable pub handle_delete : ℕ → Option WebdavError
handle_delete status =
    if is_success status
    then none
    else if status == 404
    then some path_not_found
    else if status == 401
    then some unauthorized
    else if status == 403
    then some forbidden
    else some (unexpected_status status)

unfoldable pub handle_propfind : Bytes → Bytes → ℕ → Result WebdavError FileInfo
handle_propfind path normalized status =
    if status == 200 || status == 207
    then ok (record { path = path; is_directory = has_suffix normalized (slash ∷ []) })
    else if status == 404
    then err path_not_found
    else if status == 401
    then err unauthorized
    else if status == 403
    then err forbidden
    else err (unexpected_status status)

unfoldable pub is_temporary : WebdavError → Bool
is_temporary temporary_failure = true
is_temporary (attempts_exhausted e) = is_temporary e
is_temporary e = false

-- `MKCOL` asks for a directory, whose path ends in a slash.
unfoldable pub directory_path : Bytes → Bytes
directory_path normalized =
    if has_suffix normalized (slash ∷ []) then normalized else normalized ++ (slash ∷ [])

unfoldable pub answer_or : {A : Type 0} → A → (ℕ → A) → Option ℕ → A
answer_or failed handle none = failed
answer_or failed handle (some status) = handle status

unfoldable pub conclude : {A S : Type 0} → A → (ℕ → A) → Option ℕ × S → A × S
unfolding answer_or
conclude failed handle (answer, s) = (answer_or failed handle answer, s)

-- Go on if a step succeeded, else fail with an error.
unfoldable pub proceed :
    {S : Type 0} → Bool × S → WebdavError → (S → Option WebdavError × S) → Option WebdavError × S
proceed (true, s) e next = next s
proceed (false, s) e next = (some e, s)

module _ {S : Type 0} (t : Transport S) where
  -- One request with the client's credentials, and what becomes of its answer.
  unfoldable pub send :
      {A : Type 0} → WebdavClient → Method → Bool → ℕ → Bytes → A → (ℕ → A) → S → A × S
  send c method if_none_match content_length normalized failed handle s =
      elim (t.parse_url (full_url c normalized)) [
        | none ↦ (failed, s)
        | some url ↦ conclude failed handle (
            t.perform
              (record {
                method = method;
                url = url;
                username = c.username;
                token = c.token;
                if_none_match = if_none_match;
                content_length = content_length;
              })
              s)
      ]

  -- One attempt of an upload.
  unfoldable pub do_upload : WebdavClient → Bytes → ℕ → Bool → S → Option WebdavError × S
  do_upload c normalized size overwrite s =
      send c put (not overwrite) size normalized (some request_failed) handle_upload_response s

  -- What follows an attempt: only a temporary failure is tried again.
  unfoldable pub after_attempt :
      Option WebdavError × S → (WebdavError → S → Option WebdavError × S) → Option WebdavError × S
  after_attempt (none, s) again = (none, s)
  after_attempt (some e, s) again = if is_temporary e then again e s else (some e, s)

  -- The further attempts, `n` at most, after an attempt that failed with `last`.
  unfoldable pub retry_upload :
      WebdavClient → Bytes → ℕ → Bool → Bool → ℕ → WebdavError → S → Option WebdavError × S
  retry_upload c normalized size overwrite rewindable zero last s =
      (some (attempts_exhausted last), s)
  retry_upload c normalized size overwrite rewindable (suc n) last s =
      let again = retry_upload c normalized size overwrite rewindable n in
      if not rewindable
      then (some last, s)
      else proceed (t.rewind s) rewind_failed (λ s1.
        proceed (t.wait s1) aborted
          (λ s2. after_attempt (do_upload c normalized size overwrite s2) again))

  unfoldable pub upload_stream :
      WebdavClient → Bytes → Bool → Bool → ℕ → Bool → S → Option WebdavError × S
  upload_stream c path has_reader rewindable size overwrite s =
      if same path []
      then (some invalid_path, s)
      else if not has_reader
      then (some empty_data, s)
      else elim (normalize_path path) [
        | err e ↦ (some e, s)
        | ok normalized ↦
            after_attempt (do_upload c normalized size overwrite s)
              (retry_upload c normalized size overwrite rewindable 2)
      ]

  -- A byte slice is rewindable.
  unfoldable pub upload : WebdavClient → Bytes → Bytes → Bool → S → Option WebdavError × S
  unfolding upload_stream
  upload c path content overwrite s =
      if same path []
      then (some invalid_path, s)
      else if same content []
      then (some empty_data, s)
      else upload_stream c path true true (length content) overwrite s

  unfoldable pub create_directory : WebdavClient → Bytes → S → Option WebdavError × S
  create_directory c path s =
      if same path [] then (some invalid_path, s) else elim (normalize_path path) [
        | err e ↦ (some e, s)
        | ok normalized ↦
            send c mkcol false 0 (directory_path normalized) (some request_failed) handle_mkcol s
      ]

  unfoldable pub check_path_existence : WebdavClient → Bytes → S → Result WebdavError Bool × S
  check_path_existence c path s =
      if same path [] then (err invalid_path, s) else elim (normalize_path path) [
        | err e ↦ (err e, s)
        | ok normalized ↦ send c head false 0 normalized (err request_failed) handle_head s
      ]

  unfoldable pub delete_file : WebdavClient → Bytes → S → Option WebdavError × S
  delete_file c path s =
      if same path [] then (some invalid_path, s) else elim (normalize_path path) [
        | err e ↦ (some e, s)
        | ok normalized ↦ send c delete false 0 normalized (some request_failed) handle_delete s
      ]

  unfoldable pub get_file_info : WebdavClient → Bytes → S → Result WebdavError FileInfo × S
  get_file_info c path s =
      if same path [] then (err invalid_path, s) else elim (normalize_path path) [
        | err e ↦ (err e, s)
        | ok normalized ↦
            send c propfind false 0 normalized (err request_failed)
              (handle_propfind path normalized) s
      ]
