-- ===== src/Webdav/Types.antt =====
-- pkg/webdav/webdav.go: the errors of a WebDAV operation; pkg/webdav/client.go: the client and its
-- requests. The HTTP transport, `url.Parse` and the retry's clock are parameters.
use ocis_ftp_bridge.Prelude.{ℕ, Bool, Option, Bytes}

-- The sentinels, then the errors that the client builds itself.
pub data WebdavError : Type 0 where
  invalid_path : WebdavError
  empty_data : WebdavError
  path_not_found : WebdavError
  unauthorized : WebdavError
  forbidden : WebdavError
  path_traversal : WebdavError
  upload_conflict : WebdavError
  file_too_large : WebdavError
  rate_limited : WebdavError
  temporary_failure : WebdavError
  -- An answer with a status that has no error of its own.
  unexpected_status : ℕ → WebdavError
  -- The URL, the request or the connection failed.
  request_failed : WebdavError
  rewind_failed : WebdavError
  aborted : WebdavError
  attempts_exhausted : WebdavError → WebdavError

pub data Method : Type 0 where
  put : Method
  mkcol : Method
  head : Method
  delete : Method
  propfind : Method

-- `if_none_match` stands for the header `If-None-Match: *`, `content_length` for the body's length.
pub record Request : Type 0 where
  pub method : Method
  pub url : Bytes
  pub username : Bytes
  pub token : Bytes
  pub if_none_match : Bool
  pub content_length : ℕ

pub record WebdavClient : Type 0 where
  pub base_url : Bytes
  pub username : Bytes
  pub token : Bytes

-- What the client calls: `url.Parse`, `httpClient.Do`, which answers with a status or fails, the
-- rewinding of the body, and the wait before a retry, which fails when the context is done.
pub record Transport (S : Type 0) : Type 0 where
  pub parse_url : Bytes → Option Bytes
  pub perform : Request → S → Option ℕ × S
  pub rewind : S → Bool × S
  pub wait : S → Bool × S

pub record FileInfo : Type 0 where
  pub path : Bytes
  pub is_directory : Bool
