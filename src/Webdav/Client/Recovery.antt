-- ===== src/Webdav/Client/Recovery.antt =====
-- When `UploadStream` succeeds in spite of temporary failures.
use ocis_ftp_bridge.Prelude.{
  ℕ, zero, suc, ◌≤◌, ◌≡◌, refl, Bool, true, false, none, some, Bytes, same, [], arith, ok,
}
use ocis_ftp_bridge.Webdav.Types.{WebdavError, Transport, WebdavClient}
use ocis_ftp_bridge.Webdav.Paths.{normalize_path}
use ocis_ftp_bridge.Webdav.Client.{
  do_upload, after_attempt, retry_upload, upload_stream, is_temporary, proceed,
}

-- An attempt succeeds after some temporary failures, each with the body rewound and the wait over.
pub data Recovers {S : Type 0} (t : Transport S) (c : WebdavClient) (normalized : Bytes) (size : ℕ)
    (overwrite : Bool) : ℕ → S → Type 0 where
  at_once :
      {s s' : S}
      → do_upload t c normalized size overwrite s ≡ (none, s')
      → Recovers t c normalized size overwrite 0 s
  again :
      {n : ℕ} {s s1 s2 s3 : S} {e : WebdavError}
      → do_upload t c normalized size overwrite s ≡ (some e, s1)
      → is_temporary e ≡ true
      → t.rewind s1 ≡ (true, s2)
      → t.wait s2 ≡ (true, s3)
      → Recovers t c normalized size overwrite n s3
      → Recovers t c normalized size overwrite (suc n) s

module _ {S : Type 0} (t : Transport S) (c : WebdavClient) (normalized : Bytes) (size : ℕ)
    (overwrite : Bool) where
  attempt-none :
      (n k : ℕ) (s : S)
      → Recovers t c normalized size overwrite n s
      → n ≤ k
      → (after_attempt t
          (do_upload t c normalized size overwrite s)
          (retry_upload t c normalized size overwrite true k)).0
        ≡ none
  unfolding after_attempt retry_upload proceed
  attempt-none zero k s (at_once first) h = rw (first, after_attempt) refl
  attempt-none (suc n) zero s (again first temporary rewound waited rest) h = ground arith
  attempt-none (suc n) (suc k) s (again first temporary rewound waited rest) h =
      rw (first, after_attempt)
        (rw temporary
          (rw (rewound, proceed) (rw (waited, proceed) (attempt-none n k _ rest (omega arith)))))

-- A file with a path that normalises and a body that can be rewound is uploaded without an error, if
-- an attempt succeeds after two temporary failures at most, each with the body rewound and the wait
-- over.
pub upload_stream-Recovers :
    {S : Type 0} (t : Transport S) (c : WebdavClient) (path normalized : Bytes) (size : ℕ)
    (overwrite : Bool) (n : ℕ) (s : S)
    → same path [] ≡ false
    → normalize_path path ≡ ok normalized
    → Recovers t c normalized size overwrite n s
    → n ≤ 2
    → (upload_stream t c path true true size overwrite s).0 ≡ none
unfolding upload_stream
upload_stream-Recovers t c path normalized size overwrite n s named is r h =
    rw (named, upload_stream) (rw is (attempt-none t c normalized size overwrite n 2 s r h))
