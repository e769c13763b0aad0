-- ===== src/Spool/UploadManager.antt =====
-- pkg/spool/spool.go: `uploadManager`. A reference of `none` is a nil `*Upload`. Byte counts of one
-- upload are below 2 ^ 63; the usage is a uint64 and wraps around. The operating system's answers,
-- the clock and SHA-256 are arguments.
pub mod Usage
pub mod Accounting
pub mod Chunks
pub mod Sound
pub mod Steps
pub mod Ends
use ocis_ftp_bridge.Prelude.{
  ℕ, ◌+◌, ◌-◌, ◌%◌, Bool, true, false, Option, none, some, ◌&&◌, ◌||◌, not, ltb, leb, ◌==◌,
  if◌then◌else◌, Bytes, codes, same, take, length, ◌++◌, [], List, ◌∷◌, Result, ok, err, refuse,
  ◌>>◌,
}
use ocis_ftp_bridge.Prelude.Int.{ℤ, pos, negsuc}
use ocis_ftp_bridge.Prelude.Map.{Map, lookup, insert, delete, nat_eq, bytes_eq}
use ocis_ftp_bridge.Go.Strings.{contains, has_prefix}
use ocis_ftp_bridge.Go.Strconv.{decimal}
use ocis_ftp_bridge.Go.FilePath.{clean, join_path, rel, dot_dot}
use ocis_ftp_bridge.Spool.Types.{
  FileStatus, committed, SpoolError, invalid_parameters, file_too_large, path_traversal,
  upload_cancelled, upload_incomplete, spool_capacity_exceeded, os_failure, FileRef, Upload,
  UploadManager, StartAnswers, WriteAnswer, written, write_failed, FinishAnswers,
}

abbrev pub max_int64 : ℕ
max_int64 = 9223372036854775807

abbrev pub uint64_size : ℕ
uint64_size = 18446744073709551616

-- `a + b` on uint64.
abbrev pub add_uint64 : ℕ → ℕ → ℕ
add_uint64 a b = (a + b) % uint64_size

-- `a + b > c` on int64, where no operand is negative: a sum past the largest int64 is negative.
unfoldable pub int64_sum_exceeds : ℕ → ℕ → ℕ → Bool
int64_sum_exceeds a b c = leb (a + b) max_int64 && ltb c (a + b)

unfoldable pub new_upload_manager : Bytes → ℕ → UploadManager
new_upload_manager spool_dir max_total_size = record {
  spool_dir = spool_dir;
  max_total_size = max_total_size;
  current_usage = 0;
  active_uploads = [];
  uploads = [];
}

-- A negative expected size is unknown, and counts as 0.
unfoldable pub known_size : ℤ → ℕ
known_size (pos n) = n
known_size (negsuc n) = 0

abbrev pub hashed_fields : Bytes → Bytes → Bytes → ℕ → Bytes
hashed_fields user_id filename target_path nanos =
    user_id
    ++ (codes "-" ++ (filename ++ (codes "-" ++ (target_path ++ (codes "-" ++ decimal nanos)))))

-- `hex` stands for the hexadecimal SHA-256 of a string.
unfoldable pub generate_upload_id : (Bytes → Bytes) → Bytes → Bytes → Bytes → ℕ → Bytes
generate_upload_id hex user_id filename target_path now =
    codes "upload-" ++ take 16 (hex (hashed_fields user_id filename target_path now))

unfoldable pub generate_file_id : (Bytes → Bytes) → Upload → Bytes
generate_file_id hex u =
    codes "file-"
    ++ (take 16 (hex (hashed_fields u.user_id u.filename u.target_path u.started_at))
        ++ (codes "-" ++ decimal u.bytes_received))

-- The checks of `StartUpload`, up to the capacity of the spool.
unfoldable pub check_start :
    UploadManager → Bytes → Bytes → Bytes → ℕ → ℕ → Result SpoolError (Unit {0})
check_start m user_id filename target_path size account_max_size =
    refuse (same user_id []) invalid_parameters
    >> (refuse (same filename []) invalid_parameters
        >> (refuse (account_max_size == 0) invalid_parameters
            >> (refuse (ltb max_int64 account_max_size) invalid_parameters
                >> (refuse (ltb account_max_size size) file_too_large
                    >> (refuse (contains user_id dot_dot || contains target_path dot_dot)
                          path_traversal
                        >> (refuse (ltb m.max_total_size size) file_too_large
                            >> refuse (ltb m.max_total_size (add_uint64 m.current_usage size))
                                spool_capacity_exceeded))))))

-- The user's directory under the spool, if it lies there.
unfoldable pub user_directory : Bytes → Bytes → Option Bytes
user_directory absolute user_id =
    let user_dir = join_path absolute (clean user_id) in
    elim (rel absolute user_dir) [
      | none ↦ none
      | some path ↦ if has_prefix path dot_dot then none else some user_dir
    ]

-- The temporary file of `StartUpload`.
unfoldable pub open_temp : StartAnswers → Bytes → Result SpoolError Bytes
open_temp answers user_id = elim answers.absolute [
  | none ↦ err os_failure
  | some absolute ↦
      if not answers.directory_made
      then err os_failure
      else elim (user_directory absolute user_id) [
        | none ↦ err path_traversal
        | some user_dir ↦ elim answers.temp_file [
          | none ↦ err os_failure
          | some path ↦ if answers.mode_set then ok path else err os_failure
        ]
      ]
]

unfoldable pub track : UploadManager → ℕ → Upload → UploadManager
track m ref u = record m {
  active_uploads = insert u.id ref m.active_uploads;
  uploads = insert ref u m.uploads;
}

-- The new upload gets the reference `ref`.
unfoldable pub start_upload :
    (Bytes → Bytes)
    → UploadManager
    → ℕ
    → Bytes
    → Bytes
    → Bytes
    → ℤ
    → ℕ
    → ℕ
    → StartAnswers
    → Result SpoolError ℕ × UploadManager
unfolding check_start
start_upload hex m ref user_id filename target_path expected_size account_max_size now answers =
    let size = known_size expected_size in
    elim (check_start m user_id filename target_path size account_max_size) [
      | err e ↦ (err e, m)
      | ok passed ↦ elim (open_temp answers user_id) [
        | err e ↦ (err e, m)
        | ok temp_path ↦ (
          ok ref,
          track m ref (record {
            id = generate_upload_id hex user_id filename target_path now;
            user_id = user_id;
            filename = filename;
            target_path = target_path;
            temp_path = temp_path;
            size = size;
            bytes_received = 0;
            started_at = now;
            account_max_size = account_max_size;
            done = false;
            closed = false;
          }),
        )
      ]
    ]

unfoldable pub store : UploadManager → ℕ → Upload → UploadManager
store m ref u = record m { uploads = insert ref u m.uploads }

unfoldable pub set_usage : UploadManager → ℕ → UploadManager
set_usage m usage = record m { current_usage = usage }

-- The limits of one upload. `Size - BytesReceived` may be negative, so the test adds instead.
unfoldable pub chunk_refused : Upload → ℕ → Option SpoolError
unfolding int64_sum_exceeds
chunk_refused u n =
    if u.done
    then some upload_cancelled
    else if ltb 0 u.size && ltb u.size (u.bytes_received + n)
    then some file_too_large
    else if int64_sum_exceeds u.bytes_received n u.account_max_size
    then some file_too_large
    else none

-- The reservation, the write, and the rollback of a failed write: the number of bytes written, with
-- an error if there was one.
unfoldable pub put_chunk :
    UploadManager → ℕ → Upload → ℕ → WriteAnswer → (ℕ × Option SpoolError) × UploadManager
unfolding store set_usage
put_chunk m ref u n answer =
    let reserved = add_uint64 m.current_usage n in
    if ltb m.max_total_size reserved then ((0, some spool_capacity_exceeded), m) else elim answer [
      | written ↦ (
        (n, none),
        set_usage (store m ref (record u { bytes_received = u.bytes_received + n })) reserved,
      )
      | write_failed k ↦
          ((k, some os_failure), set_usage m ((reserved + uint64_size - n) % uint64_size))
    ]

unfoldable pub write_chunk :
    UploadManager → Option ℕ → Bytes → WriteAnswer → (ℕ × Option SpoolError) × UploadManager
write_chunk m none chunk answer = ((0, some invalid_parameters), m)
write_chunk m (some ref) chunk answer = elim (lookup ref m.uploads) [
  | none ↦ ((0, some invalid_parameters), m)
  | some u ↦ elim (chunk_refused u (length chunk)) [
    | some e ↦ ((0, some e), m)
    | none ↦ put_chunk m ref u (length chunk) answer
  ]
]

-- `releaseUploadBytes`: only the first call for an upload releases bytes.
unfoldable pub release_upload_bytes : UploadManager → Upload → UploadManager
release_upload_bytes m u = elim (lookup u.id m.active_uploads) [
  | none ↦ m
  | some ref ↦ record m {
    active_uploads = delete u.id m.active_uploads;
    current_usage = m.current_usage - u.bytes_received;
  }
]

-- Where `FinishUpload` moves an upload's file.
unfoldable pub finished_path : (Bytes → Bytes) → Bytes → Upload → Bytes
unfolding generate_file_id
finished_path hex absolute u =
    join_path (join_path absolute (clean u.user_id)) (generate_file_id hex u)

-- The part of `FinishUpload` after the temporary file was closed.
unfoldable pub publish_temp :
    (Bytes → Bytes)
    → UploadManager
    → Upload
    → FinishAnswers
    → Result SpoolError FileRef × UploadManager
unfolding release_upload_bytes generate_file_id finished_path
publish_temp hex m u answers = elim answers.absolute [
  | none ↦ (err os_failure, m)
  | some absolute ↦
      if not ((answers.renamed || answers.copied) && answers.mode_set)
      then (err os_failure, m)
      else (
        ok (record {
          user_id = u.user_id;
          file_id = generate_file_id hex u;
          filename = u.filename;
          size = u.bytes_received;
          path = finished_path hex absolute u;
          created_at = u.started_at;
          target_path = u.target_path;
          status = committed;
        }),
        release_upload_bytes m u,
      )
]

unfoldable pub finish_upload :
    (Bytes → Bytes)
    → UploadManager
    → Option ℕ
    → FinishAnswers
    → Result SpoolError FileRef × UploadManager
unfolding store publish_temp
finish_upload hex m none answers = (err invalid_parameters, m)
finish_upload hex m (some ref) answers = elim (lookup ref m.uploads) [
  | none ↦ (err invalid_parameters, m)
  | some u ↦
      if u.done
      then (err upload_cancelled, m)
      else if ltb 0 u.size && not (u.bytes_received == u.size)
      then (err upload_incomplete, m)
      else if not answers.synced
      then (err os_failure, m)
      else let u' = record u { closed = true } in
        let m' = store m ref u' in
        if not answers.file_closed then (err os_failure, m') else publish_temp hex m' u' answers
]

-- What a `FinishUpload` that fails leaves at the final path, with its size: the moved file when its mode
-- could not be set, or what a failed copy left there.
unfoldable pub left_by_publish : (Bytes → Bytes) → Upload → FinishAnswers → Option (Bytes × ℕ)
unfolding finished_path
left_by_publish hex u answers = elim answers.absolute [
  | none ↦ none
  | some absolute ↦
      if answers.renamed || answers.copied
      then (if answers.mode_set
          then none
          else some (finished_path hex absolute u, u.bytes_received))
      else elim answers.part_copied [
        | none ↦ none
        | some size ↦ some (finished_path hex absolute u, size)
      ]
]

unfoldable pub left_by_finish :
    (Bytes → Bytes) → UploadManager → Option ℕ → FinishAnswers → Option (Bytes × ℕ)
unfolding left_by_publish
left_by_finish hex m none answers = none
left_by_finish hex m (some ref) answers = elim (lookup ref m.uploads) [
  | none ↦ none
  | some u ↦
      if u.done
        || ((ltb 0 u.size && not (u.bytes_received == u.size))
            || (not answers.synced || not answers.file_closed))
      then none
      else left_by_publish hex u answers
]

unfoldable pub abort_upload :
    UploadManager → Option ℕ → Result SpoolError (Unit {0}) × UploadManager
unfolding store release_upload_bytes
abort_upload m none = (err invalid_parameters, m)
abort_upload m (some ref) = elim (lookup ref m.uploads) [
  | none ↦ (err invalid_parameters, m)
  | some u ↦
      let u' = record u { done = true; closed = true } in
      (ok tt, release_upload_bytes (store m ref u') u')
]

-- The reference that `GetUpload` returns, `none` for nil.
unfoldable pub get_upload : UploadManager → Bytes → Option ℕ
get_upload m upload_id = lookup upload_id m.active_uploads

unfoldable pub remove_upload : UploadManager → Bytes → UploadManager
unfolding release_upload_bytes get_upload
remove_upload m upload_id = elim (get_upload m upload_id) [
  | none ↦ m
  | some ref ↦ elim (lookup ref m.uploads) [ none ↦ m | some u ↦ release_upload_bytes m u ]
]

unfoldable pub current_usage : UploadManager → ℕ × ℕ
current_usage m = (m.current_usage, length m.active_uploads)

-- The caller's context is done.
unfoldable pub cancel_context : UploadManager → ℕ → UploadManager
cancel_context m ref = elim (lookup ref m.uploads) [
  | none ↦ m
  | some u ↦ store m ref (record u { done = true })
]
