-- ===== src/Spool/Streaming/Whole.antt =====
-- A successful `StoreStream` has stored every byte that the reader gave, and as many as announced.
use ocis_ftp_bridge.Prelude.{
  ℕ, ◌+◌, ◌≡◌, refl, sym, ap, ◌∙◌, Bool, true, ◌==◌, Option, none, some, Bytes, length, [], ◌∷◌,
  Result, ok, err, arith, Bool-cases, inl, inr, ◌⊎◌, Result-cases, if◌then◌else◌,
}
use ocis_ftp_bridge.Prelude.Int.{ℤ, pos, negsuc}
use ocis_ftp_bridge.Prelude.Map.{lookup, nat_eq, bytes_eq, lookup-insert_self}
use ocis_ftp_bridge.Spool.Types.{
  SpoolError, FileRef, Upload, UploadManager, StartAnswers, FinishAnswers, WriteAnswer, written,
  write_failed,
}
use ocis_ftp_bridge.Spool.UploadManager.{
  start_upload, write_chunk, finish_upload, known_size, check_start, open_temp, track, put_chunk,
  store, set_usage,
}
use ocis_ftp_bridge.Spool.UploadManager.Ends.{finish_upload-ok}
use ocis_ftp_bridge.Spool.Streaming.{
  read_bytes, read_failed, Reads, Streamed, stream_failed, after_write, stream_chunks, is_positive,
  check_stream, finish_stream, stream_started, store_stream,
}

-- The bytes up to the first read that gives none.
unfoldable pub read_total : Reads → ℕ
read_total [] = 0
read_total ((read_failed, answer) ∷ more) = read_total more
read_total ((read_bytes p, answer) ∷ more) =
    let rest = read_total more in if length p == 0 then 0 else length p + rest

abbrev Has : ℕ → Upload → ℕ → UploadManager → Type 0
Has ref u n m = lookup ref m.uploads ≡ some (record u { bytes_received = u.bytes_received + n })

put_chunk-Has :
    (m : UploadManager) (ref : ℕ) (u : Upload) (n : ℕ) (answer : WriteAnswer)
    → (put_chunk m ref u n answer).0.1 ≡ none
    → Has ref u n (put_chunk m ref u n answer).1
unfolding put_chunk store set_usage
put_chunk-Has m ref u n written h =
    ground
      (arith, lookup-insert_self ref (record u { bytes_received = u.bytes_received + n }) m.uploads)
put_chunk-Has m ref u n (write_failed k) h = ground arith

write_chunk-Has :
    (m : UploadManager) (ref : ℕ) (u : Upload) (p : Bytes) (answer : WriteAnswer)
    → lookup ref m.uploads ≡ some u
    → (write_chunk m (some ref) p answer).0.1 ≡ none
    → Has ref u (length p) (write_chunk m (some ref) p answer).1
unfolding write_chunk
write_chunk-Has m ref u p answer at h = ground (arith, put_chunk-Has m ref u (length p) answer)

after_write-none :
    (ref : ℕ) (r : (ℕ × Option SpoolError) × UploadManager) (next : UploadManager → Streamed)
    → (after_write ref r next).0 ≡ none
    → (r.0.1 ≡ none) × (after_write ref r next ≡ next r.1)
unfolding after_write stream_failed
after_write-none ref ((n, none), m) next h = (refl, refl)
after_write-none ref ((n, some e), m) next h = cc

grown :
    (u : Upload) (n : ℕ) → u.bytes_received ≡ n → some u ≡ some (record u { bytes_received = n })
grown u n is = ap (λ k. some (record u { bytes_received = k })) is

stream_chunks-Has :
    (ref : ℕ) (reads : Reads) (m : UploadManager) (u : Upload)
    → lookup ref m.uploads ≡ some u
    → (stream_chunks ref reads m).0 ≡ none
    → Has ref u (read_total reads) (stream_chunks ref reads m).1
unfolding stream_chunks read_total stream_failed
stream_chunks-Has ref [] m u at h = at ∙ grown u (u.bytes_received + 0) (omega arith)
stream_chunks-Has ref ((read_failed, answer) ∷ more) m u at h = cc
stream_chunks-Has ref ((read_bytes p, answer) ∷ more) m u at h = elim (Bool-cases (length p == 0)) [
  | inl stop ↦
      rw (stop, stream_chunks, read_total) (at ∙ grown u (u.bytes_received + 0) (omega arith))
  | inr go_on ↦
      let all = (read_bytes p, answer) ∷ more in
      let r = write_chunk m (some ref) p answer in
      let next = stream_chunks ref more in
      let is : stream_chunks ref all m ≡ after_write ref r next = rw (go_on, stream_chunks) refl in
      let (fine, on) = after_write-none ref r next (ap (λ x. x.0) (sym is) ∙ h) in
      let v = record u { bytes_received = u.bytes_received + length p } in
      let here = write_chunk-Has m ref u p answer at fine in
      let there = stream_chunks-Has ref more r.1 v here (ap (λ x. x.0) (sym (is ∙ on)) ∙ h) in
      let total : read_total all ≡ length p + read_total more = rw (go_on, read_total) refl in
      let sum : (u.bytes_received + length p) + read_total more
          ≡ u.bytes_received + read_total all =
        omega (arith, total) in
      ap (λ x. lookup ref x.1.uploads) (is ∙ on)
      ∙ there
      ∙ ap (λ k. some (record u { bytes_received = k })) sum
]

-- An upload of an announced size was started, if any was.
abbrev IsBegun : ℤ → Result SpoolError ℕ × UploadManager → Type 0
IsBegun size (err e, m) = Unit
IsBegun size (ok ref, m) =
    (u : Upload) × (lookup ref m.uploads ≡ some u)
    × (u.size ≡ known_size size)
    × (u.bytes_received ≡ 0)

start_upload-IsBegun :
    (hex : Bytes → Bytes) (m : UploadManager) (ref : ℕ) (user filename target : Bytes) (size : ℤ)
    (limit now : ℕ) (answers : StartAnswers)
    → IsBegun size (start_upload hex m ref user filename target size limit now answers)
unfolding start_upload track
start_upload-IsBegun hex m ref user filename target size limit now answers =
    elim (Result-cases (check_start m user filename target (known_size size) limit)) [
      | inl (e, refused) ↦ rw (refused, start_upload) tt
      | inr (passed, fine) ↦ elim (Result-cases (open_temp answers user)) [
        | inl (e, refused) ↦ rw (fine, start_upload) (rw refused tt)
        | inr (temp, made) ↦
            rw (fine, start_upload) (rw made (_, lookup-insert_self ref _ m.uploads, refl, refl))
      ]
    ]

finish_stream-ok :
    (hex : Bytes → Bytes) (ref : ℕ) (answers : FinishAnswers) (s : Streamed) (file : FileRef)
    → (finish_stream hex ref answers s).0 ≡ ok file
    → (s.0 ≡ none) × ((finish_upload hex s.1 (some ref) answers).0 ≡ ok file)
unfolding finish_stream
finish_stream-ok hex ref answers (none, m) file h = (refl, h)
finish_stream-ok hex ref answers (some e, m) file h = cc

stream_started-ok :
    (hex : Bytes → Bytes) (size : ℤ) (reads : Reads) (answers : FinishAnswers)
    (r : Result SpoolError ℕ × UploadManager) (file : FileRef)
    → IsBegun size r
    → (stream_started hex reads answers r).0 ≡ ok file
    → (file.size ≡ read_total reads) × ((known_size size ≡ 0) ⊎ (file.size ≡ known_size size))
unfolding stream_started
stream_started-ok hex size reads answers (err e, m) file begun h = cc
stream_started-ok hex size reads answers (ok ref, m) file (u, at, sized, none_yet) h =
    let s = stream_chunks ref reads m in
    let (fine, finished) = finish_stream-ok hex ref answers s file h in
    let v = record u { bytes_received = u.bytes_received + read_total reads } in
    let here = stream_chunks-Has ref reads m u at fine in
    let done = finish_upload-ok hex s.1 ref v answers file here finished in
    ground (arith, done.0, done.1, sized, none_yet)

pos-of_positive :
    (z : ℤ) (n : ℕ) → is_positive z ≡ true → (known_size z ≡ 0) ⊎ (n ≡ known_size z) → pos n ≡ z
unfolding is_positive known_size
pos-of_positive (pos k) n h is = ap pos (ground arith)
pos-of_positive (negsuc k) n h is = cc

-- When `StoreStream` succeeds, the size of the stored file is the announced size, and it is the number
-- of the bytes that the reader gave up to its first empty read.
pub store_stream-ok :
    (hex : Bytes → Bytes) (max_size : ℕ) (m : UploadManager) (ref : ℕ)
    (user filename target : Bytes) (has_reader : Bool) (size : ℤ) (now : ℕ) (start : StartAnswers)
    (reads : Reads) (finish : FinishAnswers) (file : FileRef)
    → (store_stream hex max_size m ref user filename target has_reader size now start reads
        finish).0
      ≡ ok file
    → (pos file.size ≡ size) × (file.size ≡ read_total reads)
unfolding store_stream check_stream
store_stream-ok hex max_size m ref user filename target has_reader size now start reads finish file
      h =
    let begun = start_upload-IsBegun hex m ref user filename target size max_size now start in
    let r = start_upload hex m ref user filename target size max_size now start in
    let positive : is_positive size ≡ true = ground arith in
    let started : (stream_started hex reads finish r).0 ≡ ok file = ground arith in
    let (all, announced) = stream_started-ok hex size reads finish r file begun started in
    (pos-of_positive size file.size positive announced, all)
