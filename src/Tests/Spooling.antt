-- ===== src/Tests/Spooling.antt =====
-- Runs of the model of pkg/spool.
use ocis_ftp_bridge.Prelude.{
  Bytes, codes, ◌≡◌, ◌≤◌, refl, none, some, ok, true, false, arith, ◌⊎◌, [], ◌∷◌,
}
use ocis_ftp_bridge.Prelude.Int.{pos}
use ocis_ftp_bridge.Prelude.Map.{lookup, insert, nat_eq, bytes_eq}
use ocis_ftp_bridge.Go.Strings.{contains}
use ocis_ftp_bridge.Go.FilePath.{join_path, rel}
use ocis_ftp_bridge.Go.Strconv.{digits_onto, decimal, value_from, parse_uint}
use ocis_ftp_bridge.Spool.UploadManager.{
  new_upload_manager, known_size, generate_upload_id, user_directory, open_temp, track,
  start_upload, chunk_refused, put_chunk, write_chunk, finish_upload, current_usage,
}
use ocis_ftp_bridge.Spool.Types.{
  committed, FileRef, Upload, UploadManager, StartAnswers, written, FinishAnswers,
}
use ocis_ftp_bridge.Spool.Streaming.{Reads, read_bytes, store_stream}
use ocis_ftp_bridge.Spool.Streaming.Whole.{read_total, store_stream-ok}
use ocis_ftp_bridge.Spool.UploadManager.Usage.{active_bytes}
use ocis_ftp_bridge.Spool.UploadManager.Chunks.{possible, IsNewId}
use ocis_ftp_bridge.Spool.UploadManager.Steps.{
  Reach, begin, start, write, usage_exact, uploads_within_limits,
}

abbrev hex : Bytes → Bytes
hex s = s

abbrev answers : StartAnswers
answers = record {
  absolute = some (codes "/s");
  directory_made = true;
  temp_file = some (codes "/s/u/t");
  mode_set = true;
}

abbrev empty_spool : UploadManager
empty_spool = new_upload_manager (codes "/s") 100

abbrev started : UploadManager
started =
    (start_upload hex empty_spool 0 (codes "u") (codes "f") (codes "/t") (pos 3) 10 7 answers).1

abbrev upload : Upload
upload = record {
  id = codes "upload-u-f-/t-7";
  user_id = codes "u";
  filename = codes "f";
  target_path = codes "/t";
  temp_path = codes "/s/u/t";
  size = 3;
  bytes_received = 0;
  started_at = 7;
  account_max_size = 10;
  done = false;
  closed = false;
}

abbrev filled : UploadManager
filled = (write_chunk started (some 0) (codes "abc") written).1

abbrev full_upload : Upload
full_upload = record upload { bytes_received = 3 }

is_empty : lookup 0 empty_spool.uploads ≡ none
unfolding lookup new_upload_manager
is_empty = refl

is_new : IsNewId empty_spool (codes "upload-u-f-/t-7")
unfolding lookup new_upload_manager
is_new s x h = cc

id_is : generate_upload_id hex (codes "u") (codes "f") (codes "/t") 7 ≡ codes "upload-u-f-/t-7"
unfolding generate_upload_id decimal
id_is = refl

is_started : lookup 0 started.uploads ≡ some upload
unfolding lookup start_upload known_size contains new_upload_manager open_temp user_directory rel
    join_path track insert generate_upload_id decimal
is_started = refl

is_possible : possible upload written ≡ true
unfolding possible
is_possible = refl

is_filled : lookup 0 filled.uploads ≡ some full_upload
unfolding lookup write_chunk start_upload known_size contains new_upload_manager open_temp
    user_directory rel join_path track insert chunk_refused put_chunk generate_upload_id decimal
is_filled = refl

start_run : Reach hex empty_spool started
unfolding generate_upload_id digits_onto decimal value_from parse_uint
start_run = start 0 (codes "u") (codes "f") (codes "/t") (pos 3) 10 7 answers begin is_empty is_new

run : Reach hex empty_spool filled
run = write 0 upload (codes "abc") written start_run is_started (omega arith) is_possible

usage_exact_example : ((current_usage filled).0 ≡ active_bytes filled) × (active_bytes filled ≤ 100)
usage_exact_example = usage_exact hex (codes "/s") 100 filled (omega arith) run

uploads_within_limits_example :
    (full_upload.bytes_received ≤ full_upload.account_max_size)
    × ((full_upload.size ≡ 0) ⊎ (full_upload.bytes_received ≤ full_upload.size))
uploads_within_limits_example =
    uploads_within_limits hex (codes "/s") 100 filled 0 full_upload (omega arith) run is_filled

abbrev finish_answers : FinishAnswers
finish_answers = record {
  synced = true;
  file_closed = true;
  absolute = some (codes "/s");
  renamed = true;
  copied = false;
  part_copied = none;
  mode_set = true;
}

abbrev reads : Reads
reads = (read_bytes (codes "ab"), written) ∷ (read_bytes (codes "c"), written) ∷ []

abbrev streamed : FileRef
streamed = record {
  user_id = codes "u";
  file_id = codes "file-u-f-/t-7-3";
  filename = codes "f";
  size = 3;
  path = codes "/s/u/file-u-f-/t-7-3";
  created_at = 7;
  target_path = codes "/t";
  status = committed;
}

is_streamed :
    (store_stream hex 10 empty_spool 0
      (codes "u")
      (codes "f")
      (codes "/t")
      true
      (pos 3)
      7
      answers
      reads
      finish_answers).0
    ≡ ok streamed
unfolding store_stream start_upload contains new_upload_manager open_temp user_directory rel
    join_path write_chunk lookup track insert chunk_refused put_chunk finish_upload decimal
is_streamed = refl

store_stream_example : (pos streamed.size ≡ pos 3) × (streamed.size ≡ read_total reads)
store_stream_example =
    store_stream-ok hex 10 empty_spool 0 (codes "u") (codes "f") (codes "/t") true (pos 3) 7 answers
      reads finish_answers streamed is_streamed
