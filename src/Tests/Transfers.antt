-- ===== src/Tests/Transfers.antt =====
-- Runs of the model of the uploads in pkg/ftp.
use ocis_ftp_bridge.Prelude.{
  ℕ, Bytes, codes, ◌≡◌, refl, ap, none, some, ok, true, false, Option, List, [], ◌∷◌, ◌++◌, same,
  All,
}
use ocis_ftp_bridge.Prelude.Map.{lookup, insert, nat_eq, bytes_eq}
use ocis_ftp_bridge.Go.Strings.{trim_prefix}
use ocis_ftp_bridge.Go.FilePath.{names, join_path, dir, base, rel, is_abs, slash}
use ocis_ftp_bridge.Go.FilePath.Components.{NoUp}
use ocis_ftp_bridge.Go.Strconv.{decimal}
use ocis_ftp_bridge.Go.Utf8.{valid_string}
use ocis_ftp_bridge.Transfer.Paths.{
  get_target, safe_name, filename_goes_up, bounded_name, sanitize_filename, validate_target_path,
  add_ftp_path, add_filename, target_path_in, calculate_target_path,
}
use ocis_ftp_bridge.Transfer.Collisions.{check_collision, resolve_collision, resolve_reject}
use ocis_ftp_bridge.Transfer.Containment.{file_names}
use ocis_ftp_bridge.Transfer.Directories.{ensure_parent_directories, create_missing}
use ocis_ftp_bridge.Transfer.Upload.{process_upload}
use ocis_ftp_bridge.Spool.UploadManager.{
  known_size, user_directory, open_temp, track, start_upload, chunk_refused, put_chunk, write_chunk,
  finish_upload,
}
use ocis_ftp_bridge.Webdav.Paths.{has_drive, has_control, windows_traversal, rooted, normalize_path}
use ocis_ftp_bridge.Webdav.Client.{
  handle_upload_response, is_temporary, conclude, proceed, send, do_upload, after_attempt,
  retry_upload, upload_stream,
}
use ocis_ftp_bridge.Ftp.UploadSlots.{acquire_upload_slot, taken_by}
use ocis_ftp_bridge.Ftp.Uploads.{generate_session_upload_id, handle_upload_open}
use ocis_ftp_bridge.Ftp.Uploads.Writing.{write, write_all}
use ocis_ftp_bridge.Ftp.Uploads.Writing.Counted.{sent_bytes}
use ocis_ftp_bridge.Ftp.Uploads.Closing.{close}
use ocis_ftp_bridge.Transfer.Types.{reject, TargetConfig, Client, TransferManager}
use ocis_ftp_bridge.Spool.Types.{WriteAnswer, written, write_failed, os_failure}
use ocis_ftp_bridge.Webdav.Types.{WebdavError, Transport}
use ocis_ftp_bridge.Ftp.Uploads.{
  UploadSession, UploadState, UploadWriter, OpenAnswers, spool_failed,
}
use ocis_ftp_bridge.Ftp.Uploads.Opening.{IsOpened, handle_upload_open-IsOpened}
use ocis_ftp_bridge.Ftp.Uploads.Closing.{CloseAnswers}
use ocis_ftp_bridge.Ftp.Uploads.Closing.Stored.{IsStored, IsCounted, transfer}
use ocis_ftp_bridge.Ftp.Uploads.Closing.Ends.{
  IsEnded, close-IsEnded, close_leaves_no_file, write_error_sticks,
}
use ocis_ftp_bridge.Ftp.Uploads.Stor.{
  stor-IsStored, stor_returns_slot, handle_upload_open_contained,
}

-- A server whose answers are given in advance.
abbrev next_answer : List ℕ → Option ℕ × List ℕ
next_answer [] = (none, [])
next_answer (status ∷ more) = (some status, more)

abbrev scripted : Transport (List ℕ)
scripted = record {
  parse_url = λ url. some url;
  perform = λ request s. next_answer s;
  rewind = λ s. (true, s);
  wait = λ s. (true, s);
}

-- Only the root of the account is there.
abbrev only_root : Client (List ℕ) WebdavError
only_root = record {
  check_path_existence = λ p s. (ok (same p (codes "/r")), s);
  create_directory = λ p s. (ok tt, s);
}

abbrev config : TargetConfig
config = record {
  drive_id = [];
  drive = codes "d";
  root = codes "/r";
  collision_policy = reject;
  max_size = 9;
}

abbrev manager : TransferManager (List ℕ) WebdavError
manager = record {
  target_configs = (codes "u", config) ∷ [];
  upload_counters = [];
  webdav_client = some only_root;
}

abbrev session : UploadSession
session = record {
  user = codes "u";
  slot_account = record { username = codes "u"; max_concurrent_uploads = 2 };
  max_size = 100;
  collision_policy = reject;
  target_root = codes "/r";
  webdav_client = record { base_url = codes "h"; username = codes "u"; token = codes "t" };
}

-- The server will fail once, then take the file.
abbrev idle : UploadState (List ℕ)
idle = record {
  transfer_managers = (codes "u", manager) ∷ [];
  upload_slots = [];
  spool = record {
    spool_dir = codes "/s";
    max_total_size = 100;
    current_usage = 0;
    active_uploads = [];
    uploads = [];
  };
  spool_uploads = [];
  upload_counter = 0;
  uploads_total = 0;
  uploads_success = 0;
  uploads_failed = 0;
  total_bytes_uploaded = 0;
  spooled = [];
  remote = 503 ∷ 201 ∷ [];
}

abbrev at_open : OpenAnswers
at_open = record {
  stamp = [];
  reference = 0;
  now = 7;
  start = record {
    absolute = some (codes "/s");
    directory_made = true;
    temp_file = some (codes "/s/u/t");
    mode_set = true;
  };
}

abbrev at_close : CloseAnswers
at_close = record {
  finish = record {
    synced = true;
    file_closed = true;
    absolute = some (codes "/s");
    renamed = true;
    copied = false;
    part_copied = none;
    mode_set = true;
  };
  opens = λ attempt. true;
  removes = true;
}

abbrev hex : Bytes → Bytes
hex s = s

abbrev writer : UploadWriter
writer = record { upload_id = codes "u-1-7"; upload = 0; path = codes "/r/f"; write_err = none }

abbrev opened : UploadState (List ℕ)
opened = (handle_upload_open hex session at_open idle (codes "/f")).1

abbrev content : List (Bytes × WriteAnswer)
content = (codes "ab", written) ∷ (codes "c", written) ∷ []

has_manager : lookup (codes "u") idle.transfer_managers ≡ some manager
unfolding lookup
has_manager = refl

has_target : get_target manager (codes "u") ≡ some config
unfolding get_target lookup
has_target = refl

is_opened : handle_upload_open hex session at_open idle (codes "/f") ≡ (ok writer, opened)
unfolding lookup trim_prefix join_path dir base rel decimal get_target safe_name filename_goes_up
    bounded_name sanitize_filename validate_target_path add_ftp_path add_filename target_path_in
    calculate_target_path check_collision resolve_collision resolve_reject ensure_parent_directories
    create_missing process_upload known_size user_directory open_temp start_upload
    acquire_upload_slot generate_session_upload_id handle_upload_open
is_opened = refl

is_done : (transfer scripted session hex at_close writer content opened).0 ≡ none
unfolding lookup insert trim_prefix join_path dir base rel valid_string get_target safe_name
    filename_goes_up bounded_name sanitize_filename validate_target_path add_ftp_path add_filename
    target_path_in calculate_target_path check_collision resolve_collision resolve_reject
    ensure_parent_directories create_missing process_upload known_size user_directory open_temp
    track start_upload chunk_refused put_chunk write_chunk finish_upload has_drive has_control
    windows_traversal rooted normalize_path handle_upload_response is_temporary conclude proceed
    send do_upload after_attempt retry_upload upload_stream acquire_upload_slot handle_upload_open
    write_all close
is_done = refl

stor-IsStored_example :
    IsStored scripted session 3 0
      (codes "/r/f")
      (sent_bytes content)
      (transfer scripted session hex at_close writer content opened).1.remote
    × IsCounted scripted session
        (sent_bytes content)
        opened
        (transfer scripted session hex at_close writer content opened).1
stor-IsStored_example =
    stor-IsStored scripted hex session at_open at_close idle opened (codes "/f") manager config
      writer content has_manager has_target refl is_opened is_done

stor_returns_slot_example :
    taken_by
      (codes "u")
      (transfer scripted session hex at_close writer content opened).1.upload_slots
    ≡ taken_by (codes "u") idle.upload_slots
stor_returns_slot_example =
    stor_returns_slot scripted hex session at_open at_close idle opened (codes "/f") (codes "u")
      writer content is_opened

handle_upload_open_contained_example :
    (is_abs (codes "/r/f") ≡ true)
    × All NoUp (names (codes "/r/f"))
    × (filename : Bytes) × (names (codes "/r/f")
        ≡ names (codes "/r")
          ++ (names (trim_prefix (dir (codes "/f")) (slash ∷ [])) ++ file_names filename))
handle_upload_open_contained_example =
    handle_upload_open_contained hex session at_open idle (codes "/f") manager config writer
      has_manager has_target refl (ap (λ r. r.0) is_opened)

handle_upload_open_example :
    IsOpened hex session (codes "u") idle (handle_upload_open hex session at_open idle (codes "/f"))
handle_upload_open_example =
    handle_upload_open-IsOpened hex session at_open idle (codes "/f") (codes "u")

close_ends_example :
    IsEnded scripted session writer opened (close scripted session hex at_close writer opened)
close_ends_example = close-IsEnded scripted session hex at_close writer opened

nothing_spooled : lookup (codes "/s/u/g") opened.spooled ≡ none
unfolding lookup trim_prefix join_path dir base rel get_target safe_name filename_goes_up
    bounded_name sanitize_filename validate_target_path add_ftp_path add_filename target_path_in
    calculate_target_path check_collision resolve_collision resolve_reject ensure_parent_directories
    create_missing process_upload known_size user_directory open_temp start_upload
    acquire_upload_slot handle_upload_open
nothing_spooled = refl

close_leaves_no_file_example :
    lookup (codes "/s/u/g") (close scripted session hex at_close writer opened).1.spooled ≡ none
close_leaves_no_file_example =
    close_leaves_no_file scripted session hex at_close writer opened (codes "/s/u/g") refl refl refl
      nothing_spooled

is_refused :
    (write writer opened.spool (codes "a") (write_failed 0)).0.1 ≡ some (spool_failed os_failure)
unfolding lookup insert trim_prefix join_path dir base rel get_target safe_name filename_goes_up
    bounded_name sanitize_filename validate_target_path add_ftp_path add_filename target_path_in
    calculate_target_path check_collision resolve_collision resolve_reject ensure_parent_directories
    create_missing process_upload known_size user_directory open_temp track start_upload
    chunk_refused put_chunk write_chunk acquire_upload_slot handle_upload_open write_all
is_refused = refl

write_error_sticks_example :
    (write_all
        (write writer opened.spool (codes "a") (write_failed 0)).1.0
        (write writer opened.spool (codes "a") (write_failed 0)).1.1
        content
      ≡ (write writer opened.spool (codes "a") (write_failed 0)).1)
    × ((close scripted session hex at_close
          (write writer opened.spool (codes "a") (write_failed 0)).1.0
          opened).0
        ≡ some (spool_failed os_failure))
write_error_sticks_example =
    write_error_sticks scripted session hex at_close writer opened (codes "a") (write_failed 0)
      (spool_failed os_failure) content is_refused
