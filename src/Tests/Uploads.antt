-- ===== src/Tests/Uploads.antt =====
-- Runs of the model of pkg/transfer.
use ocis_ftp_bridge.Prelude.{
  Bytes, codes, ◌≡◌, ◌≢◌, refl, some, ok, Bool, true, false, List, [], ◌∷◌, ◌++◌, same,
  if◌then◌else◌, All, reverse,
}
use ocis_ftp_bridge.Prelude.Int.{pos}
use ocis_ftp_bridge.Prelude.Map.{lookup}
use ocis_ftp_bridge.Go.Strings.{has_byte, trim_left}
use ocis_ftp_bridge.Go.FilePath.{is_abs, names, render, join_path, dir, base}
use ocis_ftp_bridge.Go.FilePath.Components.{NoUp}
use ocis_ftp_bridge.Transfer.Types.{
  reject, TargetConfig, TransferRequest, Transferred, Client, TransferManager,
}
use ocis_ftp_bridge.Transfer.Paths.{
  get_target, has_traversal, clean_ftp_path, normalize_ftp_path, safe_name, filename_goes_up,
  bounded_name, sanitize_filename, validate_target_path, add_ftp_path, add_filename, target_path_in,
  calculate_target_path,
}
use ocis_ftp_bridge.Transfer.Collisions.{check_collision, resolve_collision, resolve_reject}
use ocis_ftp_bridge.Transfer.Directories.{
  ensure_parent_directories, create_missing, create_parents, create,
}
use ocis_ftp_bridge.Transfer.Directories.Chain.{ensure-create_down, create_down}
use ocis_ftp_bridge.Transfer.Upload.{process_upload}
use ocis_ftp_bridge.Transfer.Upload.Placed.{process_upload_contained}
use ocis_ftp_bridge.Transfer.Containment.{calculate_target_path_contained, file_names}

abbrev member : Bytes → List Bytes → Bool
member p [] = false
member p (q ∷ s) = let rest = member p s in if same p q then true else rest

-- A remote side that is the list of its paths.
abbrev remote : Client (List Bytes) Bytes
remote = record {
  check_path_existence = λ p s. (ok (member p s), s);
  create_directory = λ p s. (ok tt, p ∷ s);
}

abbrev config : TargetConfig
config = record {
  drive_id = [];
  drive = codes "d";
  root = codes "/r";
  collision_policy = reject;
  max_size = 9;
}

abbrev manager : TransferManager (List Bytes) Bytes
manager = record {
  target_configs = (codes "u", config) ∷ [];
  upload_counters = [];
  webdav_client = some remote;
}

abbrev request : TransferRequest
request = record { user_id = codes "u"; filename = codes "f"; path = codes "a"; size = pos 3 }

abbrev done : Transferred
done = record { target_path = codes "/r/a/f"; filename = codes "f"; size = pos 3 }

is_target : get_target manager (codes "u") ≡ some config
unfolding get_target lookup
is_target = refl

abbrev dirs : List Bytes
dirs = codes "b" ∷ (codes "a" ∷ [])

target_of_f :
    calculate_target_path manager (codes "u") (codes "a") (codes "f") ≡ ok (codes "/r/a/f")
unfolding trim_left join_path base get_target has_traversal clean_ftp_path normalize_ftp_path
    safe_name filename_goes_up bounded_name sanitize_filename validate_target_path add_ftp_path
    add_filename target_path_in calculate_target_path lookup
target_of_f = refl

calculate_target_path_contained_example :
    (is_abs (codes "/r/a/f") ≡ true)
    × (names (codes "/r/a/f") ≡ names (codes "/r") ++ (names (codes "a") ++ file_names (codes "f")))
    × All NoUp (names (codes "/r/a/f"))
calculate_target_path_contained_example =
    calculate_target_path_contained manager (codes "u") (codes "a") (codes "f") {config = config}
      {p = codes "/r/a/f"} is_target refl target_of_f

processed : (process_upload manager request [] []).0 ≡ ok done
unfolding process_upload resolve_collision resolve_reject check_collision ensure_parent_directories
    create_missing create_parents create trim_left join_path dir base get_target has_traversal
    clean_ftp_path normalize_ftp_path safe_name filename_goes_up bounded_name sanitize_filename
    validate_target_path add_ftp_path add_filename target_path_in calculate_target_path lookup
processed = refl

process_upload_contained_example :
    (is_abs done.target_path ≡ true)
    × (names done.target_path
        ≡ names config.root ++ (names request.path ++ file_names done.filename))
    × All NoUp (names done.target_path)
    × (done.size ≡ request.size)
process_upload_contained_example =
    process_upload_contained manager request [] [] config done is_target refl processed

not_there : (remote.check_path_existence (render true (reverse dirs)) []).0 ≢ ok true
not_there h = cc

ensure-create_down_example :
    ensure_parent_directories (some remote) (render true (reverse dirs ++ codes "f" ∷ [])) []
    ≡ create_down remote dirs (remote.check_path_existence (render true (reverse dirs)) []).1
unfolding has_byte
ensure-create_down_example =
    ensure-create_down remote (codes "b") (codes "f") (codes "a" ∷ []) []
      (
        record { free = refl; filled = refl; no_dot = refl },
        (
          record { free = refl; filled = refl; no_dot = refl },
          (record { free = refl; filled = refl; no_dot = refl }, tt),
        ),
      )
      (refl, (refl, tt)) not_there
