-- ===== src/Tests/Files.antt =====
-- Runs of the model of the stored files in pkg/spool.
use ocis_ftp_bridge.Prelude.{
  ◌-◌, Bytes, codes, ◌≡◌, ◌⊎◌, refl, some, none, ok, true, false, [], ◌∷◌, same, ◌&&◌,
  if◌then◌else◌,
}
use ocis_ftp_bridge.Prelude.Map.{lookup, insert, delete, bytes_eq}
use ocis_ftp_bridge.Go.Strings.{has_prefix, contains, has_byte}
use ocis_ftp_bridge.Go.Strconv.{decimal}
use ocis_ftp_bridge.Go.FilePath.{clean, join_path, rel}
use ocis_ftp_bridge.Spool.Types.{FileRef, committed}
use ocis_ftp_bridge.Spool.Files.{
  Disk, Os, Manager, store_path, store, retrieve, delete_by_path, walk_files, age_limit, cleanup,
}
use ocis_ftp_bridge.Spool.Files.Below.{IsPlain}
use ocis_ftp_bridge.Spool.Files.Dictionary.{path_of, store_refines, retrieve_stored, delete_refines}
use ocis_ftp_bridge.Spool.Files.Removal.{IsBelow, IsOld, delete_by_path-IsBelow, cleanup-IsOld}

-- A system on which every call succeeds, with the root as its working directory.
abbrev os : Os
os = record {
  absolute = λ path. some (clean path);
  may_make = λ path. true;
  may_write = λ path. true;
  may_read = λ path. true;
  may_remove = λ path. true;
}

abbrev manager : Manager
manager = record { spool_dir = codes "/s"; max_size = 100 }

abbrev root : Bytes
root = codes "/s"

abbrev user : Bytes
user = codes "u"

abbrev id : Bytes
id = codes "file-ab-3"

abbrev hex : Bytes → Bytes
hex s = codes "ab"

abbrev content : Bytes
content = codes "abc"

abbrev stored : Disk
stored = (codes "/s/u/file-ab-3", record { contents = content; mod_time = 7 }) ∷ []

abbrev ref : FileRef
ref = record {
  user_id = user;
  file_id = id;
  filename = codes "f";
  size = 3;
  path = codes "/s/u/file-ab-3";
  created_at = 7;
  target_path = [];
  status = committed;
}

hex_no_slash : (s : Bytes) → has_byte 47 (hex s) ≡ false
unfolding has_byte
hex_no_slash s = refl

hex_no_backslash : (s : Bytes) → has_byte 92 (hex s) ≡ false
unfolding has_byte
hex_no_backslash s = refl

user-IsPlain : IsPlain user
unfolding has_byte
user-IsPlain = (record { free = refl; filled = refl; no_dot = refl }, refl)

id-IsPlain : IsPlain id
unfolding has_byte
id-IsPlain = (record { free = refl; filled = refl; no_dot = refl }, refl)

g-IsPlain : IsPlain (codes "g")
unfolding has_byte
g-IsPlain = (record { free = refl; filled = refl; no_dot = refl }, refl)

is_root : os.absolute manager.spool_dir ≡ some root
unfolding clean
is_root = refl

is_stored : store os manager hex user (codes "f") 7 content [] ≡ (ok ref, stored)
unfolding store store_path contains rel clean join_path decimal insert delete
is_stored = refl

store_refines_example : lookup (path_of root user (codes "g")) stored ≡ (
    if same user user && same id (codes "g")
    then some (record { contents = content; mod_time = 7 })
    else lookup (path_of root user (codes "g")) [])
store_refines_example =
    store_refines os manager root is_root refl hex hex_no_slash hex_no_backslash user (codes "f") 7
      content [] stored ref user (codes "g") user-IsPlain user-IsPlain g-IsPlain is_stored

retrieve_stored_example : retrieve os manager user id stored ≡ ok content
retrieve_stored_example =
    retrieve_stored os manager root is_root refl hex hex_no_slash hex_no_backslash user (codes "f")
      7 content [] stored ref user-IsPlain is_stored refl

is_absolute : os.absolute (path_of root user id) ≡ some (path_of root user id)
unfolding join_path clean
is_absolute = refl

is_deleted : delete_by_path os manager (path_of root user id) stored ≡ (ok tt, [])
unfolding delete_by_path join_path rel has_prefix lookup delete
is_deleted = refl

delete_refines_example :
    lookup (path_of root user id) []
    ≡ (if same user user && same id id then none else lookup (path_of root user id) stored)
delete_refines_example =
    delete_refines os manager root is_root refl user id user id stored [] user-IsPlain id-IsPlain
      user-IsPlain id-IsPlain is_absolute is_deleted

delete_by_path_example :
    (lookup
        (codes "/s/u/file-ab-3")
        (delete_by_path os manager (codes "/s/u/x/../file-ab-3") stored).1
      ≡ lookup (codes "/s/u/file-ab-3") stored)
    ⊎ ((os.absolute (codes "/s/u/x/../file-ab-3") ≡ some (codes "/s/u/file-ab-3"))
        × IsBelow os manager root is_root (codes "/s/u/file-ab-3"))
delete_by_path_example =
    delete_by_path-IsBelow os manager root is_root (codes "/s/u/x/../file-ab-3")
      (codes "/s/u/file-ab-3") stored

cleanup_example :
    (lookup (codes "/s/u/file-ab-3") (cleanup os manager 1 90000000000 stored).1
      ≡ lookup (codes "/s/u/file-ab-3") stored)
    ⊎ IsOld os manager root is_root
        (90000000000 - age_limit 1)
        (walk_files root stored)
        (codes "/s/u/file-ab-3")
cleanup_example =
    cleanup-IsOld os manager root is_root 1 90000000000 (codes "/s/u/file-ab-3") stored
