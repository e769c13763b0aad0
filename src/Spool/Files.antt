-- ===== src/Spool/Files.antt =====
-- pkg/spool/spool.go: `defaultManager`, the stored files. The disk is a map from absolute paths to
-- files. What the operating system allows, the working directory of `filepath.Abs`, the clock and
-- SHA-256 are parameters. The order of a directory's entries is left open.
pub mod Below
pub mod Plain
pub mod Dictionary
pub mod Removal
use ocis_ftp_bridge.Prelude.{
  ℕ, ◌+◌, ◌-◌, ◌*◌, Bool, true, false, Option, none, some, ◌&&◌, ◌||◌, not, ltb, leb, ◌==◌,
  if◌then◌else◌, Bytes, codes, same, take, length, ◌++◌, [], List, ◌∷◌, Result, ok, err, refuse,
  ◌>>=◌, ◌>>◌,
}
use ocis_ftp_bridge.Prelude.Map.{Map, lookup, insert, delete, bytes_eq}
use ocis_ftp_bridge.Go.Strings.{contains, has_prefix, has_suffix, has_byte, split}
use ocis_ftp_bridge.Go.Strconv.{decimal}
use ocis_ftp_bridge.Go.FilePath.{clean, join_path, rel, dot, dot_dot, slash, base, dir, is_abs}
use ocis_ftp_bridge.Spool.Types.{
  FileStatus, committed, SpoolError, invalid_parameters, file_too_large, path_traversal, empty_data,
  file_not_found, os_failure, FileRef,
}

pub record StoredFile : Type 0 where
  pub contents : Bytes
  pub mod_time : ℕ

abbrev pub Disk : Type 0
Disk = Map Bytes StoredFile

-- What the calls of package os answer, by path; `absolute` is `filepath.Abs`. A user's directory that
-- is not there counts as one that may be read and has no entries.
pub record Os : Type 0 where
  pub absolute : Bytes → Option Bytes
  pub may_make : Bytes → Bool
  pub may_write : Bytes → Bool
  pub may_read : Bytes → Bool
  pub may_remove : Bytes → Bool

pub record Manager : Type 0 where
  pub spool_dir : Bytes
  pub max_size : ℕ

abbrev pub found : {A : Type 0} → SpoolError → Option A → Result SpoolError A
found e none = err e
found e (some a) = ok a

abbrev pub up_slash : Bytes
up_slash = codes "../"

-- The test of `Store` on the user's directory, and that of the other operations.
unfoldable pub is_outside : Option Bytes → Bool
is_outside none = true
is_outside (some r) = same r dot_dot || (has_prefix r up_slash || is_abs r)

unfoldable pub is_above : Option Bytes → Bool
is_above none = true
is_above (some r) = has_prefix r dot_dot

-- The id of a stored file. `hex` stands for the hexadecimal SHA-256 of a string.
unfoldable pub stored_id : (Bytes → Bytes) → Bytes → Bytes → ℕ → Bytes → Bytes
stored_id hex user_id filename now content =
    codes "file-"
    ++ (take 16 (hex (filename ++ (codes "-" ++ (user_id ++ (codes "-" ++ decimal now)))))
        ++ (codes "-" ++ decimal (length content)))

-- The answer of an operation, with the disk it leaves.
abbrev pub answer :
    {A B : Type 0} → Disk → Result SpoolError A → (A → B × Disk) → Result SpoolError B × Disk
answer disk (err e) next = (err e, disk)
answer disk (ok a) next = (ok (next a).0, (next a).1)

-- A file id is a plain name.
unfoldable pub id_refused : Bytes → Bool
id_refused file_id =
    same file_id dot
    || (same file_id dot_dot
        || (not (same file_id (base file_id)) || contains file_id (codes "\\")))

unfoldable pub remove_file : (Bytes → Bool) → Bytes → Disk → Result SpoolError (Unit {0}) × Disk
remove_file may path disk = elim (lookup path disk) [
  | none ↦ (ok tt, disk)
  | some file ↦ if may path then (ok tt, delete path disk) else (err os_failure, disk)
]

-- The name of a directory's entry at a path, if the path is one.
unfoldable pub entry_name : Bytes → Bytes → Option Bytes
entry_name directory path = if same (dir path) directory then some (base path) else none

unfoldable pub file_ref : Bytes → Bytes → Bytes → StoredFile → FileRef
file_ref user_id name path file = record {
  user_id = user_id;
  file_id = name;
  filename = name;
  size = length file.contents;
  path = path;
  created_at = file.mod_time;
  target_path = [];
  status = committed;
}

-- The entries of a directory, without temporary files.
unfoldable pub list_entries : Bytes → Bytes → Disk → List FileRef
unfolding file_ref entry_name
list_entries user_id directory [] = []
list_entries user_id directory ((path, file) ∷ disk) =
    let rest = list_entries user_id directory disk in
    elim (entry_name directory path) [
      | none ↦ rest
      | some name ↦
          if has_suffix name (codes ".tmp")
          then rest
          else file_ref user_id name (join_path directory name) file ∷ rest
    ]

unfoldable pub find_ref : Bytes → List FileRef → Result SpoolError FileRef
find_ref file_id [] = err file_not_found
find_ref file_id (f ∷ fs) =
    let rest = find_ref file_id fs in if same f.file_id file_id then ok f else rest

-- The first two components of a path below the spool: the user and the file.
unfoldable pub spool_parts : Option Bytes → Option (Bytes × Bytes)
spool_parts none = none
spool_parts (some r) = elim (split slash r) [
  | [] ↦ none
  | user ∷ [] ↦ none
  | user ∷ name ∷ more ↦ some (user, name)
]

pub record SpoolFile : Type 0 where
  pub file : FileRef
  pub mod_time : ℕ

-- The walk below the spool directory.
unfoldable pub walk_files : Bytes → Disk → List SpoolFile
unfolding spool_parts file_ref is_outside
walk_files absolute [] = []
walk_files absolute ((path, file) ∷ disk) =
    let rest = walk_files absolute disk in
    if is_outside (rel absolute path) then rest else elim (spool_parts (rel absolute path)) [
      | none ↦ rest
      | some (user, name) ↦
          record { file = file_ref user name path file; mod_time = file.mod_time } ∷ rest
    ]

unfoldable pub committed_refs : List SpoolFile → List FileRef
committed_refs [] = []
committed_refs (f ∷ fs) =
    let rest = committed_refs fs in elim f.file.status [ committed ↦ f.file ∷ rest | _ ↦ rest ]

-- Minutes, as nanoseconds; an age of 0 stands for one that is not positive. The nanoseconds of an age
-- fit into an int64, which holds up to 153722867 minutes.
abbrev pub age_limit : ℕ → ℕ
age_limit max_age = (if max_age == 0 then 30 else max_age) * 60000000000

module _ (os : Os) (m : Manager) where
  unfoldable pub user_dir : Bytes → Result SpoolError (Bytes × Bytes)
  user_dir user_id = do
    absolute ← found os_failure (os.absolute m.spool_dir)
    ok (absolute, join_path absolute (clean user_id))

  -- The path that `Store` writes to.
  unfoldable pub store_path :
      (Bytes → Bytes) → Bytes → Bytes → ℕ → Bytes → Result SpoolError (Bytes × Bytes)
  unfolding user_dir is_outside stored_id
  store_path hex user_id filename now content = do
    refuse (same user_id [] || same filename []) invalid_parameters
    refuse (same content []) empty_data
    refuse (ltb m.max_size (length content)) file_too_large
    refuse (contains user_id dot_dot) path_traversal
    dirs ← user_dir user_id
    refuse (is_outside (rel dirs.0 dirs.1)) path_traversal
    refuse (not (os.may_make dirs.1)) os_failure
    let file_id = stored_id hex user_id filename now content
    let path = join_path dirs.1 file_id
    refuse (not (os.may_write path)) os_failure
    ok (file_id, path)

  -- The clock is read once.
  unfoldable pub store :
      (Bytes → Bytes) → Bytes → Bytes → ℕ → Bytes → Disk → Result SpoolError FileRef × Disk
  store hex user_id filename now content disk =
      answer disk (store_path hex user_id filename now content) (λ p. (
        record {
          user_id = user_id;
          file_id = p.0;
          filename = filename;
          size = length content;
          path = p.1;
          created_at = now;
          target_path = [];
          status = committed;
        },
        insert p.1 (record { contents = content; mod_time = now }) disk,
      ))

  -- The directory that `Retrieve` and `List` read.
  unfoldable pub read_dir : Bytes → Result SpoolError Bytes
  unfolding user_dir is_above
  read_dir user_id = do
    dirs ← user_dir user_id
    refuse (is_above (rel dirs.0 dirs.1)) path_traversal
    ok dirs.1

  unfoldable pub read_file : Bytes → Disk → Option Bytes
  read_file path disk = elim (lookup path disk) [
    | none ↦ none
    | some file ↦ if os.may_read path then some file.contents else none
  ]

  unfoldable pub read_either : Bytes → Bytes → Disk → Result SpoolError Bytes
  read_either first second disk = elim (read_file first disk) [
    | some content ↦ ok content
    | none ↦ found file_not_found (read_file second disk)
  ]

  unfoldable pub retrieve : Bytes → Bytes → Disk → Result SpoolError Bytes
  unfolding read_dir id_refused read_either
  retrieve user_id file_id disk = do
    refuse (same user_id [] || same file_id []) invalid_parameters
    refuse (id_refused file_id) path_traversal
    directory ← read_dir user_id
    read_either (join_path directory file_id) (join_path directory (codes "file-" ++ file_id)) disk

  -- A directory that is not there has no entries.
  unfoldable pub list_files : Bytes → Disk → Result SpoolError (List FileRef)
  unfolding read_dir list_entries
  list_files user_id disk = do
    refuse (same user_id []) invalid_parameters
    directory ← read_dir user_id
    refuse (not (os.may_read directory)) os_failure
    ok (list_entries user_id directory disk)

  unfoldable pub get_file_ref : Bytes → Bytes → Disk → Result SpoolError FileRef
  unfolding list_files find_ref
  get_file_ref user_id file_id disk = do
    refuse (same user_id [] || same file_id []) invalid_parameters
    files ← list_files user_id disk
    find_ref file_id files

  -- The path that `DeleteByPath` removes.
  unfoldable pub delete_path : Bytes → Result SpoolError Bytes
  unfolding is_above
  delete_path path = do
    refuse (same path []) invalid_parameters
    absolute ← found os_failure (os.absolute m.spool_dir)
    file ← found os_failure (os.absolute path)
    refuse (is_above (rel absolute file)) path_traversal
    ok file

  abbrev pub remove_at : Result SpoolError Bytes → Disk → Result SpoolError (Unit {0}) × Disk
  remove_at (err e) disk = (err e, disk)
  remove_at (ok path) disk = remove_file os.may_remove path disk

  unfoldable pub delete_by_path : Bytes → Disk → Result SpoolError (Unit {0}) × Disk
  unfolding delete_path remove_file
  delete_by_path path disk = remove_at (delete_path path) disk

  abbrev pub delete_ref : Result SpoolError FileRef → Disk → Result SpoolError (Unit {0}) × Disk
  delete_ref (err e) disk = (err e, disk)
  delete_ref (ok f) disk = delete_by_path f.path disk

  unfoldable pub delete_file : Bytes → Bytes → Disk → Result SpoolError (Unit {0}) × Disk
  unfolding get_file_ref
  delete_file user_id file_id disk =
      if same user_id [] || same file_id []
      then (err invalid_parameters, disk)
      else delete_ref (get_file_ref user_id file_id disk) disk

  -- Whether every directory on the way down to a file may be read; the last part is the file.
  unfoldable readable_down : Bytes → List Bytes → Bool
  readable_down directory [] = true
  readable_down directory (file ∷ []) = true
  readable_down directory (part ∷ rest ∷ more) =
      let next = join_path directory part in os.may_read next && readable_down next (rest ∷ more)

  abbrev readable_to : Bytes → Option Bytes → Bool
  readable_to absolute none = true
  readable_to absolute (some r) = readable_down absolute (split slash r)

  -- Whether the walk meets no directory that may not be read. A directory without a file below it is
  -- not on the map.
  unfoldable pub may_walk : Bytes → Disk → Bool
  unfolding readable_down
  may_walk absolute [] = true
  may_walk absolute ((path, file) ∷ disk) =
      (is_outside (rel absolute path) || readable_to absolute (rel absolute path))
      && may_walk absolute disk

  -- The walk stops at the first directory that it may not read, and nothing is listed then.
  unfoldable pub list_all : Disk → Result SpoolError (List SpoolFile)
  unfolding walk_files may_walk
  list_all disk = do
    absolute ← found os_failure (os.absolute m.spool_dir)
    refuse (not (os.may_read absolute)) os_failure
    refuse (not (may_walk absolute disk)) os_failure
    ok (walk_files absolute disk)

  -- The loop of `Cleanup`; an error of one file is only printed.
  unfoldable pub delete_old : ℕ → List SpoolFile → Disk → Disk
  unfolding delete_by_path
  delete_old cutoff [] disk = disk
  delete_old cutoff (f ∷ fs) disk =
      delete_old cutoff fs
        (if ltb f.mod_time cutoff then (delete_by_path f.file.path disk).1 else disk)

  abbrev pub clean_listed :
      ℕ → Result SpoolError (List SpoolFile) → Disk → Result SpoolError (Unit {0}) × Disk
  clean_listed cutoff (err e) disk = (err e, disk)
  clean_listed cutoff (ok files) disk = (ok tt, delete_old cutoff files disk)

  unfoldable pub cleanup : ℕ → ℕ → Disk → Result SpoolError (Unit {0}) × Disk
  unfolding list_all delete_old
  cleanup max_age now disk = clean_listed (now - age_limit max_age) (list_all disk) disk

  unfoldable pub mark_published : Bytes → Bytes → Disk → Result SpoolError (Unit {0})
  unfolding get_file_ref
  mark_published user_id file_id disk = do _ ← get_file_ref user_id file_id disk; ok tt

  unfoldable pub get_pending_files : Disk → Result SpoolError (List FileRef)
  unfolding list_all committed_refs
  get_pending_files disk = do files ← list_all disk; ok (committed_refs files)
