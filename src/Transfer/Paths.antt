-- ===== src/Transfer/Paths.antt =====
-- pkg/transfer/transfer.go: `CalculateTargetPath` and its helpers.
use ocis_ftp_bridge.Prelude.{
  ℕ, Bytes, Option, none, some, Result, ok, err, ◌>>=◌, ◌>>◌, refuse, Bool, false, ◌&&◌, ◌||◌, not,
  [], ◌∷◌, ◌++◌, codes, same, length, if◌then◌else◌, ltb, ◌==◌, map, ◌≡◌, refl,
}
use ocis_ftp_bridge.Prelude.Map.{lookup, insert, bytes_eq}
use ocis_ftp_bridge.Go.Strings.{has_prefix, has_suffix, contains, trim_left}
use ocis_ftp_bridge.Go.FilePath.{slash, dot, dot_dot, is_abs, clean, join_path, base}
use ocis_ftp_bridge.Go.Utf8.{runes, write_runes}
use ocis_ftp_bridge.Transfer.Types.{
  TargetConfig, TransferError, no_target, path_traversal, path_too_long, empty_filename,
  filename_traversal, filename_too_long, outside_root, TransferManager, Client,
}

abbrev backslash : ℕ
backslash = 92

module _ {S E : Type 0} where
  unfoldable pub set_webdav_client : TransferManager S E → Option (Client S E) → TransferManager S E
  set_webdav_client tm client = record tm { webdav_client = client }

  unfoldable pub add_target : TransferManager S E → Bytes → TargetConfig → TransferManager S E
  add_target tm user config = record tm { target_configs = insert user config tm.target_configs }

  unfoldable pub get_target : TransferManager S E → Bytes → Option TargetConfig
  get_target tm user = lookup user tm.target_configs

-- `path[1] == ':'`
abbrev pub has_drive_letter : Bytes → Bool
has_drive_letter [] = false
has_drive_letter (a ∷ []) = false
has_drive_letter (a ∷ b ∷ p) = b == b':'

abbrev pub is_root_path : Bytes → Bool
is_root_path p = same p [] || same p dot || same p (slash ∷ [])

-- The five patterns of `traversalPatterns`.
unfoldable pub has_traversal : Bytes → Bool
unfolding contains
has_traversal p =
    contains p dot_dot
    || contains p (slash ∷ dot_dot)
    || contains p (dot_dot ++ slash ∷ [])
    || contains p (backslash ∷ dot_dot ++ backslash ∷ [])
    || contains p (dot_dot ++ backslash ∷ [])

abbrev pub starts_absolute : Bytes → Bool
starts_absolute p = has_prefix p (slash ∷ []) || has_prefix p (backslash ∷ [])

abbrev pub is_separator : ℕ → Bool
is_separator c = c == b'/' || c == 92

abbrev pub max_path_length : ℕ
max_path_length = 4096

module _ {E : Type 0} where
  -- The part of `normalizeFTPPath` past the trimming of leading separators.
  unfoldable pub clean_ftp_path : Bytes → Result (TransferError E) Bytes
  clean_ftp_path p = if same p [] then ok [] else do
    refuse (contains (clean p) dot_dot) (path_traversal p)
    refuse (is_abs (clean p)) (path_traversal p)
    refuse (ltb max_path_length (length (clean p))) (path_too_long (length (clean p)))
    ok (clean p)

  unfoldable pub normalize_ftp_path : Bytes → Result (TransferError E) Bytes
  normalize_ftp_path p = if is_root_path p then ok [] else do
    refuse (has_traversal p) (path_traversal p)
    refuse (starts_absolute p) (path_traversal p)
    refuse (has_drive_letter p) (path_traversal p)
    clean_ftp_path (trim_left is_separator p)

-- A control character becomes an underscore.
unfoldable pub safe_rune : ℕ → ℕ
safe_rune r = if ltb 31 r && not (r == 127) then r else b'_'

unfoldable pub safe_name : Bytes → Bytes
unfolding runes write_runes safe_rune
safe_name name = write_runes (map safe_rune (runes name))

unfoldable pub filename_goes_up : Bytes → Bool
unfolding contains has_prefix has_suffix
filename_goes_up name =
    same name dot_dot
    || has_prefix name (dot_dot ++ slash ∷ [])
    || contains name (slash ∷ dot_dot ++ slash ∷ [])
    || contains name (slash ∷ dot_dot)
    || has_suffix name (slash ∷ dot_dot)

abbrev pub max_filename_length : ℕ
max_filename_length = 255

abbrev pub absolute_clean : Bytes → Bytes
absolute_clean p = if is_abs (clean p) then clean p else slash ∷ clean p

abbrev pub with_slash : Bytes → Bytes
with_slash p = if has_suffix p (slash ∷ []) then p else p ++ slash ∷ []

module _ {E : Type 0} where
  -- The checks of `sanitizeFilename` on the name with its control characters replaced.
  unfoldable pub bounded_name : Bytes → Result (TransferError E) Bytes
  bounded_name result = if same result [] then ok (codes "unnamed") else do
    refuse (ltb max_filename_length (length (runes result)))
        (filename_too_long (length (runes result)))
    ok result

  unfoldable pub sanitize_filename : Bytes → Result (TransferError E) Bytes
  sanitize_filename name = do
    refuse (same name []) empty_filename
    refuse (filename_goes_up name) (path_traversal name)
    refuse (starts_absolute name) (path_traversal name)
    refuse (has_drive_letter name) (path_traversal name)
    refuse (same (base name) dot_dot) (filename_traversal name)
    bounded_name (safe_name (base name))

  unfoldable pub validate_target_path : Bytes → Bytes → Result (TransferError E) (Unit {0})
  validate_target_path target root =
      if same (absolute_clean target) (absolute_clean root)
      then ok tt
      else refuse (not (has_prefix (absolute_clean target) (with_slash (absolute_clean root))))
          outside_root

  -- The root with the FTP path, if there is one.
  unfoldable pub add_ftp_path : Bytes → Bytes → Result (TransferError E) Bytes
  add_ftp_path root ftp_path =
      if is_root_path ftp_path
      then ok root
      else do normalized ← normalize_ftp_path ftp_path; ok (join_path root normalized)

  unfoldable pub add_filename : Bytes → Bytes → Result (TransferError E) Bytes
  add_filename target filename =
      if same filename []
      then ok target
      else do safe ← sanitize_filename filename; ok (join_path target safe)

  -- `CalculateTargetPath` past the lookup of the target.
  unfoldable pub target_path_in : Bytes → Bytes → Bytes → Result (TransferError E) Bytes
  target_path_in root ftp_path filename = do
    directory ← add_ftp_path root ftp_path
    target ← add_filename directory filename
    validate_target_path target root
    ok target

abbrev pub found {ℓ} : {E : Type 0} {A : Type ℓ} → E → Option A → Result E A
found e none = err e
found e (some a) = ok a

unfoldable pub calculate_target_path :
    {S E : Type 0} → TransferManager S E → Bytes → Bytes → Bytes → Result (TransferError E) Bytes
calculate_target_path tm user ftp_path filename = do
  config ← found (no_target user) (get_target tm user)
  target_path_in config.root ftp_path filename

abbrev NoError : Type 0
NoError = Unit {0}

target_example :
    target_path_in {E = NoError} (codes "/scans") (codes "a/./b") (codes "x/doc.pdf")
    ≡ ok (codes "/scans/a/b/doc.pdf")
unfolding target_path_in add_ftp_path add_filename validate_target_path normalize_ftp_path
    clean_ftp_path has_traversal sanitize_filename bounded_name filename_goes_up safe_name runes
    clean contains has_prefix has_suffix trim_left base join_path
target_example = refl

traversal_example :
    target_path_in {E = NoError} (codes "/scans") (codes "a/../..") (codes "doc.pdf")
    ≡ err (path_traversal (codes "a/../.."))
unfolding target_path_in add_ftp_path add_filename validate_target_path normalize_ftp_path
    clean_ftp_path has_traversal sanitize_filename bounded_name filename_goes_up safe_name runes
    clean contains has_prefix has_suffix trim_left base join_path
traversal_example = refl

control_example : sanitize_filename {E = NoError} (9 ∷ codes "a.pdf") ≡ ok (codes "_a.pdf")
unfolding sanitize_filename bounded_name filename_goes_up safe_name runes clean contains has_prefix
    has_suffix trim_left base join_path
control_example = refl
