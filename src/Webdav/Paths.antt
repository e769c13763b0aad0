-- ===== src/Webdav/Paths.antt =====
-- pkg/webdav/client.go: `normalizePath`, with `url.PathEscape` of the standard library.
pub mod Escaping
use ocis_ftp_bridge.Prelude.{
  ℕ, ◌+◌, ◌/◌, ◌%◌, Bool, true, false, not, ◌&&◌, ◌||◌, ltb, leb, ◌==◌, if◌then◌else◌, Option, none,
  some, Bytes, codes, same, length, get_elem?, List, [], ◌∷◌, ◌++◌, map, Result, ok, err, refuse,
  ◌>>◌,
}
use ocis_ftp_bridge.Go.Strings.{has_prefix, contains, split, join}
use ocis_ftp_bridge.Go.FilePath.{slash, dot_dot, clean}
use ocis_ftp_bridge.Go.Utf8.{runes, valid_string}
use ocis_ftp_bridge.Webdav.Types.{WebdavError, invalid_path, path_traversal}

abbrev pub max_path_length : ℕ
max_path_length = 4096

abbrev pub between : ℕ → ℕ → ℕ → Bool
between low high c = leb low c && leb c high

abbrev pub alphanumeric : ℕ → Bool
alphanumeric c = between 48 57 c || (between 65 90 c || between 97 122 c)

-- The marks that a path segment keeps: - _ . ~ $ & + = : @
abbrev pub segment_mark : ℕ → Bool
segment_mark c =
    c == 45
    || (c == 95
        || (c == 46
            || (c == 126
                || (c == 36 || (c == 38 || (c == 43 || (c == 61 || (c == 58 || c == 64))))))))

unfoldable pub kept_byte : ℕ → Bool
kept_byte c = alphanumeric c || segment_mark c

abbrev pub percent : ℕ
percent = 37

unfoldable pub upper_hex : ℕ → ℕ
upper_hex d = if ltb d 10 then 48 + d else 55 + d

unfoldable pub escape_byte : ℕ → Bytes
escape_byte c =
    if kept_byte c then c ∷ [] else percent ∷ (upper_hex (c / 16) ∷ (upper_hex (c % 16) ∷ []))

unfoldable pub path_escape : Bytes → Bytes
path_escape [] = []
path_escape (c ∷ s) = escape_byte c ++ path_escape s

-- A drive letter: the second byte is a colon.
unfoldable pub has_drive : Bytes → Bool
has_drive (c ∷ (d ∷ s)) = d == 58
has_drive (c ∷ []) = false
has_drive [] = false

-- The runes below 32; none of the four that the test excepts is below 32.
unfoldable pub has_control : List ℕ → Bool
has_control [] = false
has_control (r ∷ rs) =
    r == 0
    || (ltb r 32 && (not (r == 47) && (not (r == 46) && (not (r == 95) && not (r == 45)))))
    || has_control rs

unfoldable pub windows_traversal : Bytes → Bool
windows_traversal p =
    contains p (codes "\\..\\") || (contains p (codes "\\..") || contains p (codes "..\\"))

unfoldable pub rooted : Bytes → Bytes
rooted p = if has_prefix p (slash ∷ []) then p else slash ∷ p

unfoldable pub escape_parts : Bytes → Bytes
escape_parts p = join slash (map path_escape (split slash p))

unfoldable pub normalize_path : Bytes → Result WebdavError Bytes
normalize_path p =
    refuse (same p []) invalid_path
    >> (refuse (ltb max_path_length (length p)) invalid_path
        >> (refuse (not (valid_string p)) invalid_path
            >> (refuse (contains p dot_dot) path_traversal
                >> (refuse (windows_traversal p) path_traversal
                    >> (refuse (has_drive p) invalid_path
                        >> (refuse (has_control (runes p)) invalid_path
                            >> (refuse (has_prefix (clean p) dot_dot) path_traversal
                                >> (refuse (ltb max_path_length (length (rooted (clean p))))
                                      invalid_path
                                    >> ok (escape_parts (rooted (clean p)))))))))))
