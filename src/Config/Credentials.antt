-- ===== src/Config/Credentials.antt =====
-- pkg/config/config.go: `checkForPlaintextCredentials`, the scan of the configuration file's text
-- that `LoadFileWithEnv` logs a warning of.
pub mod Lines
use ocis_ftp_bridge.Prelude.{
  ℕ, Bool, true, false, not, ◌&&◌, ◌||◌, ltb, ◌-◌, leb, ◌+◌, ◌==◌, if◌then◌else◌, Option, none,
  some, Bytes, codes, same, length, List, [], ◌∷◌, ◌≡◌, ◌≤◌, refl, ap, ◌∙◌, sym, arith,
}
use ocis_ftp_bridge.Go.Strings.{has_prefix, contains, has_byte, split}
use ocis_ftp_bridge.Go.Spaces.{trim_space}
use ocis_ftp_bridge.Go.Folding.{equal_fold}

abbrev pub password_patterns : List Bytes
password_patterns =
    codes "password:"
    ∷ codes "password: "
    ∷ codes "passwd:"
    ∷ codes "passwd: "
    ∷ codes "secret:"
    ∷ codes "secret: "
    ∷ codes "token:"
    ∷ codes "token: "
    ∷ []

abbrev pub common_passwords : List Bytes
common_passwords =
    codes "password"
    ∷ codes "123456"
    ∷ codes "qwerty"
    ∷ codes "admin"
    ∷ codes "letmein"
    ∷ codes "welcome"
    ∷ codes "secret"
    ∷ codes "changeme"
    ∷ []

-- The pattern that the value was found behind.
pub data Exposure : Type 0 where
  plaintext_password plaintext_credential : Bytes → Exposure

unfoldable pub is_common : Bytes → List Bytes → Bool
unfolding equal_fold
is_common value [] = false
is_common value (c ∷ more) = equal_fold value c || is_common value more

-- The second part of strings.SplitN(s, ":", 2), where there is one.
unfoldable pub after_colon : Bytes → Option Bytes
after_colon [] = none
after_colon (x ∷ s) = let rest = after_colon s in if x == b':' then some s else rest

-- A hash, nothing, or a quoted text.
unfoldable pub is_skipped : Bytes → Bool
unfolding has_prefix
is_skipped value =
    has_prefix value (codes "$")
    || (same value [] || (has_prefix value (b'"' ∷ []) || has_prefix value (codes "'")))

unfoldable pub is_token : Bytes → Bool
unfolding has_byte
is_token value =
    ltb 20 (length value)
    && not (has_byte b' ' value || (has_byte b'\t' value || has_byte b'\n' value))

unfoldable pub check_value : Bytes → Bytes → Option Exposure
unfolding is_skipped is_common is_token
check_value pattern value =
    if is_skipped value
    then none
    else (if is_common value common_passwords
        then some (plaintext_password pattern)
        else (if is_token value then some (plaintext_credential pattern) else none))

unfoldable pub check_after : Bytes → Option Bytes → Option Exposure
unfolding check_value trim_space
check_after pattern none = none
check_after pattern (some text) = check_value pattern (trim_space text)

unfoldable pub check_line : Bytes → Bytes → Option Exposure
unfolding contains check_after after_colon
check_line pattern line =
    if contains line pattern then check_after pattern (after_colon line) else none

-- The loop ends with the first exposure.
abbrev pub first_of : Option Exposure → Option Exposure → Option Exposure
first_of none later = later
first_of (some e) later = some e

unfoldable pub check_lines : Bytes → List Bytes → Option Exposure
unfolding check_line
check_lines pattern [] = none
check_lines pattern (line ∷ more) = first_of (check_line pattern line) (check_lines pattern more)

unfoldable pub check_patterns : List Bytes → Bytes → Option Exposure
unfolding contains split check_lines
check_patterns [] content = none
check_patterns (p ∷ more) content =
    first_of (if contains content p then check_lines p (split b'\n' content) else none)
      (check_patterns more content)

-- `none` is a file that cannot be read.
unfoldable pub check_for_plaintext_credentials : Option Bytes → Option Exposure
unfolding check_patterns
check_for_plaintext_credentials none = none
check_for_plaintext_credentials (some content) = check_patterns password_patterns content
