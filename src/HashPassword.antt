-- ===== src/HashPassword.antt =====
-- cmd/hash-password/main.go: the command that writes the hash of a password for the configuration.
-- The flags are read already; the random source, Argon2id, base64 and the standard input are parameters.
pub mod Verified
use ocis_ftp_bridge.Prelude.{
  ℕ, Bool, true, false, ◌&&◌, ◌||◌, ltb, leb, ◌==◌, if◌then◌else◌, Option, none, some, Bytes, codes,
  same, List, [], ◌∷◌, ◌++◌, Result, ok, err, refuse, ◌>>=◌, ◌>>◌,
}
use ocis_ftp_bridge.Go.Strings.{trim_right}
use ocis_ftp_bridge.Go.Strconv.{decimal}

pub record Flags : Type 0 where
  pub memory : ℕ
  pub time : ℕ
  pub threads : ℕ
  pub key_len : ℕ
  pub salt_len : ℕ

pub data HashError : Type 0 where
  usage no_input empty_password : HashError
  invalid_time invalid_memory invalid_threads invalid_key_len : HashError
  no_salt : HashError

-- `read_line` is what `ReadString` read, the line feed included, and whether it failed; `salt` are random
-- bytes of a length; `id_key` is `argon2.IDKey`; `encode` is `base64.RawStdEncoding`.
pub record Machine : Type 0 where
  pub read_line : Bytes × Bool
  pub salt : ℕ → Option Bytes
  pub id_key : Bytes → Bytes → ℕ → ℕ → ℕ → ℕ → Bytes
  pub encode : Bytes → Bytes

abbrev pub max_uint32 : ℕ
max_uint32 = 4294967295

abbrev pub is_line_end : ℕ → Bool
is_line_end c = c == 13 || c == 10

unfoldable pub typed_line : Bytes × Bool → Result HashError Bytes
unfolding trim_right
typed_line (line, failed) =
    if failed && same line [] then err no_input else ok (trim_right is_line_end line)

-- The password is the argument, or the line that is typed where there is none.
unfoldable pub read_password : Machine → List Bytes → Result HashError Bytes
unfolding typed_line
read_password m [] = typed_line m.read_line
read_password m (password ∷ []) = ok password
read_password m (password ∷ other ∷ more) = err usage

-- A parameter from 1 to `most`.
abbrev pub out_of_range : ℕ → ℕ → Bool
out_of_range n most = n == 0 || ltb most n

abbrev pub or_no_salt : Option Bytes → Result HashError Bytes
or_no_salt none = err no_salt
or_no_salt (some salt) = ok salt

unfoldable pub parameters_text : Flags → Bytes
unfolding decimal
parameters_text f =
    codes "m="
    ++ decimal f.memory
    ++ codes ",t="
    ++ decimal f.time
    ++ codes ",p="
    ++ decimal f.threads

-- The PHC format.
unfoldable pub encoded : Machine → Flags → Bytes → Bytes → Bytes
encoded m f salt hash =
    codes "$argon2id$v=19$" ++ parameters_text f ++ b'$' ∷ m.encode salt ++ b'$' ∷ m.encode hash

-- What is printed.
unfoldable pub hash_password : Machine → Flags → List Bytes → Result HashError Bytes
unfolding read_password encoded
hash_password m f args = do
  password ← read_password m args
  refuse (same password []) empty_password
  refuse (out_of_range f.time max_uint32) invalid_time
  refuse (out_of_range f.memory max_uint32) invalid_memory
  refuse (out_of_range f.threads 255) invalid_threads
  refuse (out_of_range f.key_len max_uint32) invalid_key_len
  salt ← or_no_salt (m.salt f.salt_len)
  ok (encoded m f salt (m.id_key password salt f.time f.memory f.threads f.key_len))
