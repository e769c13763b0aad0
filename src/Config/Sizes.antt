-- ===== src/Config/Sizes.antt =====
-- pkg/config/config.go: `ParseByteSize`.
use ocis_ftp_bridge.Prelude.{
  ℕ, ◌*◌, ◌/◌, ltb, Option, none, some, Bytes, codes, same, List, [], ◌∷◌, Result, ok, err,
  if◌then◌else◌, ◌≡◌, refl,
}
use ocis_ftp_bridge.Go.Strings.{has_suffix, trim_suffix}
use ocis_ftp_bridge.Go.Strconv.{parse_uint}
use ocis_ftp_bridge.Go.Spaces.{trim_space}
use ocis_ftp_bridge.Config.Types.{ConfigError, size_empty, size_invalid, size_overflow}

abbrev pub max_uint64 : ℕ
max_uint64 = 18446744073709551615

unfoldable pub units : List (Bytes × ℕ)
units =
    (codes "GiB", 1073741824)
    ∷ ((codes "MiB", 1048576) ∷ ((codes "KiB", 1024) ∷ ((codes "B", 1) ∷ [])))

-- A number of units, on uint64.
unfoldable pub scaled : ℕ → Option ℕ → Result ConfigError ℕ
scaled factor none = err size_invalid
scaled factor (some n) = if ltb (max_uint64 / factor) n then err size_overflow else ok (n * factor)

-- The first unit that the text ends in.
unfoldable pub with_unit : List (Bytes × ℕ) → Bytes → Result ConfigError ℕ
unfolding scaled
with_unit [] value = scaled 1 (parse_uint value)
with_unit ((suffix, factor) ∷ more) value =
    let rest = with_unit more value in
    if has_suffix value suffix
    then scaled factor (parse_uint (trim_space (trim_suffix value suffix)))
    else rest

unfoldable pub parse_byte_size : Bytes → Result ConfigError ℕ
unfolding units with_unit
parse_byte_size text =
    let value = trim_space text in if same value [] then err size_empty else with_unit units value

mebibytes : parse_byte_size (codes " 5 MiB") ≡ ok 5242880
unfolding parse_byte_size trim_space trim_suffix parse_uint has_suffix
mebibytes = refl
