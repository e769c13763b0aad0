-- ===== src/Config/SizeBounds.antt =====
-- A parsed size fits into 64 bits.
use ocis_ftp_bridge.Prelude.{
  ℕ, zero, suc, ◌*◌, ◌/◌, ◌≤◌, ◌≡◌, Bool-cases, inl, inr, Option, none, some, Bytes, List, [], ◌∷◌,
  ok, arith,
}
use native.Mathlib.Nat.{le-div_iff_mul-le}
use ocis_ftp_bridge.Go.Strings.{has_suffix, trim_suffix}
use ocis_ftp_bridge.Go.Strconv.{parse_uint}
use ocis_ftp_bridge.Go.Spaces.{trim_space}
use ocis_ftp_bridge.Config.Sizes.{max_uint64, units, scaled, with_unit, parse_byte_size}

-- Multiplying by a factor stays in bounds where dividing said so.
mul-le-of_le_div : (n k m : ℕ) → n ≤ m / k → n * k ≤ m
mul-le-of_le_div n zero m h = omega arith
mul-le-of_le_div n (suc k) m h = (le-div_iff_mul-le (omega arith)).0 h

scaled-le : (factor : ℕ) (o : Option ℕ) (n : ℕ) → scaled factor o ≡ ok n → n ≤ max_uint64
unfolding scaled
scaled-le factor none n h = ground arith
scaled-le factor (some k) n h = ground (arith, mul-le-of_le_div k factor max_uint64)

with_unit-le :
    (us : List (Bytes × ℕ)) (value : Bytes) (n : ℕ) → with_unit us value ≡ ok n → n ≤ max_uint64
unfolding with_unit
with_unit-le [] value n h = scaled-le 1 (parse_uint value) n h
with_unit-le ((suffix, factor) ∷ more) value n h = elim (Bool-cases (has_suffix value suffix)) [
  | inl e ↦ scaled-le factor (parse_uint (trim_space (trim_suffix value suffix))) n (ground arith)
  | inr e ↦ with_unit-le more value n (ground arith)
]

-- A size that `ParseByteSize` accepts is at most 2 ^ 64 - 1, so that it does not wrap around.
parse_byte_size-le : (text : Bytes) (n : ℕ) → parse_byte_size text ≡ ok n → n ≤ max_uint64
unfolding parse_byte_size
parse_byte_size-le text n h = with_unit-le units (trim_space text) n (ground arith)
