-- ===== src/Go/Utf8.antt =====
-- What the source uses of Go's `unicode/utf8`, and `range` over a string: a byte string as runes.
pub mod Ascii
use ocis_ftp_bridge.Prelude.{
  ℕ, zero, suc, ◌+◌, ◌-◌, ◌*◌, ◌/◌, ◌%◌, ◌≤◌, ◌<◌, ◌≡◌, ◌≢◌, refl, Bool, true, false, ◌||◌, ◌&&◌,
  not, List, [], ◌∷◌, ◌++◌, ◌==◌, ltb, leb, if◌then◌else◌, Bytes, codes, length, arith, Bool-cases,
  inl, inr, All,
}
use ocis_ftp_bridge.Go.Strings.{has_byte}

-- utf8.RuneError
abbrev pub rune_error : ℕ
rune_error = 0xfffd

abbrev bad : ℕ × ℕ
bad = (rune_error, 1)

abbrev within : ℕ → ℕ → ℕ → Bool
within lo hi b = leb lo b && leb b hi

decode_two : ℕ → Bytes → ℕ × ℕ
decode_two a [] = bad
decode_two a (b ∷ s) = if within 0x80 0xbf b then ((a - 0xc0) * 64 + (b - 0x80), 2) else bad

-- The range of the second byte excludes overlong forms and surrogates.
abbrev second_of_three : ℕ → ℕ → Bool
second_of_three a b =
    if a == 0xe0
    then within 0xa0 0xbf b
    else if a == 0xed
    then within 0x80 0x9f b
    else within 0x80 0xbf b

decode_three : ℕ → Bytes → ℕ × ℕ
decode_three a [] = bad
decode_three a (b ∷ []) = bad
decode_three a (b ∷ c ∷ s) =
    if second_of_three a b && within 0x80 0xbf c
    then ((a - 0xe0) * 4096 + (b - 0x80) * 64 + (c - 0x80), 3)
    else bad

abbrev second_of_four : ℕ → ℕ → Bool
second_of_four a b =
    if a == 0xf0
    then within 0x90 0xbf b
    else if a == 0xf4
    then within 0x80 0x8f b
    else within 0x80 0xbf b

decode_four : ℕ → Bytes → ℕ × ℕ
decode_four a [] = bad
decode_four a (b ∷ []) = bad
decode_four a (b ∷ c ∷ []) = bad
decode_four a (b ∷ c ∷ d ∷ s) =
    if second_of_four a b && (within 0x80 0xbf c && within 0x80 0xbf d)
    then ((a - 0xf0) * 262144 + (b - 0x80) * 4096 + (c - 0x80) * 64 + (d - 0x80), 4)
    else bad

-- utf8.DecodeRune of a text that begins with the byte `a`: the rune and its width.
unfoldable pub decode_rune : ℕ → Bytes → ℕ × ℕ
unfolding decode_two decode_three decode_four
decode_rune a s =
    if ltb a 0x80
    then (a, 1)
    else if within 0xc2 0xdf a
    then decode_two a s
    else if within 0xe0 0xef a
    then decode_three a s
    else if within 0xf0 0xf4 a
    then decode_four a s
    else bad

-- The runes past the first `skip` bytes, which belong to the rune before.
unfoldable pub runes_from : ℕ → Bytes → List ℕ
unfolding decode_rune
runes_from skip [] = []
runes_from zero (a ∷ s) =
    let rest = runes_from ((decode_rune a s).1 - 1) s in (decode_rune a s).0 ∷ rest
runes_from (suc skip) (a ∷ s) = runes_from skip s

-- The runes that `range` goes through; their number is utf8.RuneCountInString.
unfoldable pub runes : Bytes → List ℕ
unfolding runes_from
runes s = runes_from 0 s

-- The widths of 1 at a rune error are the invalid bytes: utf8.ValidString.
unfoldable pub valid_from : ℕ → Bytes → Bool
unfolding decode_rune
valid_from skip [] = true
valid_from zero (a ∷ s) =
    not ((decode_rune a s).0 == rune_error && (decode_rune a s).1 == 1)
    && valid_from ((decode_rune a s).1 - 1) s
valid_from (suc skip) (a ∷ s) = valid_from skip s

unfoldable pub valid_string : Bytes → Bool
unfolding valid_from
valid_string s = valid_from 0 s

abbrev error_bytes : Bytes
error_bytes = 0xef ∷ 0xbf ∷ 0xbd ∷ []

-- utf8.AppendRune, as strings.Builder.WriteRune writes it.
unfoldable pub encode_rune : ℕ → Bytes
encode_rune r =
    if ltb r 0x80
    then r ∷ []
    else if ltb r 0x800
    then (0xc0 + r / 64) ∷ (0x80 + r % 64) ∷ []
    else if within 0xd800 0xdfff r || ltb 0x10ffff r
    then error_bytes
    else if ltb r 0x10000
    then (0xe0 + r / 4096) ∷ (0x80 + r / 64 % 64) ∷ (0x80 + r % 64) ∷ []
    else (0xf0 + r / 262144) ∷ (0x80 + r / 4096 % 64) ∷ (0x80 + r / 64 % 64) ∷ (0x80 + r % 64) ∷ []

-- The text that is written rune by rune.
unfoldable pub write_runes : List ℕ → Bytes
unfolding encode_rune
write_runes [] = []
write_runes (r ∷ rs) = encode_rune r ++ write_runes rs

runes_ascii : runes (codes "a/b") ≡ codes "a/b"
unfolding runes
runes_ascii = refl

-- "é" and "€" and a lone continuation byte.
runes_utf8 : runes (0xc3 ∷ 0xa9 ∷ 0xe2 ∷ 0x82 ∷ 0xac ∷ 0x80 ∷ []) ≡ 0xe9 ∷ 0x20ac ∷ 0xfffd ∷ []
unfolding runes
runes_utf8 = refl

write_utf8 : write_runes (0xe9 ∷ 0x20ac ∷ []) ≡ 0xc3 ∷ 0xa9 ∷ 0xe2 ∷ 0x82 ∷ 0xac ∷ []
unfolding write_runes
write_utf8 = refl

-- A rune below 0x80 is the byte itself.
decode_two-ge : (a : ℕ) (s : Bytes) → 0xc2 ≤ a → 0x80 ≤ (decode_two a s).0
unfolding decode_two
decode_two-ge a [] h = omega arith
decode_two-ge a (b ∷ s) h = ground arith

decode_three-ge : (a : ℕ) (s : Bytes) → 0xe0 ≤ a → 0x80 ≤ (decode_three a s).0
unfolding decode_three
decode_three-ge a [] h = omega arith
decode_three-ge a (b ∷ []) h = omega arith
decode_three-ge a (b ∷ c ∷ s) h = ground arith

decode_four-ge : (a : ℕ) (s : Bytes) → 0xf0 ≤ a → 0x80 ≤ (decode_four a s).0
unfolding decode_four
decode_four-ge a [] h = omega arith
decode_four-ge a (b ∷ []) h = omega arith
decode_four-ge a (b ∷ c ∷ []) h = omega arith
decode_four-ge a (b ∷ c ∷ d ∷ s) h = ground arith

pub decode_rune-ge : (a : ℕ) (s : Bytes) → 0x80 ≤ a → 0x80 ≤ (decode_rune a s).0
unfolding decode_rune
decode_rune-ge a s h = ground (arith, decode_two-ge a s, decode_three-ge a s, decode_four-ge a s)

pub decode_rune_low : (a : ℕ) (s : Bytes) → a < 0x80 → (decode_rune a s).0 ≡ a
unfolding decode_rune
decode_rune_low a s h = ground arith
