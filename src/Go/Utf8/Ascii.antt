-- ===== src/Go/Utf8/Ascii.antt =====
-- ASCII bytes in a text and in its runes: neither decoding nor encoding makes new ones.
use ocis_ftp_bridge.Prelude.{
  ℕ, zero, suc, ◌-◌, ◌<◌, ◌≡◌, refl, false, List, [], ◌∷◌, ◌==◌, Bytes, arith,
}
use ocis_ftp_bridge.Go.Strings.{has_byte}
use ocis_ftp_bridge.Go.Net.{has_byte-append}
use ocis_ftp_bridge.Go.Utf8.{
  decode_rune, runes_from, runes, encode_rune, write_runes, decode_rune-ge, decode_rune_low,
}

decode_rune-ne :
    (c a : ℕ) (s : Bytes) → c < 0x80 → (a == c) ≡ false → ((decode_rune a s).0 == c) ≡ false
decode_rune-ne c a s h k = ground (arith, decode_rune-ge a s, decode_rune_low a s)

has_byte-runes_from :
    (c skip : ℕ) (s : Bytes)
    → c < 0x80
    → has_byte c s ≡ false
    → has_byte c (runes_from skip s) ≡ false
unfolding runes_from has_byte
has_byte-runes_from c skip [] h k = refl
has_byte-runes_from c zero (a ∷ s) h k =
    ground (arith, decode_rune-ne c a s h, has_byte-runes_from c ((decode_rune a s).1 - 1) s h)
has_byte-runes_from c (suc skip) (a ∷ s) h k = has_byte-runes_from c skip s h (ground arith)

-- A text without an ASCII byte has no rune of that value.
pub has_byte-runes :
    (c : ℕ) (s : Bytes) → c < 0x80 → has_byte c s ≡ false → has_byte c (runes s) ≡ false
unfolding runes
has_byte-runes c s h k = has_byte-runes_from c 0 s h k

has_byte-encode_rune : (c r : ℕ) → c < 0x80 → (r == c) ≡ false → has_byte c (encode_rune r) ≡ false
unfolding encode_rune has_byte
has_byte-encode_rune c r h k = ground arith

-- Runes without an ASCII value are written without that byte.
pub has_byte-write_runes :
    (c : ℕ) (rs : List ℕ) → c < 0x80 → has_byte c rs ≡ false → has_byte c (write_runes rs) ≡ false
unfolding write_runes has_byte
has_byte-write_runes c [] h k = refl
has_byte-write_runes c (r ∷ rs) h k =
    rw (has_byte-append c (encode_rune r) (write_runes rs))
      (ground (arith, has_byte-encode_rune c r h, has_byte-write_runes c rs h))
