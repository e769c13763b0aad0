-- ===== src/Go/Spaces.antt =====
-- strings.TrimSpace on valid UTF-8, and strconv.Atoi where the number is not negative.
use ocis_ftp_bridge.Prelude.{
  ℕ, Bool, ◌||◌, ◌&&◌, ltb, leb, ◌==◌, if◌then◌else◌, Option, none, some, Bytes, codes, [], ◌∷◌,
  same, ◌≡◌, refl,
}
use ocis_ftp_bridge.Go.Strings.{trim_left, trim_right}
use ocis_ftp_bridge.Go.Utf8.{runes, write_runes}
use ocis_ftp_bridge.Go.Strconv.{value_from}

-- unicode.IsSpace
abbrev pub is_space : ℕ → Bool
is_space r =
    (leb 9 r && leb r 13)
    || (r == 32
        || (r == 0x85
            || (r == 0xA0
                || (r == 0x1680
                    || ((leb 0x2000 r && leb r 0x200A)
                        || (r == 0x2028
                            || (r == 0x2029 || (r == 0x202F || (r == 0x205F || r == 0x3000)))))))))

unfoldable pub trim_space : Bytes → Bytes
unfolding trim_left trim_right runes write_runes
trim_space s = write_runes (trim_right is_space (trim_left is_space (runes s)))

-- Nothing but space.
abbrev pub is_blank : Bytes → Bool
is_blank s = same (trim_space s) []

abbrev some_below_word : Option ℕ → Option ℕ
some_below_word none = none
some_below_word (some n) = if ltb n 9223372036854775808 then some n else none

-- `none` is an error or a number below zero.
unfoldable pub atoi : Bytes → Option ℕ
unfolding value_from
atoi [] = none
atoi (c ∷ []) = some_below_word (value_from 0 (c ∷ []))
atoi (c ∷ d ∷ s) = some_below_word (value_from 0 (if c == b'+' then d ∷ s else c ∷ d ∷ s))

trim_test : trim_space (codes " 5 MiB ") ≡ codes "5 MiB"
unfolding trim_space
trim_test = refl

atoi_test : atoi (codes "2121") ≡ some 2121
unfolding atoi
atoi_test = refl
