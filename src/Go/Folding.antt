-- ===== src/Go/Folding.antt =====
-- strings.EqualFold, where the second text is ASCII in lower case.
use ocis_ftp_bridge.Prelude.{ℕ, ◌+◌, Bool, true, false, ◌&&◌, ◌||◌, leb, ◌==◌, Bytes, List, [], ◌∷◌}
use ocis_ftp_bridge.Go.Utf8.{runes}

-- A rune folds to a lower-case ASCII letter or another ASCII byte: besides the upper-case letter, the
-- long s folds to `s` and the Kelvin sign to `k`.
unfoldable pub folds_to : ℕ → ℕ → Bool
folds_to rune c =
    rune == c
    || ((leb b'a' c && leb c b'z')
        && (rune + 32 == c || ((rune == 0x17F && c == b's') || (rune == 0x212A && c == b'k'))))

unfoldable pub fold_runes : List ℕ → Bytes → Bool
unfolding folds_to
fold_runes [] [] = true
fold_runes [] (c ∷ t) = false
fold_runes (r ∷ rs) [] = false
fold_runes (r ∷ rs) (c ∷ t) = folds_to r c && fold_runes rs t

-- strings.EqualFold with a second text that is ASCII in lower case
unfoldable pub equal_fold : Bytes → Bytes → Bool
unfolding fold_runes runes
equal_fold s t = fold_runes (runes s) t
