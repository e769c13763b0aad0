-- ===== src/Go/Strconv/Digits.antt =====
-- Which bytes a decimal text is free of.
use ocis_ftp_bridge.Prelude.{
  ℕ, zero, suc, ◌+◌, ◌/◌, ◌%◌, ◌≡◌, refl, true, [], ◌∷◌, ◌++◌, Bytes, arith, ◌⊎◌, ltb,
}
use ocis_ftp_bridge.Go.Strings.{has_byte}
use ocis_ftp_bridge.Go.Strconv.{digits_onto, decimal}
use ocis_ftp_bridge.Go.FilePath.Components.{Free}

pub Free-append : (c : ℕ) (a b : Bytes) → Free c a → Free c b → Free c (a ++ b)
unfolding has_byte
Free-append c [] b h k = k
Free-append c (x ∷ a) b h k = ground (arith, Free-append c a b)

-- No byte but a digit is in a decimal text.
Free-digits_onto :
    (c fuel n : ℕ) (acc : Bytes)
    → (ltb c 48 ≡ true) ⊎ (ltb 57 c ≡ true)
    → Free c acc
    → Free c (digits_onto fuel n acc)
unfolding has_byte digits_onto
Free-digits_onto c zero n acc out h = ground arith
Free-digits_onto c (suc fuel) n acc out h =
    ground (arith, Free-digits_onto c fuel (n / 10) ((48 + n % 10) ∷ acc) out)

pub Free-decimal : (c n : ℕ) → (ltb c 48 ≡ true) ⊎ (ltb 57 c ≡ true) → Free c (decimal n)
unfolding decimal has_byte
Free-decimal c n out = Free-digits_onto c n n [] out refl
