-- ===== src/Go/Strconv.antt =====
-- The decimal text of a number, as `%d` and `strconv.FormatInt` write it, and `strconv.ParseUint` in
-- base 10 with 64 bits.
pub mod Digits
use ocis_ftp_bridge.Prelude.{
  ℕ, zero, suc, ◌+◌, ◌-◌, ◌*◌, ◌/◌, ◌%◌, ◌^◌, ◌≤◌, ◌<◌, Bytes, Option, none, some, Bool, ◌&&◌, [],
  ◌∷◌, codes, if◌then◌else◌, ltb, leb, ◌≡◌, refl, sym, ap, ◌∙◌, arith, Bool-cases, inl, inr,
}

-- The digits of `n`, in front of `acc`; the fuel is the number itself, more than its digits.
unfoldable pub digits_onto : ℕ → ℕ → Bytes → Bytes
digits_onto zero n acc = (b'0' + n % 10) ∷ acc
digits_onto (suc fuel) n acc =
    let rest = digits_onto fuel (n / 10) ((b'0' + n % 10) ∷ acc) in
    if ltb n 10 then (b'0' + n) ∷ acc else rest

unfoldable pub decimal : ℕ → Bytes
unfolding digits_onto
decimal n = digits_onto n n []

abbrev pub is_digit : ℕ → Bool
is_digit c = leb b'0' c && leb c b'9'

-- The value of a text of digits after the value `acc` of those before; `none` on another byte.
unfoldable pub value_from : ℕ → Bytes → Option ℕ
value_from acc [] = some acc
value_from acc (c ∷ s) =
    let rest = value_from (acc * 10 + (c - b'0')) s in if is_digit c then rest else none

abbrev below_word : Option ℕ → Option ℕ
below_word none = none
below_word (some n) = if ltb n (2 ^ 64) then some n else none

-- strconv.ParseUint(s, 10, 64); `none` is its error.
unfoldable pub parse_uint : Bytes → Option ℕ
unfolding value_from
parse_uint [] = none
parse_uint (c ∷ s) = below_word (value_from 0 (c ∷ s))

decimal_test : decimal 20240 ≡ codes "20240"
unfolding decimal
decimal_test = refl

parse_test : parse_uint (codes "1024") ≡ some 1024
unfolding parse_uint
parse_test = refl

parse_overflow : parse_uint (codes "18446744073709551616") ≡ none
unfolding parse_uint
parse_overflow = refl

value-digits_onto :
    (fuel n : ℕ) (acc : Bytes) → n ≤ fuel → value_from 0 (digits_onto fuel n acc) ≡ value_from n acc
unfolding digits_onto value_from
value-digits_onto zero n acc h = ground arith
value-digits_onto (suc fuel) n acc h =
    ground (arith, value-digits_onto fuel (n / 10) ((b'0' + n % 10) ∷ acc))

-- The decimal text of a number reads back as the number.
pub value-decimal : (n : ℕ) → value_from 0 (decimal n) ≡ some n
unfolding decimal value_from
value-decimal n = value-digits_onto n n [] (omega arith)

digits_onto-cons :
    (fuel n : ℕ) (acc : Bytes) → (c : ℕ) × (s : Bytes) × (digits_onto fuel n acc ≡ c ∷ s)
unfolding digits_onto
digits_onto-cons zero n acc = (b'0' + n % 10, acc, refl)
digits_onto-cons (suc fuel) n acc = elim (Bool-cases (ltb n 10)) [
  | inl h ↦ rw h (b'0' + n, acc, refl)
  | inr h ↦ rw h (digits_onto-cons fuel (n / 10) ((b'0' + n % 10) ∷ acc))
]

pub parse_uint-decimal : (n : ℕ) → n < 2 ^ 64 → parse_uint (decimal n) ≡ some n
unfolding decimal
parse_uint-decimal n h =
    let (c, s, e) = digits_onto-cons n n [] in
    rw e (unfold parse_uint in ap below_word (rw e at (value-decimal n)) ∙ ground arith)

some-value : {a b : ℕ} → ◌≡◌ {A = Option ℕ} (some a) (some b) → a ≡ b
some-value h = cc

-- Different numbers have different texts.
pub decimal-injective : (m n : ℕ) → decimal m ≡ decimal n → m ≡ n
decimal-injective m n h = some-value (sym (value-decimal m) ∙ ap (value_from 0) h ∙ value-decimal n)
