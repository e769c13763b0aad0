-- ===== src/Go/Replace.antt =====
-- strings.ReplaceAll, for a text to replace that is not empty.
use ocis_ftp_bridge.Prelude.{
  ℕ, zero, suc, ◌-◌, ◌==◌, true, if◌then◌else◌, Bytes, [], ◌∷◌, ◌++◌, length, drop, ◌≡◌, refl, ap,
  arith, Bool-cases, inl, inr,
}
use ocis_ftp_bridge.Go.Strings.{has_prefix}

-- The text after the first `skip` bytes, which an occurrence before them has taken.
unfoldable pub replace_from : Bytes → Bytes → ℕ → Bytes → Bytes
unfolding has_prefix
replace_from old new skip [] = []
replace_from old new (suc skip) (x ∷ s) = replace_from old new skip s
replace_from old new zero (x ∷ s) =
    let taken = new ++ replace_from old new (length old - 1) s in
    let kept = x ∷ replace_from old new 0 s in if has_prefix (x ∷ s) old then taken else kept

unfoldable pub replace_all : Bytes → Bytes → Bytes → Bytes
unfolding replace_from
replace_all s old new = replace_from old new 0 s

replaced :
    replace_all (b'a' ∷ b'b' ∷ b'a' ∷ b'b' ∷ b'a' ∷ []) (b'a' ∷ b'b' ∷ []) (b'c' ∷ [])
    ≡ b'c' ∷ b'c' ∷ b'a' ∷ []
unfolding replace_all
replaced = refl

-- Each byte `c` becomes `new`.
unfoldable pub escape_byte : ℕ → Bytes → Bytes → Bytes
escape_byte c new [] = []
escape_byte c new (x ∷ s) = (if x == c then new else x ∷ []) ++ escape_byte c new s

pub replace_all-byte : (c : ℕ) (new s : Bytes) → replace_all s (c ∷ []) new ≡ escape_byte c new s
unfolding replace_all replace_from escape_byte has_prefix
replace_all-byte c new [] = refl
replace_all-byte c new (x ∷ s) = ground (arith, replace_all-byte c new s)

has_prefix-drop : (s p : Bytes) → has_prefix s p ≡ true → p ++ drop (length p) s ≡ s
unfolding has_prefix
has_prefix-drop s [] h = refl
has_prefix-drop [] (c ∷ p) h = ground arith
has_prefix-drop (x ∷ s) (c ∷ p) h = ground (arith, has_prefix-drop s p)

replace_same_from :
    (c : ℕ) (p : Bytes) (skip : ℕ) (s : Bytes) → replace_from (c ∷ p) (c ∷ p) skip s ≡ drop skip s
unfolding replace_from
replace_same_from c p zero [] = refl
replace_same_from c p (suc skip) [] = refl
replace_same_from c p (suc skip) (x ∷ s) = replace_same_from c p skip s
replace_same_from c p zero (x ∷ s) = elim (Bool-cases (has_prefix (x ∷ s) (c ∷ p))) [
  | inl h ↦
      let less : suc (length p) - 1 ≡ length p = omega arith in
      rw h (rw less (rw (replace_same_from c p (length p) s) (has_prefix-drop (x ∷ s) (c ∷ p) h)))
  | inr h ↦ rw h (ap (◌∷◌ x) (replace_same_from c p 0 s))
]

-- A text that is replaced by itself leaves the whole as it is.
pub replace_all-same : (c : ℕ) (p s : Bytes) → replace_all s (c ∷ p) (c ∷ p) ≡ s
unfolding replace_all
replace_all-same c p s = replace_same_from c p 0 s
