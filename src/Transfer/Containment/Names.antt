-- ===== src/Transfer/Containment/Names.antt =====
-- The sanitised filename and the normalised FTP path as components of a path.
use ocis_ftp_bridge.Prelude.{
  ℕ, ◌≤◌, ◌<◌, Bytes, true, false, List, [], ◌∷◌, ◌++◌, same, ltb, ◌==◌, map, ◌≡◌, ◌≢◌, refl, ap,
  ◌∙◌, arith, All, Bool-cases, inl, inr, same→eq,
}
use ocis_ftp_bridge.Go.Strings.{
  has_prefix, has_byte, contains, trim_left, trim_right, trim_onto, split, push_head,
}
use ocis_ftp_bridge.Go.FilePath.{
  slash, dot_dot, is_abs, clean, base, names, render, cut_last, or_slash,
}
use ocis_ftp_bridge.Go.FilePath.Components.{Free, NoUp, IsName, names-IsName}
use ocis_ftp_bridge.Go.FilePath.Cleaning.{kept, split-join_names}
use ocis_ftp_bridge.Go.Utf8.{decode_rune, runes, encode_rune, write_runes, decode_rune-ge}
use ocis_ftp_bridge.Go.Utf8.Ascii.{has_byte-runes, has_byte-write_runes}
use ocis_ftp_bridge.Transfer.Paths.{safe_rune, safe_name, is_separator}

-- Every field of a split stands in the text, the first one at its beginning.
abbrev Heads : Bytes → List Bytes → Type 0
Heads s [] = ⊥
Heads s (f ∷ fs) = (has_prefix s f ≡ true) × All (λ g. contains s g ≡ true) fs

contains_here : (s p : Bytes) → has_prefix s p ≡ true → contains s p ≡ true
unfolding contains
contains_here [] p h = h
contains_here (x ∷ s) p h = rw h refl

Heads-contains : (s : Bytes) (fs : List Bytes) → Heads s fs → All (λ g. contains s g ≡ true) fs
Heads-contains s [] h = tt
Heads-contains s (f ∷ fs) (h, hs) = (contains_here s f h, hs)

contains_later :
    (x : ℕ) (s : Bytes) (fs : List Bytes)
    → All (λ g. contains s g ≡ true) fs
    → All (λ g. contains (x ∷ s) g ≡ true) fs
unfolding contains
contains_later x s [] h = tt
contains_later x s (f ∷ fs) (h, hs) = (ground (arith, h), contains_later x s fs hs)

push_head-Heads :
    (x : ℕ) (s : Bytes) (fs : List Bytes) → Heads s fs → Heads (x ∷ s) (push_head x fs)
unfolding has_prefix
push_head-Heads x s [] h = absurd h
push_head-Heads x s (f ∷ fs) (h, hs) = (ground (arith, h), contains_later x s fs hs)

split-Heads : (c : ℕ) (s : Bytes) → Heads s (split c s)
unfolding split has_prefix
split-Heads c [] = (refl, tt)
split-Heads c (x ∷ s) = elim (Bool-cases (x == c)) [
  | inl h ↦
      rw h (refl, contains_later x s (split c s) (Heads-contains s (split c s) (split-Heads c s)))
  | inr h ↦ rw h (push_head-Heads x s (split c s) (split-Heads c s))
]

NoUp-of_contains :
    (s : Bytes) (fs : List Bytes)
    → contains s dot_dot ≡ false
    → All (λ g. contains s g ≡ true) fs
    → All NoUp fs
NoUp-of_contains s [] h k = tt
NoUp-of_contains s (f ∷ fs) h (k, ks) = (
  elim (Bool-cases (same f dot_dot)) [ inl e ↦ cc (h, rw (same→eq f dot_dot e) at k) | inr e ↦ e ],
  NoUp-of_contains s fs h ks,
)

-- A text without `..` in it has no component `..`.
pub NoUp-split : (s : Bytes) → contains s dot_dot ≡ false → All NoUp (split slash s)
NoUp-split s h = NoUp-of_contains s (split slash s) h (Heads-contains s _ (split-Heads slash s))

-- The components of a cleaned relative path are those of the path.
pub kept-split-clean : (p : Bytes) → is_abs p ≡ false → kept (split slash (clean p)) ≡ names p
unfolding clean
kept-split-clean p h =
    ap (λ b. kept (split slash (render b (names p)))) h ∙ rendered (names p) (names-IsName p)
  where
    rendered : (ns : List Bytes) → All IsName ns → kept (split slash (render false ns)) ≡ ns
    rendered [] k = unfold render split kept in refl
    rendered (n ∷ ns) k = unfold render in split-join_names (n ∷ ns) k

pub trim_left_same :
    (p : Bytes)
    → has_prefix p (slash ∷ []) ≡ false
    → has_prefix p (92 ∷ []) ≡ false
    → trim_left is_separator p ≡ p
unfolding trim_left has_prefix
trim_left_same [] h k = refl
trim_left_same (x ∷ p) h k = ground arith

-- What stands behind the last slash.
cut_last-Free : (c : ℕ) (s : Bytes) → Free c (cut_last c s).1
unfolding cut_last has_byte
cut_last-Free c [] = refl
cut_last-Free c (x ∷ s) = ground (arith, cut_last-Free c s)

abbrev EndsFilled : Bytes → Type 0
EndsFilled t = (cut_last slash t).1 ≡ [] → t ≡ []

trim_onto-EndsFilled :
    (x : ℕ) (t : Bytes) → EndsFilled t → EndsFilled (trim_onto (λ y. y == b'/') x t)
unfolding cut_last
trim_onto-EndsFilled x [] h k = ground (arith, k)
trim_onto-EndsFilled x (y ∷ r) h k = ground (arith, k, h)

trim_right-EndsFilled : (s : Bytes) → EndsFilled (trim_right (λ y. y == b'/') s)
unfolding trim_right cut_last
trim_right-EndsFilled [] h = refl
trim_right-EndsFilled (x ∷ s) h =
    trim_onto-EndsFilled x (trim_right (λ y. y == b'/') s) (trim_right-EndsFilled s) h

trim_right-ne_nil :
    (x : ℕ) (s : Bytes) → (x == b'/') ≡ false → trim_right (λ y. y == b'/') (x ∷ s) ≢ []
unfolding trim_right
trim_right-ne_nil x s h k = ground arith

or_slash-Free : (b : Bytes) → Free slash b → b ≢ [] → Free slash (or_slash b) × (or_slash b ≢ [])
or_slash-Free [] h k = absurd (k refl)
or_slash-Free (x ∷ s) h k = (h, k)

-- The base of a name that does not begin with a slash is a text without one, and not empty.
pub base-Free :
    (name : Bytes)
    → same name [] ≡ false
    → has_prefix name (slash ∷ []) ≡ false
    → Free slash (base name) × (base name ≢ [])
unfolding has_prefix
base-Free [] h k = ground arith
base-Free (x ∷ s) h k =
    let t = trim_right (λ y. y == b'/') (x ∷ s) in
    unfold base in
    or_slash-Free (cut_last slash t).1 (cut_last-Free slash t)
      λ e. trim_right-ne_nil x s (ground arith) (trim_right-EndsFilled (x ∷ s) e)

-- Sanitising, byte by byte.
decode_ascii : (a : ℕ) (t : Bytes) → a < 0x80 → decode_rune a t ≡ (a, 1)
unfolding decode_rune
decode_ascii a t h = ground arith

encode_safe_ascii : (a : ℕ) → a < 0x80 → encode_rune (safe_rune a) ≡ safe_rune a ∷ []
unfolding encode_rune safe_rune
encode_safe_ascii a h = ground arith

safe_name-cons_low : (a : ℕ) (t : Bytes) → a < 0x80 → safe_name (a ∷ t) ≡ safe_rune a ∷ safe_name t
unfolding safe_name runes write_runes
safe_name-cons_low a t h = rw (decode_ascii a t h) (rw (encode_safe_ascii a h) refl)

pub safe_name-ne_nil : (b : Bytes) → b ≢ [] → safe_name b ≢ []
unfolding safe_name runes encode_rune write_runes
safe_name-ne_nil [] h k = h refl
safe_name-ne_nil (a ∷ t) h k = ground arith

safe_dot : (a : ℕ) → (safe_rune a == b'.') ≡ true → (a == b'.') ≡ true
unfolding safe_rune
safe_dot a h = ground arith

safe_rune_high : (r : ℕ) → 0x80 ≤ r → safe_rune r ≡ r
unfolding safe_rune
safe_rune_high r h = ground arith

encode_not_dot : (r : ℕ) (s p : Bytes) → 0x80 ≤ r → same (encode_rune r ++ s) (b'.' ∷ p) ≡ false
unfolding encode_rune
encode_not_dot r s p h = ground arith

high_not_dot : (a : ℕ) (t p : Bytes) → 0x80 ≤ a → same (safe_name (a ∷ t)) (b'.' ∷ p) ≡ false
unfolding safe_name runes write_runes
high_not_dot a t p h =
    rw (safe_rune_high (decode_rune a t).0 (decode_rune-ge a t h))
      (encode_not_dot (decode_rune a t).0 _ p (decode_rune-ge a t h))

same-safe_name :
    (p b : Bytes) → All (λ c. c ≡ b'.') p → same (safe_name b) p ≡ true → same b p ≡ true
same-safe_name [] [] h e = refl
same-safe_name [] (a ∷ t) h e = absurd (safe_name-ne_nil (a ∷ t) (λ k. cc) (same→eq _ [] e))
same-safe_name (c ∷ p) [] h e = unfold safe_name runes write_runes in ground (arith, e)
same-safe_name (c ∷ p) (a ∷ t) (h, hs) e = elim (Bool-cases (ltb a 0x80)) [
  | inl low ↦
      let low' : same (safe_rune a ∷ safe_name t) (c ∷ p) ≡ true =
        rw (safe_name-cons_low a t (ground arith)) at e in
      ground (arith, same-safe_name p t hs, safe_dot a)
  | inr high ↦ ground (arith, high_not_dot a t p)
]

-- A name is sanitised to `..` only if it is `..`.
pub safe_name-NoUp : (b : Bytes) → NoUp b → NoUp (safe_name b)
safe_name-NoUp b h = ground (arith, same-safe_name dot_dot b)

not_slash : (rs : List ℕ) → has_byte slash rs ≡ false → has_byte slash (map safe_rune rs) ≡ false
unfolding has_byte safe_rune
not_slash [] h = refl
not_slash (r ∷ rs) h = ground (arith, not_slash rs)

pub safe_name-Free : (b : Bytes) → Free slash b → Free slash (safe_name b)
unfolding safe_name
safe_name-Free b h =
    has_byte-write_runes slash (map safe_rune (runes b)) (omega arith)
      (not_slash (runes b) (has_byte-runes slash b (omega arith) h))
