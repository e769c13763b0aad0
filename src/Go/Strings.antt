-- ===== src/Go/Strings.antt =====
-- What the source uses of Go's package `strings`, on byte strings.
use ocis_ftp_bridge.Prelude.{
  ℕ, ◌-◌, Bool, true, false, ◌||◌, ◌&&◌, List, [], ◌∷◌, ◌++◌, ◌==◌, if◌then◌else◌, Bytes, same,
  length, take, drop,
}

-- strings.HasPrefix
unfoldable pub has_prefix : Bytes → Bytes → Bool
has_prefix s [] = true
has_prefix [] (p ∷ ps) = false
has_prefix (x ∷ s) (p ∷ ps) = x == p && has_prefix s ps

-- strings.HasSuffix
unfoldable pub has_suffix : Bytes → Bytes → Bool
has_suffix [] p = same [] p
has_suffix (x ∷ s) p = same (x ∷ s) p || has_suffix s p

-- strings.Contains
unfoldable pub contains : Bytes → Bytes → Bool
unfolding has_prefix
contains [] p = has_prefix [] p
contains (x ∷ s) p = has_prefix (x ∷ s) p || contains s p

-- strings.TrimPrefix
unfoldable pub trim_prefix : Bytes → Bytes → Bytes
unfolding has_prefix
trim_prefix s p = if has_prefix s p then drop (length p) s else s

-- strings.TrimSuffix
unfoldable pub trim_suffix : Bytes → Bytes → Bytes
unfolding has_suffix
trim_suffix s p = if has_suffix s p then take (length s - length p) s else s

-- strings.IndexByte(s, c) >= 0
unfoldable pub has_byte : ℕ → Bytes → Bool
has_byte c [] = false
has_byte c (x ∷ s) = x == c || has_byte c s

-- strings.TrimLeft, the cut set as a test
unfoldable pub trim_left : (ℕ → Bool) → Bytes → Bytes
trim_left p [] = []
trim_left p (x ∷ s) = if p x then trim_left p s else x ∷ s

-- A byte in front of what is left of the text behind it.
abbrev pub trim_onto : (ℕ → Bool) → ℕ → Bytes → Bytes
trim_onto p x [] = if p x then [] else x ∷ []
trim_onto p x (y ∷ r) = x ∷ y ∷ r

-- strings.TrimRight, the cut set as a test
unfoldable pub trim_right : (ℕ → Bool) → Bytes → Bytes
trim_right p [] = []
trim_right p (x ∷ s) = trim_onto p x (trim_right p s)

-- The first field is put in front of the others.
abbrev pub push_head : ℕ → List Bytes → List Bytes
push_head x [] = (x ∷ []) ∷ []
push_head x (f ∷ fs) = (x ∷ f) ∷ fs

-- strings.Split at a single byte
unfoldable pub split : ℕ → Bytes → List Bytes
split c [] = [] ∷ []
split c (x ∷ s) = let rest = split c s in if x == c then [] ∷ rest else push_head x rest

-- strings.Join with a single byte
unfoldable pub join : ℕ → List Bytes → Bytes
join c [] = []
join c (f ∷ []) = f
join c (f ∷ g ∷ fs) = f ++ c ∷ join c (g ∷ fs)
