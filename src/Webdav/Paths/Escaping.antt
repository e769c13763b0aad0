-- ===== src/Webdav/Paths/Escaping.antt =====
-- `normalizePath` against the reading of a URL path: decoding its percent escapes gives the cleaned,
-- rooted path back.
use mathlib.Core.List.{append_assoc, append-nil}
use ocis_ftp_bridge.Prelude.{
  ℕ, ◌+◌, ◌-◌, ◌*◌, ◌/◌, ◌%◌, ◌≤◌, ◌≡◌, ◌≢◌, ==_iff, refl, sym, ap, ◌∙◌, false, ltb, ◌==◌,
  if◌then◌else◌, Bool-cases, inl, inr, Bytes, length, List, [], ◌∷◌, ◌++◌, map, ok, arith,
}
use ocis_ftp_bridge.Go.Strings.{contains, split, join, push_head}
use ocis_ftp_bridge.Go.FilePath.{slash, dot_dot, clean}
use ocis_ftp_bridge.Go.FilePath.Components.{split-ne_nil}
use ocis_ftp_bridge.Webdav.Paths.{
  normalize_path, escape_parts, path_escape, escape_byte, upper_hex, kept_byte, percent, rooted,
  max_path_length,
}

-- Where a reader of percent escapes stands.
pub data Reader : Type 0 where
  plain : Reader
  high : Reader
  low : ℕ → Reader

unfoldable pub hex_value : ℕ → ℕ
hex_value c = if ltb c 58 then c - 48 else c - 55

unfoldable pub decode : Reader → Bytes → Bytes
decode r [] = []
decode plain (c ∷ s) =
    let escape = decode high s in
    let literal = decode plain s in if c == percent then escape else c ∷ literal
decode high (c ∷ s) = decode (low (hex_value c)) s
decode (low d) (c ∷ s) = (16 * d + hex_value c) ∷ decode plain s

hex_value-upper_hex : (d : ℕ) → hex_value (upper_hex d) ≡ d
unfolding hex_value upper_hex
hex_value-upper_hex d = ground arith

decode-escape_byte : (c : ℕ) (s : Bytes) → decode plain (escape_byte c ++ s) ≡ c ∷ decode plain s
unfolding decode escape_byte kept_byte
decode-escape_byte c s = elim (Bool-cases (kept_byte c)) [
  | inl k ↦ ground arith
  | inr k ↦
      rw (k, escape_byte)
        (ground (arith, hex_value-upper_hex (c / 16), hex_value-upper_hex (c % 16)))
]

decode-path_escape : (p s : Bytes) → decode plain (path_escape p ++ s) ≡ p ++ decode plain s
unfolding path_escape
decode-path_escape [] s = refl
decode-path_escape (c ∷ p) s =
    ap (decode plain) (append_assoc (escape_byte c) (path_escape p) s)
    ∙ (decode-escape_byte c (path_escape p ++ s) ∙ ap (λ x. c ∷ x) (decode-path_escape p s))

decode-join :
    (parts : List Bytes) → decode plain (join slash (map path_escape parts)) ≡ join slash parts
unfolding join decode
decode-join [] = refl
decode-join (f ∷ []) =
    ap (decode plain) (sym (append-nil (path_escape f))) ∙ (decode-path_escape f [] ∙ append-nil f)
decode-join (f ∷ g ∷ fs) =
    decode-path_escape f (slash ∷ join slash (map path_escape (g ∷ fs)))
    ∙ ap (λ x. f ++ slash ∷ x) (decode-join (g ∷ fs))

join-push_head :
    (x : ℕ) (fs : List Bytes) → fs ≢ [] → join slash (push_head x fs) ≡ x ∷ join slash fs
unfolding join
join-push_head x [] h = elim (h refl) [ ]
join-push_head x (f ∷ []) h = refl
join-push_head x (f ∷ g ∷ fs) h = refl

join_cons_nil : (fs : List Bytes) → fs ≢ [] → join slash ([] ∷ fs) ≡ slash ∷ join slash fs
unfolding join
join_cons_nil [] h = elim (h refl) [ ]
join_cons_nil (f ∷ fs) h = refl

join-split : (s : Bytes) → join slash (split slash s) ≡ s
unfolding split join
join-split [] = refl
join-split (x ∷ s) = elim (Bool-cases (x == slash)) [
  | inl t ↦
      let eq : x ≡ slash = (==_iff x slash).0 t in
      rw t (
        join_cons_nil (split slash s) (split-ne_nil slash s)
        ∙ (ap (λ r. slash ∷ r) (join-split s) ∙ ap (λ c. c ∷ s) (sym eq)))
  | inr t ↦
      rw t
        (join-push_head x (split slash s) (split-ne_nil slash s) ∙ ap (λ r. x ∷ r) (join-split s))
]

escape_parts-decode : (s : Bytes) → decode plain (escape_parts s) ≡ s
unfolding escape_parts
escape_parts-decode s = decode-join (split slash s) ∙ join-split s

normalize_path_accepts :
    (p q : Bytes)
    → normalize_path p ≡ ok q
    → (escape_parts (rooted (clean p)) ≡ q)
      × (contains p dot_dot ≡ false)
      × (length (rooted (clean p)) ≤ max_path_length)
unfolding normalize_path
normalize_path_accepts p q h = (ground arith, ground arith, ground arith)

-- When `normalizePath` accepts a path, decoding the percent escapes of its result gives the cleaned
-- path with a slash in front, the path has no "..", and the decoded path is at most 4096 bytes long.
pub normalize_path-decode :
    (p q : Bytes)
    → normalize_path p ≡ ok q
    → (decode plain q ≡ rooted (clean p))
      × (contains p dot_dot ≡ false)
      × (length (decode plain q) ≤ max_path_length)
normalize_path-decode p q h =
    let (eq, no_up, short) = normalize_path_accepts p q h in
    let is : decode plain q ≡ rooted (clean p) =
      ap (decode plain) (sym eq) ∙ escape_parts-decode (rooted (clean p)) in
    (is, no_up, rw is short)
