-- ===== src/Config/Credentials/Lines.antt =====
-- The scan for plaintext credentials, read line by line.
use ocis_ftp_bridge.Prelude.{
  ℕ, Bool, true, false, not, ◌&&◌, ◌||◌, ◌==◌, if◌then◌else◌, Option, none, some, Bytes, List, [],
  ◌∷◌, ◌≡◌, refl, sym, All, arith,
}
use ocis_ftp_bridge.Go.Strings.{has_prefix, contains, split, push_head}
use ocis_ftp_bridge.Config.Validation.{contains_any}
use ocis_ftp_bridge.Go.Spaces.{trim_space}
use ocis_ftp_bridge.Config.Credentials.{
  Exposure, password_patterns, common_passwords, is_common, after_colon, is_skipped, is_token,
  check_value, check_after, check_line, first_of, check_lines, check_patterns,
  check_for_plaintext_credentials,
}

abbrev pub is_some : Option Exposure → Bool
is_some none = false
is_some (some e) = true

is_some-first_of : (a b : Option Exposure) → is_some (first_of a b) ≡ (is_some a || is_some b)
is_some-first_of none b = refl
is_some-first_of (some e) b = refl

-- The first field of a split text.
abbrev head_of : List Bytes → Bytes
head_of [] = []
head_of (f ∷ fs) = f

head_of-push_head : (x : ℕ) (fs : List Bytes) → head_of (push_head x fs) ≡ x ∷ head_of fs
head_of-push_head x [] = refl
head_of-push_head x (f ∷ fs) = refl

has_prefix-head_of :
    (c : ℕ) (s p : Bytes) → has_prefix (head_of (split c s)) p ≡ true → has_prefix s p ≡ true
unfolding has_prefix split
has_prefix-head_of c s [] h = refl
has_prefix-head_of c [] (q ∷ p) h = h
has_prefix-head_of c (x ∷ s) (q ∷ p) h =
    ground (arith, has_prefix-head_of c s p, head_of-push_head x (split c s))

unfoldable Lacks : Bytes → List Bytes → Type 0
Lacks p = All (λ line. contains line p ≡ false)

nil_lacks : (s p : Bytes) → contains s p ≡ false → contains [] p ≡ false
unfolding contains has_prefix
nil_lacks [] p h = h
nil_lacks (x ∷ s) [] h = h
nil_lacks (x ∷ s) (q ∷ p) h = refl

push_head-Lacks :
    (x : ℕ) (p : Bytes) (fs : List Bytes)
    → has_prefix (x ∷ head_of fs) p ≡ false
    → contains [] p ≡ false
    → Lacks p fs
    → Lacks p (push_head x fs)
unfolding Lacks contains
push_head-Lacks x p [] start empty h = (ground (arith, start, empty), tt)
push_head-Lacks x p (f ∷ fs) start empty (first, h) = (ground (arith, start, first), h)

start_lacks :
    (c x : ℕ) (s p : Bytes)
    → has_prefix (x ∷ s) p ≡ false
    → has_prefix (x ∷ head_of (split c s)) p ≡ false
unfolding has_prefix
start_lacks c x s [] h = h
start_lacks c x s (q ∷ p) h = ground (arith, has_prefix-head_of c s p)

if_Lacks :
    (p : Bytes) (b : Bool) (fs gs : List Bytes)
    → Lacks p fs
    → Lacks p gs
    → Lacks p (if b then fs else gs)
if_Lacks p true fs gs h k = h
if_Lacks p false fs gs h k = k

-- What does not hold a text has no line that does.
split-Lacks : (c : ℕ) (s p : Bytes) → contains s p ≡ false → Lacks p (split c s)
unfolding Lacks contains split
split-Lacks c [] p h = (h, tt)
split-Lacks c (x ∷ s) p h =
    let start : has_prefix (x ∷ s) p ≡ false = ground arith in
    let later : contains s p ≡ false = ground arith in
    let rest = split-Lacks c s p later in
    let empty = nil_lacks s p later in
    if_Lacks p (x == c) ([] ∷ split c s) (push_head x (split c s)) (empty, rest)
      (push_head-Lacks x p (split c s) (start_lacks c x s p start) empty rest)

check_lines-none : (p : Bytes) (lines : List Bytes) → Lacks p lines → check_lines p lines ≡ none
unfolding Lacks check_lines check_line
check_lines-none p [] h = refl
check_lines-none p (line ∷ more) (first, h) = ground (arith, first, check_lines-none p more h)

-- A value that is neither a hash, nor empty, nor quoted, and is a common password or looks like a token.
abbrev pub is_weak : Bytes → Bool
is_weak value = not (is_skipped value) && (is_common value common_passwords || is_token value)

abbrev pub shows_weak : Option Bytes → Bool
shows_weak none = false
shows_weak (some text) = is_weak (trim_space text)

-- One line names one of the patterns and shows a weak value behind its first colon.
unfoldable pub has_exposed : List Bytes → List Bytes → Bool
has_exposed patterns [] = false
has_exposed patterns (line ∷ more) =
    (contains_any line patterns && shows_weak (after_colon line)) || has_exposed patterns more

check_after-shows_weak : (p : Bytes) (o : Option Bytes) → is_some (check_after p o) ≡ shows_weak o
unfolding check_after check_value
check_after-shows_weak p none = refl
check_after-shows_weak p (some text) = ground arith

has_exposed-nil : (lines : List Bytes) → has_exposed [] lines ≡ false
unfolding has_exposed contains_any
has_exposed-nil [] = refl
has_exposed-nil (line ∷ more) = ground (arith, has_exposed-nil more)

has_exposed-cons :
    (p : Bytes) (patterns lines : List Bytes)
    → has_exposed (p ∷ patterns) lines
      ≡ (is_some (check_lines p lines) || has_exposed patterns lines)
unfolding has_exposed contains_any check_lines check_line
has_exposed-cons p patterns [] = refl
has_exposed-cons p patterns (line ∷ more) = ground (
  arith,
  has_exposed-cons p patterns more,
  check_after-shows_weak p (after_colon line),
  is_some-first_of (check_line p line) (check_lines p more),
)

lacked-check_lines :
    (p content : Bytes) → contains content p ≡ false → check_lines p (split b'\n' content) ≡ none
lacked-check_lines p content h =
    check_lines-none p (split b'\n' content) (split-Lacks b'\n' content p h)

check_patterns-has_exposed :
    (patterns : List Bytes) (content : Bytes)
    → is_some (check_patterns patterns content) ≡ has_exposed patterns (split b'\n' content)
unfolding check_patterns
check_patterns-has_exposed [] content = sym (has_exposed-nil (split b'\n' content))
check_patterns-has_exposed (p ∷ more) content = ground (
  arith,
  lacked-check_lines p content,
  check_patterns-has_exposed more content,
  has_exposed-cons p more (split b'\n' content),
  is_some-first_of (check_lines p (split b'\n' content)) (check_patterns more content),
)

-- A file that can be read is reported exactly if one of its lines holds one of the patterns and has,
-- behind its first colon, a value that is neither a hash, nor empty, nor quoted, and is a common
-- password or a long text without blanks: the scan, one pass over the file for every pattern the file
-- holds, is one pass over the lines.
pub check_for_plaintext_credentials-has_exposed :
    (content : Bytes)
    → is_some (check_for_plaintext_credentials (some content))
      ≡ has_exposed password_patterns (split b'\n' content)
unfolding check_for_plaintext_credentials
check_for_plaintext_credentials-has_exposed content =
    check_patterns-has_exposed password_patterns content
