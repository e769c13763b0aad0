-- ===== src/Go/FilePath.antt =====
-- What the source uses of Go's packages `path` and `path/filepath`, on a Unix system. A path is cleaned
-- by a fold over its components with a stack, which is what Go's in-place loop computes.
pub mod Components
pub mod Cleaning
use ocis_ftp_bridge.Prelude.{
  ℕ, zero, suc, ◌≡◌, refl, Bool, true, false, ◌||◌, ◌&&◌, not, Option, none, some, List, [], ◌∷◌,
  ◌++◌, reverse, ◌==◌, if◌then◌else◌, Bytes, codes, same, length,
}
use ocis_ftp_bridge.Go.Strings.{has_prefix, has_byte, split, join, trim_right}

abbrev pub slash : ℕ
slash = b'/'

abbrev pub dot : Bytes
dot = b'.' ∷ []

abbrev pub dot_dot : Bytes
dot_dot = b'.' ∷ b'.' ∷ []

-- filepath.IsAbs
abbrev pub is_abs : Bytes → Bool
is_abs [] = false
is_abs (c ∷ p) = c == b'/'

-- A `..` takes the last component away; at the root it is dropped, else it stays in front.
unfoldable pub go_up : Bool → List Bytes → List Bytes
go_up rooted [] = if rooted then [] else dot_dot ∷ []
go_up rooted (top ∷ stack) = if same top dot_dot then dot_dot ∷ top ∷ stack else stack

-- One component onto the stack, the last one on top.
unfoldable pub push : Bool → List Bytes → Bytes → List Bytes
unfolding go_up
push rooted stack c =
    if same c [] || same c dot
    then stack
    else if same c dot_dot
    then go_up rooted stack
    else c ∷ stack

unfoldable pub push_all : Bool → List Bytes → List Bytes → List Bytes
unfolding push
push_all rooted stack [] = stack
push_all rooted stack (c ∷ cs) = push_all rooted (push rooted stack c) cs

-- The components of a cleaned path.
unfoldable pub names : Bytes → List Bytes
unfolding push_all split
names p = reverse (push_all (is_abs p) [] (split slash p))

unfoldable pub render : Bool → List Bytes → Bytes
unfolding join
render true ns = slash ∷ join slash ns
render false [] = dot
render false (n ∷ ns) = join slash (n ∷ ns)

-- path.Clean, filepath.Clean
unfoldable pub clean : Bytes → Bytes
unfolding names render
clean p = render (is_abs p) (names p)

-- filepath.Join of two elements
unfoldable pub join_path : Bytes → Bytes → Bytes
unfolding clean
join_path [] [] = []
join_path [] (c ∷ b) = clean (c ∷ b)
join_path (c ∷ a) b = clean ((c ∷ a) ++ slash ∷ b)

-- One byte in front of a text that is cut at its last separator, or has none.
abbrev pub cut_onto : ℕ → ℕ → Bytes × Bytes → Bytes × Bytes
cut_onto c x ([], b) = if x == c then (x ∷ [], b) else ([], x ∷ b)
cut_onto c x (y ∷ r, b) = (x ∷ y ∷ r, b)

-- The text up to the last separator, that one included, and the text behind it.
unfoldable pub cut_last : ℕ → Bytes → Bytes × Bytes
cut_last c [] = ([], [])
cut_last c (x ∷ s) = cut_onto c x (cut_last c s)

-- filepath.Dir
unfoldable pub dir : Bytes → Bytes
unfolding clean cut_last
dir p = clean (cut_last slash p).0

abbrev pub or_slash : Bytes → Bytes
or_slash [] = slash ∷ []
or_slash (x ∷ s) = x ∷ s

-- filepath.Base
unfoldable pub base : Bytes → Bytes
unfolding trim_right cut_last
base [] = dot
base (c ∷ p) = or_slash (cut_last slash (trim_right (λ x. x == b'/') (c ∷ p))).1

-- filepath.Ext: from the last dot of the last component, or nothing.
unfoldable pub ext : Bytes → Bytes
unfolding cut_last
ext p = elim ((cut_last b'.' (cut_last slash p).1).0) [
  | [] ↦ []
  | x ∷ s ↦ b'.' ∷ (cut_last b'.' (cut_last slash p).1).1
]

-- What is left of two lists of components past their common beginning.
unfoldable pub strip_common : List Bytes → List Bytes → List Bytes × List Bytes
strip_common [] ts = ([], ts)
strip_common (b ∷ bs) [] = (b ∷ bs, [])
strip_common (b ∷ bs) (t ∷ ts) =
    let rest = strip_common bs ts in if same b t then rest else (b ∷ bs, t ∷ ts)

unfoldable pub ups : List Bytes → List Bytes
ups [] = []
ups (b ∷ bs) = dot_dot ∷ ups bs

abbrev pub starts_up : List Bytes → Bool
starts_up [] = false
starts_up (b ∷ bs) = same b dot_dot

abbrev pub same_root : Bool → Bool → Bool
same_root true b = b
same_root false b = not b

-- filepath.Rel; `none` is its error.
unfoldable pub rel : Bytes → Bytes → Option Bytes
unfolding names render strip_common ups
rel base_path target =
    let (bs, ts) = strip_common (names base_path) (names target) in
    if same_root (is_abs base_path) (is_abs target) && not (starts_up bs)
    then some (render false (ups bs ++ ts))
    else none

clean_test : clean (codes "/a/./b//../c/") ≡ codes "/a/c"
unfolding clean
clean_test = refl

clean_relative : clean (codes "a/../../b") ≡ codes "../b"
unfolding clean
clean_relative = refl

clean_empty : clean [] ≡ codes "."
unfolding clean
clean_empty = refl

clean_root : clean (codes "/..") ≡ codes "/"
unfolding clean
clean_root = refl

dir_test : dir (codes "/a/b.txt") ≡ codes "/a"
unfolding dir
dir_test = refl

dir_plain : dir (codes "b.txt") ≡ codes "."
unfolding dir
dir_plain = refl

base_test : base (codes "/a/b.txt//") ≡ codes "b.txt"
unfolding base
base_test = refl

base_root : base (codes "//") ≡ codes "/"
unfolding base
base_root = refl

ext_test : ext (codes "/a.b/scan.tar.gz") ≡ codes ".gz"
unfolding ext
ext_test = refl

ext_none : ext (codes "/a.b/scan") ≡ []
unfolding ext
ext_none = refl

rel_inside : rel (codes "/spool") (codes "/spool/printer") ≡ some (codes "printer")
unfolding rel
rel_inside = refl

rel_outside : rel (codes "/spool/a") (codes "/spool/b") ≡ some (codes "../b")
unfolding rel
rel_outside = refl

join_test : join_path (codes "/scans/") (codes "a/b") ≡ codes "/scans/a/b"
unfolding join_path
join_test = refl
