-- ===== src/Spool/Files/Below.antt =====
-- Paths below the spool directory: what the test on a relative path says of the components, and the
-- path of a user's file.
use ocis_ftp_bridge.Prelude.{
  ◌≡◌, refl, sym, ap, ◌∙◌, true, false, some, List, [], ◌∷◌, ◌++◌, Bytes, same, same→eq, same_iff,
  All, arith, Bool-cases, inl, inr,
}
use mathlib.Core.List.{append-nil}
use ocis_ftp_bridge.Go.Strings.{has_prefix, has_byte, split, join}
use ocis_ftp_bridge.Go.FilePath.{
  slash, dot_dot, is_abs, push, push_all, names, render, clean, join_path, strip_common, ups, rel,
}
use ocis_ftp_bridge.Go.FilePath.Components.{Free, IsName, NoUp, split_without}
use ocis_ftp_bridge.Go.FilePath.Cleaning.{kept, names-join_path}
use ocis_ftp_bridge.Spool.Files.{is_above}

-- A name that a path can have as a component, and that does not go up.
abbrev pub IsPlain : Bytes → Type 0
IsPlain n = IsName n × NoUp n

strip_common_eq :
    (bs ts : List Bytes)
    → (cs : List Bytes) × (bs ≡ cs ++ (strip_common bs ts).0) × (ts ≡ cs ++ (strip_common bs ts).1)
unfolding strip_common
strip_common_eq [] ts = ([], refl, refl)
strip_common_eq (b ∷ bs) [] = ([], refl, refl)
strip_common_eq (b ∷ bs) (t ∷ ts) =
    let (cs, p, q) = strip_common_eq bs ts in
    elim (Bool-cases (same b t)) [
      | inl h ↦ (
        b ∷ cs,
        rw (h, strip_common) (ap (λ r. b ∷ r) p),
        rw (h, strip_common) (rw (same→eq b t h) (ap (λ r. t ∷ r) q)),
      )
      | inr h ↦ ([], rw (h, strip_common) refl, rw (h, strip_common) refl)
    ]

-- No leading `..`: nothing is left of the base.
below_base :
    (bs ts : List Bytes) → has_prefix (render false (ups bs ++ ts)) dot_dot ≡ false → bs ≡ []
unfolding ups render has_prefix join
below_base [] ts h = refl
below_base (b ∷ []) [] h = cc
below_base (b ∷ []) (t ∷ ts) h = cc
below_base (b ∷ c ∷ bs) ts h = cc

-- A path that is not above the base has the base's components in front.
pub rel-below :
    (a p : Bytes) → is_above (rel a p) ≡ false → (ts : List Bytes) × (names p ≡ names a ++ ts)
unfolding rel is_above
rel-below a p h =
    let r = strip_common (names a) (names p) in
    let (cs, from_a, from_p) = strip_common_eq (names a) (names p) in
    let low : has_prefix (render false (ups r.0 ++ r.1)) dot_dot ≡ false = ground arith in
    let all : names a ≡ cs =
      from_a ∙ ap (λ bs. cs ++ bs) (below_base r.0 r.1 low) ∙ append-nil cs in
    (r.1, from_p ∙ ap (λ ns. ns ++ r.1) (sym all))

pub strip_common-append : (bs ts : List Bytes) → strip_common bs (bs ++ ts) ≡ ([], ts)
unfolding strip_common
strip_common-append [] ts = refl
strip_common-append (b ∷ bs) ts = ground (arith, same_iff b b, strip_common-append bs ts)

pub rel_below :
    (a p : Bytes) (ts : List Bytes)
    → is_abs a ≡ true
    → is_abs p ≡ true
    → names p ≡ names a ++ ts
    → rel a p ≡ some (render false ts)
unfolding rel ups
rel_below a p ts abs abs' is =
    let s : strip_common (names a) (names p) ≡ ([], ts) =
      ap (strip_common (names a)) is ∙ strip_common-append (names a) ts in
    rw (s, rel) (rw abs (rw abs' refl))

-- A plain name is one component.
pub kept-plain : (n : Bytes) → IsPlain n → kept (split slash n) ≡ n ∷ []
unfolding kept
kept-plain n (is, no_up) = rw (split_without slash n is.free) (ground (arith, is.filled, is.no_dot))

pub NoUp-plain : (n : Bytes) → IsPlain n → All NoUp (split slash n)
NoUp-plain n (is, no_up) = rw (split_without slash n is.free) (no_up, tt)

pub names-join_plain :
    (a n : Bytes) → is_abs a ≡ true → IsPlain n → names (join_path a n) ≡ names a ++ (n ∷ [])
names-join_plain a n abs plain =
    names-join_path a n abs (NoUp-plain n plain) ∙ ap (λ r. names a ++ r) (kept-plain n plain)

relative_of_Free : (n : Bytes) → Free b'/' n → is_abs n ≡ false
unfolding has_byte
relative_of_Free [] h = refl
relative_of_Free (x ∷ n) h = ground arith

pub clean-plain : (n : Bytes) → IsPlain n → clean n ≡ n
unfolding clean names render push_all push join
clean-plain n (is, no_up) =
    let relative = relative_of_Free n is.free in
    let one = split_without slash n is.free in
    let pushed : push_all false [] (n ∷ []) ≡ n ∷ [] = ground (arith, is.filled, is.no_dot) in
    rw (relative, clean) (rw (one, clean) (rw (pushed, clean) refl))
