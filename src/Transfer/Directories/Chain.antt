-- ===== src/Transfer/Directories/Chain.antt =====
-- The directories that `create_parents` creates: every ancestor once, the outermost first.
use ocis_ftp_bridge.Prelude.{
  ℕ, zero, suc, ◌+◌, ◌≤◌, ◌<◌, Bytes, some, Result, ok, err, Bool, true, false, List, [], ◌∷◌, ◌++◌,
  length, reverse, length-append, false≢true, ◌≡◌, ◌≢◌, refl, sym, ap, ◌∙◌, arith, All, ==_iff,
}
use mathlib.Core.List.{append-nil, append_assoc, reverse-append}
use ocis_ftp_bridge.Go.Strings.{join, split}
use ocis_ftp_bridge.Go.FilePath.{slash, dir, clean, cut_last, cut_onto, render, names, is_abs}
use ocis_ftp_bridge.Go.FilePath.Components.{Free, IsName, NoUp, All-reverse}
use ocis_ftp_bridge.Go.FilePath.Cleaning.{clean_abs, names-append, names-render, kept}
use ocis_ftp_bridge.Go.Strings.{has_byte}
use ocis_ftp_bridge.Transfer.Types.{TransferError, Client}
use ocis_ftp_bridge.Transfer.Directories.{
  create, create_parents, ensure_parent_directories, ensure_directory, create_missing, and_then,
  is_top,
}

cut_last-Free : (c : ℕ) (n : Bytes) → Free c n → cut_last c n ≡ ([], n)
unfolding cut_last has_byte
cut_last-Free c [] h = refl
cut_last-Free c (x ∷ n) h = ground (arith, cut_last-Free c n)

cut_onto-snoc : (c x : ℕ) (a n : Bytes) → cut_onto c x (a ++ c ∷ [], n) ≡ (x ∷ (a ++ c ∷ []), n)
cut_onto-snoc c x [] n = refl
cut_onto-snoc c x (y ∷ a) n = refl

cut_last-append : (c : ℕ) (a n : Bytes) → Free c n → cut_last c (a ++ c ∷ n) ≡ (a ++ c ∷ [], n)
unfolding cut_last
cut_last-append c [] n h =
    ap (cut_onto c c) (cut_last-Free c n h) ∙ ground (arith, (==_iff c c).1 refl)
cut_last-append c (x ∷ a) n h = ap (cut_onto c x) (cut_last-append c a n h) ∙ cut_onto-snoc c x a n

join-snoc :
    (c : ℕ) (f : Bytes) (fs : List Bytes) (n : Bytes)
    → join c ((f ∷ fs) ++ n ∷ []) ≡ join c (f ∷ fs) ++ c ∷ n
unfolding join
join-snoc c f [] n = refl
join-snoc c f (g ∷ fs) n =
    ap (λ r. f ++ c ∷ r) (join-snoc c g fs n) ∙ sym (append_assoc f (c ∷ join c (g ∷ fs)) (c ∷ n))

-- An absolute path is given by its names.
abbrev Names : List Bytes → Type 0
Names ns = All IsName ns × All NoUp ns

kept_nothing : kept (split slash []) ≡ []
unfolding kept split
kept_nothing = refl

-- A trailing slash is cleaned away.
clean-trailing :
    (p : Bytes) (ns : List Bytes)
    → is_abs p ≡ true
    → names p ≡ ns
    → clean (p ++ slash ∷ []) ≡ render true ns
clean-trailing [] ns h e = ground (arith, h)
clean-trailing (c ∷ p) ns h e =
    clean_abs ((c ∷ p) ++ slash ∷ []) h
    ∙ ap (render true) (
        names-append (c ∷ p) [] (λ k. cc) (unfold split in (refl, tt))
        ∙ ap (λ m. names (c ∷ p) ++ m) kept_nothing
        ∙ append-nil (names (c ∷ p))
        ∙ e)

dir-render :
    (ns : List Bytes) (n : Bytes)
    → Names ns
    → IsName n
    → dir (render true (ns ++ n ∷ [])) ≡ render true ns
unfolding dir render join
dir-render [] n h k = ap (λ (r : Bytes × Bytes). clean r.0) (cut_last-append slash [] n k.free)
dir-render (f ∷ fs) n (h, u) k =
    ap (λ m. clean (cut_last slash (slash ∷ m)).0) (join-snoc slash f fs n)
    ∙ ap (λ (r : Bytes × Bytes). clean r.0)
        (cut_last-append slash (slash ∷ join slash (f ∷ fs)) n k.free)
    ∙ clean-trailing (slash ∷ join slash (f ∷ fs)) (f ∷ fs) refl (names-render (f ∷ fs) h u)

is_top-render : (n : Bytes) (ns : List Bytes) → IsName n → is_top (render true (n ∷ ns)) ≡ false
unfolding render join
is_top-render [] ns k = ground (arith, k.filled)
is_top-render (c ∷ n) [] k = ground arith
is_top-render (c ∷ n) (m ∷ ns) k = ground arith

is_top_root : is_top (render true []) ≡ true
unfolding render join
is_top_root = refl

length-join : (l : List Bytes) → All IsName l → length l ≤ length (join slash l)
unfolding join
length-join [] h = omega arith
length-join ([] ∷ l) (h, hs) = absurd (false≢true (sym h.filled))
length-join ((c ∷ f) ∷ []) h = omega arith
length-join ((c ∷ f) ∷ g ∷ l) (h, hs) =
    omega (arith, length-append f (slash ∷ join slash (g ∷ l)), length-join (g ∷ l) hs)

length-render : (l : List Bytes) → All IsName l → length l < length (render true l)
unfolding render
length-render l h = omega (arith, length-join l h)

length-reverse : (l m : List Bytes) → length (reverse l ++ m) ≡ length l + length m
length-reverse [] m = omega arith
length-reverse (n ∷ l) m =
    ap (λ r. length (r ++ m)) (reverse-append (n ∷ []) l)
    ∙ ap length (append_assoc (reverse l) (n ∷ []) m)
    ∙ length-reverse l (n ∷ m)
    ∙ omega arith

length-names :
    (n : Bytes) (ns : List Bytes)
    → All IsName (n ∷ ns)
    → length ns < suc (length (render true (reverse (n ∷ ns))))
length-names n ns h = omega (
  arith,
  length-render (reverse (n ∷ ns)) (All-reverse IsName (n ∷ ns) h),
  length-reverse (n ∷ ns) [],
  ap length (append-nil (reverse (n ∷ ns))),
)

is_top-names : (l : List Bytes) → l ≢ [] → All IsName l → is_top (render true l) ≡ false
is_top-names [] h k = absurd (h refl)
is_top-names (n ∷ ns) h (k, ks) = is_top-render n ns k

snoc-ne_nil : (l : List Bytes) (n : Bytes) → l ++ n ∷ [] ≢ []
snoc-ne_nil [] n h = cc
snoc-ne_nil (m ∷ l) n h = cc

is_top_below :
    (n : Bytes) (ns : List Bytes)
    → All IsName (n ∷ ns)
    → is_top (render true (reverse (n ∷ ns))) ≡ false
is_top_below n ns h =
    is_top-names (reverse (n ∷ ns))
      (λ e. snoc-ne_nil (reverse ns) n (sym (reverse-append (n ∷ []) ns) ∙ e))
      (All-reverse IsName (n ∷ ns) h)

module _ {S E : Type 0} (client : Client S E) where
  -- The directories of a path, its names given from the last to the first, created from the
  -- outermost to the innermost, up to the first failure.
  abbrev pub create_down : List Bytes → S → Result (TransferError E) (Unit {0}) × S
  create_down [] s = (ok tt, s)
  create_down (n ∷ ns) s =
      and_then (create_down ns s) (create client (render true (reverse (n ∷ ns))))

  create_parents_down :
      (fuel : ℕ) (n : Bytes) (ns : List Bytes) (s : S)
      → Names (n ∷ ns)
      → length ns < fuel
      → create_parents client fuel (render true (reverse (n ∷ ns))) s ≡ create_down (n ∷ ns) s
  unfolding create_parents
  create_parents_down zero n ns s h enough = absurd (omega arith)
  create_parents_down (suc fuel) n [] s ((k, _), (u, _)) enough =
      rw (dir-render [] n (tt, tt) k) (rw is_top_root refl)
  create_parents_down (suc fuel) n (m ∷ ns) s ((k, ks), (u, us)) enough =
      let parent : dir (render true (reverse (n ∷ m ∷ ns))) ≡ render true (reverse (m ∷ ns)) =
        ap (λ l. dir (render true l)) (reverse-append (n ∷ []) (m ∷ ns))
        ∙ dir-render (reverse (m ∷ ns)) n
            (All-reverse IsName (m ∷ ns) ks, All-reverse NoUp (m ∷ ns) us) k in
      rw parent (
        rw (is_top_below m ns (ks.0, ks.1))
          (rw (create_parents_down fuel m ns s (ks, us) (omega arith)) refl))

  create_missing_parents :
      (parent : Bytes) (r : Result E Bool × S)
      → r.0 ≢ ok true
      → create_missing client parent r ≡ create_parents client (suc (length parent)) parent r.1
  unfolding create_missing
  create_missing_parents parent (ok true, s) h = absurd (h refl)
  create_missing_parents parent (ok false, s) h = refl
  create_missing_parents parent (err e, s) h = refl

  -- For an absolute target `…/file` below some directory, the directory's names given from the last
  -- to the first: if the check does not find the directory, or fails, `EnsureParentDirectories`
  -- creates it and all directories above it, the outermost first, up to the first that fails.
  pub ensure-create_down :
      (n file : Bytes) (ns : List Bytes) (s : S)
      → All IsName (file ∷ n ∷ ns)
      → All NoUp (n ∷ ns)
      → (client.check_path_existence (render true (reverse (n ∷ ns))) s).0 ≢ ok true
      → ensure_parent_directories (some client) (render true (reverse (n ∷ ns) ++ file ∷ [])) s
        ≡ create_down (n ∷ ns) (client.check_path_existence (render true (reverse (n ∷ ns))) s).1
  unfolding ensure_parent_directories ensure_directory
  ensure-create_down n file ns s (k, ks) us missing =
      let parent = render true (reverse (n ∷ ns)) in
      ap (λ d. ensure_directory client d s)
        (dir-render (reverse (n ∷ ns)) file
          (All-reverse IsName (n ∷ ns) ks, All-reverse NoUp (n ∷ ns) us) k)
      ∙ rw (is_top_below n ns ks) refl
      ∙ create_missing_parents parent (client.check_path_existence parent s) missing
      ∙ create_parents_down (suc (length parent)) n ns (client.check_path_existence parent s).1
          (ks, us) (length-names n ns ks)
