-- ===== src/Transfer/Containment.antt =====
-- `CalculateTargetPath` never leaves the target root: the components of what it returns.
pub mod Names
use ocis_ftp_bridge.Prelude.{
  ℕ, zero, suc, ◌+◌, ◌-◌, ◌≤◌, ◌<◌, Bytes, Option, none, some, Result, ok, err, ◌>>=◌, ◌>>◌, refuse,
  refuse-eq-ok, >>=-eq-ok, ok-injective, subst, Bool, true, false, ◌&&◌, ◌||◌, not, List, [], ◌∷◌,
  ◌++◌, codes, same, length, if◌then◌else◌, ltb, ◌==◌, map, ◌≡◌, ◌≢◌, refl, sym, ap, ◌∙◌, arith,
  All, All-append, Bool-cases, inl, inr, ◌⊎◌, same→eq, same_iff,
}
use mathlib.Core.List.{append-nil, append_assoc}
use ocis_ftp_bridge.Go.Strings.{
  has_prefix, has_suffix, has_byte, contains, trim_left, trim_right, split, join, push_head,
}
use ocis_ftp_bridge.Go.FilePath.{
  slash, dot, dot_dot, is_abs, clean, join_path, base, names, render, cut_last,
}
use ocis_ftp_bridge.Go.FilePath.Components.{
  Free, NoUp, IsName, split_without, names-IsName, names-NoUp,
}
use ocis_ftp_bridge.Go.FilePath.Cleaning.{
  kept, is_noise, names-join_path, is_abs-join_path, clean_abs, names-clean, is_abs-clean,
}
use ocis_ftp_bridge.Transfer.Types.{TransferError, TargetConfig, TransferManager}
use ocis_ftp_bridge.Transfer.Paths.{
  is_root_path, starts_absolute, is_separator, safe_rune, safe_name, normalize_ftp_path,
  clean_ftp_path, sanitize_filename, bounded_name, add_ftp_path, add_filename, target_path_in,
  validate_target_path, has_traversal, has_drive_letter, calculate_target_path, get_target,
  max_filename_length, filename_goes_up,
}
use Names.{
  NoUp-split, kept-split-clean, trim_left_same, base-Free, safe_name-ne_nil, safe_name-NoUp,
  safe_name-Free,
}

root_path-names : (p : Bytes) → is_root_path p ≡ true → names p ≡ []
root_path-names p h = elim (Bool-cases (same p [])) [
  | inl e ↦ rw (same→eq p [] e) (unfold names in refl)
  | inr e ↦ elim (Bool-cases (same p dot)) [
    | inl d ↦ rw (same→eq p dot d) (unfold names in refl)
    | inr d ↦ rw (same→eq p (slash ∷ []) (ground (arith, h, e, d))) (unfold names in refl)
  ]
]

-- An absolute path whose components are those of the root, then the given ones.
abbrev Extends : Bytes → List Bytes → Bytes → Type 0
Extends root ns p = (is_abs p ≡ true) × (names p ≡ names root ++ ns)

join_path-Extends :
    (root n : Bytes)
    → is_abs root ≡ true
    → All NoUp (split slash n)
    → Extends root (kept (split slash n)) (join_path root n)
join_path-Extends root n h k = (is_abs-join_path root n h, names-join_path root n h k)

-- The component that a filename adds, if it adds one.
abbrev pub file_names : Bytes → List Bytes
file_names [] = []
file_names (c ∷ name) = kept (safe_name (base (c ∷ name)) ∷ [])

relative-is_abs : (p : Bytes) → has_prefix p (slash ∷ []) ≡ false → is_abs p ≡ false
unfolding has_prefix
relative-is_abs [] h = refl
relative-is_abs (c ∷ p) h = ground (arith, h)

module _ {E : Type 0} where
  bounded_name-eq : (b : Bytes) {s : Bytes} → b ≢ [] → bounded_name {E = E} b ≡ ok s → s ≡ b
  unfolding bounded_name
  bounded_name-eq [] h e = absurd (h refl)
  bounded_name-eq (c ∷ b) h e = ground (arith, e)

  clean_ftp_path-eq :
      (p : Bytes) {n : Bytes}
      → clean_ftp_path {E = E} p ≡ ok n
      → same p [] ≡ false
      → (n ≡ clean p) × (contains n dot_dot ≡ false)
  unfolding clean_ftp_path
  clean_ftp_path-eq p h e = ground (arith, h, e)

  -- What a normalised FTP path is: the cleaned path, relative, with no `..` in it.
  normalize_ftp_path-eq :
      (p : Bytes) {n : Bytes}
      → normalize_ftp_path {E = E} p ≡ ok n
      → is_root_path p ≡ false
      → (n ≡ clean p) × (contains n dot_dot ≡ false) × (is_abs p ≡ false)
  unfolding normalize_ftp_path
  normalize_ftp_path-eq p h e =
      let (_, h₁) = refuse-eq-ok (has_traversal p) _ _ (rw e at h) in
      let (relative, h₂) = refuse-eq-ok (starts_absolute p) _ _ h₁ in
      let (_, h₃) = refuse-eq-ok (has_drive_letter p) _ _ h₂ in
      let trimmed = trim_left_same p (ground (arith, relative)) (ground (arith, relative)) in
      let (same_text, no_up) = clean_ftp_path-eq p (rw trimmed at h₃) (ground (arith, e)) in
      (same_text, no_up, relative-is_abs p (ground (arith, relative)))

  add_ftp_path-Extends :
      (root ftp : Bytes) {d : Bytes}
      → is_abs root ≡ true
      → add_ftp_path {E = E} root ftp ≡ ok d
      → Extends root (names ftp) d
  unfolding add_ftp_path
  add_ftp_path-Extends root ftp h e = elim (Bool-cases (is_root_path ftp)) [
    | inl r ↦
        subst (Extends root (names ftp)) (ok-injective (rw r at e))
          (h, rw (root_path-names ftp r) (sym (append-nil (names root))))
    | inr r ↦
        let (n, normal, joined) = >>=-eq-ok (normalize_ftp_path ftp) _ (rw r at e) in
        let (cleaned, no_up, relative) = normalize_ftp_path-eq ftp normal r in
        subst (Extends root (names ftp)) (ok-injective joined) (
          subst (λ ns. Extends root ns (join_path root n))
            (ap (λ m. kept (split slash m)) cleaned ∙ kept-split-clean ftp relative)
            (join_path-Extends root n h (NoUp-split n no_up)))
  ]

  -- A sanitised name is one component, which is not `..`.
  sanitize_filename-eq :
      (name : Bytes) {s : Bytes}
      → sanitize_filename {E = E} name ≡ ok s
      → (same name [] ≡ false) × (s ≡ safe_name (base name)) × Free slash s × NoUp s
  unfolding sanitize_filename
  sanitize_filename-eq name e =
      let (filled, h₁) = refuse-eq-ok (same name []) _ _ e in
      let (_, h₂) = refuse-eq-ok (filename_goes_up name) _ _ h₁ in
      let (relative, h₃) = refuse-eq-ok (starts_absolute name) _ _ h₂ in
      let (_, h₄) = refuse-eq-ok (has_drive_letter name) _ _ h₃ in
      let (no_up, h₅) = refuse-eq-ok (same (base name) dot_dot) _ _ h₄ in
      let (free, some_base) = base-Free name filled (ground (arith, relative)) in
      let text =
        bounded_name-eq (safe_name (base name)) (safe_name-ne_nil (base name) some_base) h₅ in
      (
        filled,
        text,
        subst (Free slash) (sym text) (safe_name-Free (base name) free),
        subst NoUp (sym text) (safe_name-NoUp (base name) no_up),
      )

  add_filename-Extends :
      (d name : Bytes) {p : Bytes}
      → is_abs d ≡ true
      → add_filename {E = E} d name ≡ ok p
      → Extends d (file_names name) p
  unfolding add_filename
  add_filename-Extends d [] h e =
      subst (Extends d []) (ok-injective e) (h, sym (append-nil (names d)))
  add_filename-Extends d (c ∷ name) h e =
      let (s, clean_name, joined) = >>=-eq-ok (sanitize_filename (c ∷ name)) _ e in
      let (_, text, free, no_up) = sanitize_filename-eq (c ∷ name) clean_name in
      let single : split slash s ≡ s ∷ [] = split_without slash s free in
      subst (Extends d (file_names (c ∷ name))) (ok-injective joined) (
        subst (λ ns. Extends d ns (join_path d s)) (ap kept single ∙ ap (λ m. kept (m ∷ [])) text)
          (join_path-Extends d s h (subst (All NoUp) (sym single) (no_up, tt))))

  target_path_in-Extends :
      (root ftp name : Bytes) {p : Bytes}
      → is_abs root ≡ true
      → target_path_in {E = E} root ftp name ≡ ok p
      → Extends root (names ftp ++ file_names name) p
  unfolding target_path_in
  target_path_in-Extends root ftp name h e =
      let (d, e₁, h₁) = >>=-eq-ok (add_ftp_path root ftp) _ e in
      let (q, e₂, h₂) = >>=-eq-ok (add_filename d name) _ h₁ in
      let (_, _, h₃) = >>=-eq-ok (validate_target_path q root) _ h₂ in
      let (abs, under) = add_ftp_path-Extends root ftp h e₁ in
      let (abs', under') = add_filename-Extends d name abs e₂ in
      subst (Extends root (names ftp ++ file_names name)) (ok-injective h₃) (
        abs',
        under'
            ∙ ap (λ ns. ns ++ file_names name) under
            ∙ append_assoc (names root) (names ftp) (file_names name),
      )

-- What `CalculateTargetPath` returns for a user whose target root is absolute: an absolute path whose
-- components are those of the root, then those of the FTP path, then the sanitised base of the
-- filename (none for an empty filename or a `.`), and none of them is `..`.
pub calculate_target_path_contained :
    {S E : Type 0} (tm : TransferManager S E) (user ftp name : Bytes) {config : TargetConfig}
    {p : Bytes}
    → get_target tm user ≡ some config
    → is_abs config.root ≡ true
    → calculate_target_path tm user ftp name ≡ ok p
    → (is_abs p ≡ true)
      × (names p ≡ names config.root ++ (names ftp ++ file_names name))
      × All NoUp (names p)
unfolding calculate_target_path
calculate_target_path_contained tm user ftp name {config} {p} target abs e =
    let (abs', parts) = target_path_in-Extends config.root ftp name abs (rw target at e) in
    (abs', parts, names-NoUp p abs')
