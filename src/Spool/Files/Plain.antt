-- ===== src/Spool/Files/Plain.antt =====
-- The id of a stored file is a plain name, which `Retrieve` takes.
use ocis_ftp_bridge.Prelude.{
  ℕ, zero, suc, ◌≡◌, refl, sym, ◌∙◌, true, false, ◌||◌, ◌==◌, [], ◌∷◌, ◌++◌, Bytes, same, eq→same,
  take, length, arith, ◌⊎◌, ltb,
}
use ocis_ftp_bridge.Go.Strings.{has_prefix, has_byte, contains, trim_right}
use ocis_ftp_bridge.Go.Strconv.{decimal}
use ocis_ftp_bridge.Go.Strconv.Digits.{Free-append, Free-decimal}
use ocis_ftp_bridge.Go.FilePath.{slash, cut_last, base}
use ocis_ftp_bridge.Go.FilePath.Components.{Free}
use ocis_ftp_bridge.Spool.Files.{stored_id, id_refused}
use ocis_ftp_bridge.Spool.Files.Below.{IsPlain}

Free-take : (c n : ℕ) (s : Bytes) → Free c s → Free c (take n s)
unfolding has_byte
Free-take c zero s h = refl
Free-take c (suc n) [] h = refl
Free-take c (suc n) (x ∷ s) h = ground (arith, Free-take c n s)

contains_byte : (c : ℕ) (s : Bytes) → contains s (c ∷ []) ≡ has_byte c s
unfolding contains has_byte has_prefix
contains_byte c [] = refl
contains_byte c (x ∷ s) = ground (arith, contains_byte c s)

trim_right-Free : (s : Bytes) → Free slash s → trim_right (λ x. x == b'/') s ≡ s
unfolding trim_right has_byte
trim_right-Free [] h = refl
trim_right-Free (x ∷ s) h = ground (arith, trim_right-Free s)

cut_last-Free : (s : Bytes) → Free slash s → cut_last slash s ≡ ([], s)
unfolding cut_last has_byte
cut_last-Free [] h = refl
cut_last-Free (x ∷ s) h = ground (arith, cut_last-Free s)

base-Free : (x : ℕ) (s : Bytes) → Free slash (x ∷ s) → base (x ∷ s) ≡ x ∷ s
unfolding base
base-Free x s h = rw (trim_right-Free (x ∷ s) h, base) (rw (cut_last-Free (x ∷ s) h, base) refl)

Free-tail :
    (c n : ℕ) (s : Bytes)
    → (ltb c 45 || ltb 57 c) || (c == 47) ≡ true
    → Free c s
    → Free c (take 16 s ++ 45 ∷ decimal n)
unfolding has_byte
Free-tail c n s out h =
    let digits : (ltb c 48 ≡ true) ⊎ (ltb 57 c ≡ true) = ground arith in
    let dashed : Free c (45 ∷ decimal n) = ground (arith, Free-decimal c n digits) in
    Free-append c (take 16 s) (45 ∷ decimal n) (Free-take c 16 s h) dashed

module _ (hex : Bytes → Bytes) (no_slash : (s : Bytes) → Free 47 (hex s))
    (no_backslash : (s : Bytes) → Free 92 (hex s)) where
  module _ (user filename : Bytes) (now : ℕ) (content : Bytes) where
    stored_id_no_slash : Free 47 (stored_id hex user filename now content)
    unfolding stored_id has_byte
    stored_id_no_slash = Free-tail 47 (length content) (hex _) refl (no_slash _)

    stored_id_no_backslash : Free 92 (stored_id hex user filename now content)
    unfolding stored_id has_byte
    stored_id_no_backslash = Free-tail 92 (length content) (hex _) refl (no_backslash _)

    pub stored_id-IsPlain : IsPlain (stored_id hex user filename now content)
    unfolding stored_id
    stored_id-IsPlain = (record { free = stored_id_no_slash; filled = refl; no_dot = refl }, refl)

    base-stored_id :
        base (stored_id hex user filename now content) ≡ stored_id hex user filename now content
    unfolding stored_id
    base-stored_id = base-Free 102 _ stored_id_no_slash

    pub stored_id_taken : id_refused (stored_id hex user filename now content) ≡ false
    unfolding id_refused
    stored_id_taken =
        let id = stored_id hex user filename now content in
        let (is, no_up) = stored_id-IsPlain in
        let one : same id (base id) ≡ true = eq→same id (base id) (sym base-stored_id) in
        let clear : contains id (92 ∷ []) ≡ false = contains_byte 92 id ∙ stored_id_no_backslash in
        ground (arith, is.no_dot, no_up, one, clear)
