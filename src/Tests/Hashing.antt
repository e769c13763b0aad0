-- ===== src/Tests/Hashing.antt =====
-- A run of the model of cmd/hash-password and of the verification of what it prints.
use ocis_ftp_bridge.Prelude.{
  ℕ, zero, suc, ◌+◌, ◌-◌, ◌≤◌, ◌≡◌, refl, ap, sym, ◌∙◌, arith, Bytes, codes, Option, none, some,
  false, List, [], ◌∷◌, ◌++◌, ok, length, map, inl,
}
use mathlib.Core.List.{append_assoc}
use ocis_ftp_bridge.Go.Strings.{has_byte, split, join, trim_right}
use ocis_ftp_bridge.Go.Strconv.{value_from, decimal, value-decimal}
use ocis_ftp_bridge.Go.Strconv.Digits.{Free-append, Free-decimal}
use ocis_ftp_bridge.Go.FilePath.Components.{Free, split-join}
use ocis_ftp_bridge.Config.Passwords.{HashParsers, verify_password}
use ocis_ftp_bridge.HashPassword.{
  Flags, Machine, max_uint32, parameters_text, encoded, typed_line, read_password, hash_password,
}
use ocis_ftp_bridge.HashPassword.Verified.{key_of, accepted_lengths, hash_password-verify_password}

abbrev nulls : ℕ → Bytes
nulls zero = []
nulls (suc n) = 0 ∷ nulls n

-- Every byte is moved past the dollar sign.
abbrev machine : Machine
machine = record {
  read_line = (codes "secret" ++ 10 ∷ [], false);
  salt = λ n. some (nulls n);
  id_key = λ password salt time memory threads n. nulls n;
  encode = map (λ c. c + 37);
}

abbrev back : Bytes → Bytes
back = map (λ c. c - 37)

-- The number after the two bytes of a name.
abbrev number : Bytes → Option ℕ
number [] = none
number (c ∷ []) = none
number (c ∷ d ∷ digits) = value_from 0 digits

abbrev numbers : Option ℕ → Option ℕ → Option ℕ → Option (ℕ × ℕ × ℕ)
numbers (some m) (some t) (some p) = some (m, t, p)
numbers (some m) (some t) none = none
numbers (some m) none p = none
numbers none t p = none

abbrev scan_fields : List Bytes → Option (ℕ × ℕ × ℕ)
scan_fields [] = none
scan_fields (m ∷ []) = none
scan_fields (m ∷ t ∷ []) = none
scan_fields (m ∷ t ∷ p ∷ []) = numbers (number m) (number t) (number p)
scan_fields (m ∷ t ∷ p ∷ q ∷ more) = none

abbrev parsers : HashParsers
parsers = record { scan = λ s. scan_fields (split b',' s); decode = λ s. some (back s) }

length-nulls : (n : ℕ) → length (nulls n) ≡ n
length-nulls zero = refl
length-nulls (suc n) = omega (arith, length-nulls n)

back-encode : (s : Bytes) → back (machine.encode s) ≡ s
back-encode [] = refl
back-encode (c ∷ s) =
    let same_byte : (c + 37) - 37 ≡ c = omega arith in
    ap (λ d. d ∷ back (machine.encode s)) same_byte ∙ ap (λ t. c ∷ t) (back-encode s)

decoded : (s : Bytes) → parsers.decode (machine.encode s) ≡ some s
decoded s = ap some (back-encode s)

no_dollar : (s : Bytes) → Free b'$' (machine.encode s)
unfolding has_byte
no_dollar [] = refl
no_dollar (c ∷ s) = ground (arith, no_dollar s)

abbrev field : Bytes → ℕ → Bytes
field name n = name ++ decimal n

field-Free : (name : Bytes) (n : ℕ) → Free b',' name → Free b',' (field name n)
field-Free name n h = Free-append b',' name (decimal n) h (Free-decimal b',' n (inl refl))

fields : (f : Flags) → List Bytes
fields f =
    field (codes "m=") f.memory ∷ field (codes "t=") f.time ∷ field (codes "p=") f.threads ∷ []

parameters_are : (f : Flags) → parameters_text f ≡ join b',' (fields f)
unfolding parameters_text join fields
parameters_are f = simp append_assoc

split_parameters : (f : Flags) → split b',' (parameters_text f) ≡ fields f
unfolding has_byte fields
split_parameters f =
    ap (split b',') (parameters_are f)
    ∙ split-join b',' (field (codes "m=") f.memory)
        (field (codes "t=") f.time ∷ field (codes "p=") f.threads ∷ [])
        (
          field-Free (codes "m=") f.memory refl,
          (field-Free (codes "t=") f.time refl, (field-Free (codes "p=") f.threads refl, tt)),
        )

scanned :
    (f : Flags)
    → f.time ≤ max_uint32
    → f.memory ≤ max_uint32
    → f.threads ≤ 255
    → parsers.scan (parameters_text f) ≡ some (f.memory, f.time, f.threads)
unfolding fields
scanned f t m p =
    ap scan_fields (split_parameters f)
    ∙ simp (value-decimal f.memory, value-decimal f.time, value-decimal f.threads)

key_length :
    (password salt : Bytes) (time memory threads n : ℕ)
    → length (machine.id_key password salt time memory threads n) ≡ n
key_length password salt time memory threads n = length-nulls n

salt_length : (n : ℕ) (salt : Bytes) → machine.salt n ≡ some salt → length salt ≡ n
salt_length n salt h = let is : nulls n ≡ salt = ground arith in ap length (sym is) ∙ length-nulls n

abbrev flags : Flags
flags = record { memory = 65536; time = 3; threads = 4; key_len = 32; salt_len = 16 }

-- The line that was typed, without its line feed.
is_read : read_password machine [] ≡ ok (codes "secret")
unfolding read_password typed_line trim_right
is_read = refl

abbrev printed : Bytes
printed = encoded machine flags (nulls 16) (nulls 32)

is_printed : hash_password machine flags [] ≡ ok printed
unfolding hash_password read_password typed_line trim_right
is_printed = refl

hash_password_example :
    verify_password parsers (key_of machine) printed (codes "secret") ≡ accepted_lengths 16 32
hash_password_example =
    hash_password-verify_password machine parsers scanned decoded no_dollar key_length salt_length
      flags [] printed (codes "secret") is_printed is_read
