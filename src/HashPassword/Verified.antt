-- ===== src/HashPassword/Verified.antt =====
-- What the command writes, `VerifyPassword` reads.
use ocis_ftp_bridge.Prelude.{
  ℕ, ◌≤◌, ◌≡◌, refl, sym, ap, ◌∙◌, Bool, true, false, ltb, if◌then◌else◌, Option, none, some, Bytes,
  codes, same, same_refl, length, List, [], ◌∷◌, ◌++◌, Result, ok, err, >>=-eq-ok, refuse-eq-ok,
  ok-injective, inl, arith,
}
use mathlib.Core.List.{append_assoc}
use ocis_ftp_bridge.Go.Strings.{has_byte, split, join}
use ocis_ftp_bridge.Go.Strconv.{decimal}
use ocis_ftp_bridge.Go.Strconv.Digits.{Free-append, Free-decimal}
use ocis_ftp_bridge.Go.FilePath.Components.{Free, split-join}
use ocis_ftp_bridge.Config.Types.{ConfigError, hash_salt, hash_digest, hash_digest_too_long}
use ocis_ftp_bridge.Config.Passwords.{
  Argon2Params, HashParsers, max_argon2_digest_length, checked_params, six_parts, parse_argon2id,
  verify_password,
}
use ocis_ftp_bridge.HashPassword.{
  Flags, Machine, HashError, empty_password, invalid_time, invalid_memory, invalid_threads,
  invalid_key_len, read_password, out_of_range, max_uint32, or_no_salt, parameters_text, encoded,
  hash_password,
}

-- `VerifyPassword` derives a key of the length of the digest.
abbrev pub key_of : Machine → Bytes → Argon2Params → Bytes
key_of m password p = m.id_key password p.salt p.time p.memory p.threads (length p.hash)

-- The answer of `VerifyPassword` to a password and its hash, by the lengths of salt and digest.
abbrev pub accepted_lengths : ℕ → ℕ → Result ConfigError Bool
accepted_lengths salt_len key_len =
    if ltb salt_len 8
    then err hash_salt
    else (if ltb key_len 16
        then err hash_digest
        else (if ltb max_argon2_digest_length key_len then err hash_digest_too_long else ok true))

Free-parameters_text : (f : Flags) → Free b'$' (parameters_text f)
unfolding parameters_text has_byte
Free-parameters_text f =
    let digits = λ (n : ℕ). Free-decimal b'$' n (inl refl) in
    Free-append b'$'
      (codes "m=" ++ decimal f.memory ++ codes ",t=" ++ decimal f.time ++ codes ",p=")
      (decimal f.threads)
      (Free-append b'$' (codes "m=" ++ decimal f.memory ++ codes ",t=" ++ decimal f.time)
        (codes ",p=")
        (Free-append b'$' (codes "m=" ++ decimal f.memory ++ codes ",t=") (decimal f.time)
          (Free-append b'$' (codes "m=" ++ decimal f.memory) (codes ",t=")
            (Free-append b'$' (codes "m=") (decimal f.memory) refl (digits f.memory)) refl)
          (digits f.time))
        refl)
      (digits f.threads)

or_no_salt-ok : (o : Option Bytes) (s : Bytes) → or_no_salt o ≡ ok s → o ≡ some s
or_no_salt-ok none s h = cc
or_no_salt-ok (some t) s h = ap some (ok-injective {E = HashError} h)

joined :
    (m : Machine) (f : Flags) (salt hash : Bytes)
    → join b'$' (
        []
        ∷ codes "argon2id"
        ∷ codes "v=19"
        ∷ parameters_text f
        ∷ m.encode salt
        ∷ m.encode hash
        ∷ [])
      ≡ encoded m f salt hash
unfolding join encoded
joined m f salt hash = simp append_assoc

-- Go's `fmt.Sscanf` reads what `fmt.Sprintf` printed; base64 decodes what it encoded, and writes no
-- dollar sign; Argon2id and the random source give as many bytes as they are asked for.
module _ (m : Machine) (parsers : HashParsers)
    (scanned : (f : Flags)
      → f.time ≤ max_uint32
      → f.memory ≤ max_uint32
      → f.threads ≤ 255
      → parsers.scan (parameters_text f) ≡ some (f.memory, f.time, f.threads))
    (decoded : (s : Bytes) → parsers.decode (m.encode s) ≡ some s)
    (no_dollar : (s : Bytes) → Free b'$' (m.encode s))
    (key_length : (password salt : Bytes) (time memory threads n : ℕ)
      → length (m.id_key password salt time memory threads n) ≡ n)
    (salt_length : (n : ℕ) (salt : Bytes) → m.salt n ≡ some salt → length salt ≡ n) where
  split-encoded :
      (f : Flags) (salt hash : Bytes)
      → split b'$' (encoded m f salt hash)
        ≡ []
          ∷ codes "argon2id"
          ∷ codes "v=19"
          ∷ parameters_text f
          ∷ m.encode salt
          ∷ m.encode hash
          ∷ []
  unfolding encoded has_byte
  split-encoded f salt hash =
      let parts : List Bytes =
        codes "argon2id" ∷ codes "v=19" ∷ parameters_text f ∷ m.encode salt ∷ m.encode hash ∷ [] in
      let whole : join b'$' ([] ∷ parts) ≡ encoded m f salt hash = joined m f salt hash in
      ap (split b'$') (sym whole)
      ∙ split-join b'$' [] parts
          (refl, (refl, (refl, (Free-parameters_text f, (no_dollar salt, (no_dollar hash, tt))))))

  verified :
      (f : Flags) (password salt : Bytes)
      → out_of_range f.time max_uint32 ≡ false
      → out_of_range f.memory max_uint32 ≡ false
      → out_of_range f.threads 255 ≡ false
      → length salt ≡ f.salt_len
      → let hash = m.id_key password salt f.time f.memory f.threads f.key_len in
        verify_password parsers (key_of m) (encoded m f salt hash) password
        ≡ accepted_lengths f.salt_len f.key_len
  unfolding verify_password parse_argon2id six_parts checked_params
  verified f password salt t mem th len =
      let key = m.id_key password salt f.time f.memory f.threads f.key_len in
      let long : length key ≡ f.key_len =
        key_length password salt f.time f.memory f.threads f.key_len in
      let again : same (m.id_key password salt f.time f.memory f.threads (length key)) key ≡ true =
        ap (λ n. same (m.id_key password salt f.time f.memory f.threads n) key) long
        ∙ same_refl key in
      rw (split-encoded f salt _) (
        rw (scanned f (ground arith) (ground arith) (ground arith))
          (rw (decoded salt) (rw (decoded key) (ground (arith, len, again)))))

  -- Let what the command takes from Go's library behave as documented. If it prints a hash of the
  -- password that it read, then `VerifyPassword` on that hash and password accepts it, if the salt has at
  -- least 8 bytes and the key from 16 to 4096; outside of these lengths, which the command does not
  -- check, `VerifyPassword` fails with the error of the salt or of the digest.
  pub hash_password-verify_password :
      (f : Flags) (args : List Bytes) (printed password : Bytes)
      → hash_password m f args ≡ ok printed
      → read_password m args ≡ ok password
      → verify_password parsers (key_of m) printed password ≡ accepted_lengths f.salt_len f.key_len
  unfolding hash_password
  hash_password-verify_password f args printed password h given =
      let (typed, t0, h1) = >>=-eq-ok (read_password m args) _ h in
      let same_one : typed ≡ password = ok-injective {E = HashError} (sym t0 ∙ given) in
      let (filled, h2) = refuse-eq-ok (same typed []) empty_password _ h1 in
      let (time, h3) = refuse-eq-ok (out_of_range f.time max_uint32) invalid_time _ h2 in
      let (memory, h4) = refuse-eq-ok (out_of_range f.memory max_uint32) invalid_memory _ h3 in
      let (threads, h5) = refuse-eq-ok (out_of_range f.threads 255) invalid_threads _ h4 in
      let (key, h6) = refuse-eq-ok (out_of_range f.key_len max_uint32) invalid_key_len _ h5 in
      let (salt, drawn, h7) = >>=-eq-ok (or_no_salt (m.salt f.salt_len)) _ h6 in
      let is = ok-injective {E = HashError} h7 in
      let length_is = salt_length f.salt_len salt (or_no_salt-ok (m.salt f.salt_len) salt drawn) in
      ap (λ t. verify_password parsers (key_of m) t password) (sym is)
      ∙ ap
          (λ p.
            verify_password parsers (key_of m)
              (encoded m f salt (m.id_key p salt f.time f.memory f.threads f.key_len)) password)
          same_one
      ∙ verified f password salt time memory threads length_is
