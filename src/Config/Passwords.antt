-- ===== src/Config/Passwords.antt =====
-- pkg/config/config.go: `parseArgon2ID` and `VerifyPassword`. `fmt.Sscanf`, base64 and Argon2id are
-- parameters.
use ocis_ftp_bridge.Prelude.{
  ℕ, ◌≤◌, ◌<◌, ◌≡◌, subst, arith, same→eq, >>=-eq-ok, refuse-eq-ok, ok-injective, Bool, true, ◌&&◌,
  ◌||◌, ltb, ◌==◌, Option, none, some, Bytes, codes, same, length, List, [], ◌∷◌, Result, ok, err,
  refuse, ◌>>=◌, ◌>>◌, if◌then◌else◌,
}
use ocis_ftp_bridge.Go.Strings.{split}
use ocis_ftp_bridge.Config.Types.{
  ConfigError, hash_malformed, hash_parameters, hash_salt, hash_digest, hash_digest_too_long,
}

pub record Argon2Params : Type 0 where
  pub memory : ℕ
  pub time : ℕ
  pub threads : ℕ
  pub salt : Bytes
  pub hash : Bytes

-- What the parsing calls: `fmt.Sscanf` with the format "m=%d,t=%d,p=%d" into two uint32 and a uint64,
-- and the raw decoding of base64.
pub record HashParsers : Type 0 where
  pub scan : Bytes → Option (ℕ × ℕ × ℕ)
  pub decode : Bytes → Option Bytes

abbrev pub max_argon2_digest_length : ℕ
max_argon2_digest_length = 4096

abbrev pub or_error : {A : Type 0} → ConfigError → Option A → Result ConfigError A
or_error e none = err e
or_error e (some a) = ok a

unfoldable pub checked_params :
    HashParsers → Bytes → Bytes → Bytes → Result ConfigError Argon2Params
checked_params parsers parameters salt_text hash_text = do
  numbers ← or_error hash_parameters (parsers.scan parameters)
  refuse (numbers.0 == 0 || (numbers.1 == 0 || (numbers.2 == 0 || ltb 255 numbers.2)))
      hash_parameters
  salt ← or_error hash_salt (parsers.decode salt_text)
  refuse (ltb (length salt) 8) hash_salt
  hash ← or_error hash_digest (parsers.decode hash_text)
  refuse (ltb (length hash) 16) hash_digest
  refuse (ltb max_argon2_digest_length (length hash)) hash_digest_too_long
  ok (record {
    memory = numbers.0;
    time = numbers.1;
    threads = numbers.2;
    salt = salt;
    hash = hash;
  })

unfoldable pub six_parts : HashParsers → List Bytes → Result ConfigError Argon2Params
unfolding checked_params
six_parts parsers (before ∷ kind ∷ version ∷ parameters ∷ salt ∷ hash ∷ []) =
    if same before [] && (same kind (codes "argon2id") && same version (codes "v=19"))
    then checked_params parsers parameters salt hash
    else err hash_malformed
six_parts parsers other = err hash_malformed

unfoldable pub parse_argon2id : HashParsers → Bytes → Result ConfigError Argon2Params
unfolding six_parts split
parse_argon2id parsers encoded = six_parts parsers (split b'$' encoded)

-- `id_key` is `argon2.IDKey`, with a key of the length of the digest.
unfoldable pub verify_password :
    HashParsers → (Bytes → Argon2Params → Bytes) → Bytes → Bytes → Result ConfigError Bool
unfolding parse_argon2id
verify_password parsers id_key encoded_hash password = do
  p ← parse_argon2id parsers encoded_hash
  ok (same (id_key password p) p.hash)

-- The ranges of the parameters that Argon2id is called with.
pub record IsBounded (p : Argon2Params) : Type 0 where
  pub some_memory : 0 < p.memory
  pub some_time : 0 < p.time
  pub some_thread : 0 < p.threads
  pub few_threads : p.threads ≤ 255
  pub long_salt : 8 ≤ length p.salt
  pub long_hash : 16 ≤ length p.hash
  pub short_hash : length p.hash ≤ max_argon2_digest_length

checked_params-IsBounded :
    (parsers : HashParsers) (parameters salt_text hash_text : Bytes) (p : Argon2Params)
    → checked_params parsers parameters salt_text hash_text ≡ ok p
    → IsBounded p
unfolding checked_params
checked_params-IsBounded parsers parameters salt_text hash_text p h =
    let (numbers, s1, h1) = >>=-eq-ok (or_error hash_parameters (parsers.scan parameters)) _ h in
    let (in_range, h2) =
      refuse-eq-ok (numbers.0 == 0 || (numbers.1 == 0 || (numbers.2 == 0 || ltb 255 numbers.2)))
        hash_parameters _ h1 in
    let (salt, s3, h3) = >>=-eq-ok (or_error hash_salt (parsers.decode salt_text)) _ h2 in
    let (long, h4) = refuse-eq-ok (ltb (length salt) 8) hash_salt _ h3 in
    let (hash, s5, h5) = >>=-eq-ok (or_error hash_digest (parsers.decode hash_text)) _ h4 in
    let (enough, h6) = refuse-eq-ok (ltb (length hash) 16) hash_digest _ h5 in
    let (bounded, h7) =
      refuse-eq-ok (ltb max_argon2_digest_length (length hash)) hash_digest_too_long _ h6 in
    subst IsBounded (ok-injective {E = ConfigError} h7) (record {
      some_memory = ground (arith, in_range);
      some_time = ground (arith, in_range);
      some_thread = ground (arith, in_range);
      few_threads = ground (arith, in_range);
      long_salt = ground (arith, long);
      long_hash = ground (arith, enough);
      short_hash = ground (arith, bounded);
    })

six_parts-IsBounded :
    (parsers : HashParsers) (parts : List Bytes) (p : Argon2Params)
    → six_parts parsers parts ≡ ok p
    → IsBounded p
unfolding six_parts
six_parts-IsBounded parsers [] p h = cc
six_parts-IsBounded parsers (a ∷ []) p h = cc
six_parts-IsBounded parsers (a ∷ b ∷ []) p h = cc
six_parts-IsBounded parsers (a ∷ b ∷ c ∷ []) p h = cc
six_parts-IsBounded parsers (a ∷ b ∷ c ∷ d ∷ []) p h = cc
six_parts-IsBounded parsers (a ∷ b ∷ c ∷ d ∷ e ∷ []) p h = cc
six_parts-IsBounded parsers (a ∷ b ∷ c ∷ d ∷ e ∷ f ∷ g ∷ more) p h = cc
six_parts-IsBounded parsers (a ∷ b ∷ c ∷ d ∷ e ∷ f ∷ []) p h =
    checked_params-IsBounded parsers d e f p (ground arith)

-- When `VerifyPassword` accepts a password, the hash parses, the key that Argon2id derives from the
-- password is its digest, and the call had at least one thread and at most 255, a memory and a time
-- above 0, a salt of 8 bytes or more, and a key of 16 to 4096 bytes.
pub verify_password-true :
    (parsers : HashParsers) (id_key : Bytes → Argon2Params → Bytes) (encoded_hash password : Bytes)
    → verify_password parsers id_key encoded_hash password ≡ ok true
    → (p : Argon2Params) × (parse_argon2id parsers encoded_hash ≡ ok p)
      × (id_key password p ≡ p.hash)
      × IsBounded p
unfolding verify_password parse_argon2id
verify_password-true parsers id_key encoded_hash password h =
    let (p, parsed, h1) = >>=-eq-ok (parse_argon2id parsers encoded_hash) _ h in
    let equal : same (id_key password p) p.hash ≡ true = ok-injective {E = ConfigError} h1 in
    (
      p,
      parsed,
      same→eq (id_key password p) p.hash equal,
      six_parts-IsBounded parsers (split b'$' encoded_hash) p parsed,
    )
