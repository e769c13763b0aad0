-- ===== src/Config/Certificates.antt =====
-- pkg/config/config.go: `ValidateTLSConfig`. The file system, the loading of a key pair, the parsing of
-- its certificate and the clock are parameters.
use ocis_ftp_bridge.Prelude.{
  ℕ, ◌≤◌, ◌≡◌, arith, Bool, true, ◌||◌, not, ltb, Option, none, some, Bytes, codes, same, Result,
  ok, err, refuse, ◌>>=◌, ◌>>◌, >>=-eq-ok, refuse-eq-ok, if◌then◌else◌,
}
use ocis_ftp_bridge.Go.Spaces.{is_blank}
use ocis_ftp_bridge.Config.Types.{TlsConfig}

pub data CertificateError : Type 0 where
  cert_required key_required cert_missing key_missing pair_unreadable cert_unreadable :
      CertificateError
  expired not_yet_valid rsa_too_weak curve_unsupported key_unsupported : CertificateError

-- An RSA key with the length of its modulus, an ECDSA key with the name of its curve.
pub data PublicKey : Type 0 where
  rsa : ℕ → PublicKey
  ecdsa : Bytes → PublicKey
  ed25519 : PublicKey
  other_key : PublicKey

pub record Certificate : Type 0 where
  pub not_before : ℕ
  pub not_after : ℕ
  pub public_key : PublicKey

-- `missing` is `os.Stat` with a file that does not exist, `load` is `tls.LoadX509KeyPair`, and `parse`
-- is `x509.ParseCertificate` on what it gives.
pub record CertificateFiles : Type 0 where
  pub missing : Bytes → Bool
  pub load : Bytes → Bytes → Option Bytes
  pub parse : Bytes → Option Certificate

abbrev pub is_curve : Bytes → Bool
is_curve name =
    same name (codes "P-256") || (same name (codes "P-384") || same name (codes "P-521"))

unfoldable pub check_key : PublicKey → Result CertificateError (Unit {0})
check_key (rsa bits) = refuse (ltb bits 2048) rsa_too_weak
check_key (ecdsa curve) = refuse (not (is_curve curve)) curve_unsupported
check_key ed25519 = ok tt
check_key other_key = err key_unsupported

abbrev pub given : {A : Type 0} → CertificateError → Option A → Result CertificateError A
given e none = err e
given e (some a) = ok a

unfoldable pub check_certificate : ℕ → Certificate → Result CertificateError (Unit {0})
unfolding check_key
check_certificate now c = do
  refuse (ltb c.not_after now) expired
  refuse (ltb now c.not_before) not_yet_valid
  check_key c.public_key

unfoldable pub check_files : CertificateFiles → ℕ → TlsConfig → Result CertificateError (Unit {0})
unfolding check_certificate
check_files files now tls = do
  refuse (is_blank tls.cert) cert_required
  refuse (is_blank tls.key) key_required
  refuse (files.missing tls.cert) cert_missing
  refuse (files.missing tls.key) key_missing
  pair ← given pair_unreadable (files.load tls.cert tls.key)
  certificate ← given cert_unreadable (files.parse pair)
  check_certificate now certificate

unfoldable pub validate_tls_config :
    CertificateFiles → ℕ → TlsConfig → Result CertificateError (Unit {0})
unfolding check_files
validate_tls_config files now tls = if not tls.enabled then ok tt else check_files files now tls

-- A key that is strong enough.
abbrev pub IsStrong : PublicKey → Type 0
IsStrong (rsa bits) = 2048 ≤ bits
IsStrong (ecdsa curve) = is_curve curve ≡ true
IsStrong ed25519 = Unit
IsStrong other_key = ⊥

check_key-IsStrong : (k : PublicKey) → check_key k ≡ ok tt → IsStrong k
unfolding check_key
check_key-IsStrong (rsa bits) h = ground arith
check_key-IsStrong (ecdsa curve) h = ground arith
check_key-IsStrong ed25519 h = tt
check_key-IsStrong other_key h = cc

-- When TLS is enabled and the files pass, they hold a certificate that is valid now and whose key is
-- strong enough: RSA of at least 2048 bits, one of three curves of ECDSA, or Ed25519.
pub validate_tls_config-IsStrong :
    (files : CertificateFiles) (now : ℕ) (tls : TlsConfig)
    → tls.enabled ≡ true
    → validate_tls_config files now tls ≡ ok tt
    → (pair : Bytes) × (c : Certificate) × (files.load tls.cert tls.key ≡ some pair)
      × (files.parse pair ≡ some c)
      × (c.not_before ≤ now)
      × (now ≤ c.not_after)
      × IsStrong c.public_key
unfolding validate_tls_config check_files check_certificate
validate_tls_config-IsStrong files now tls enabled h =
    let h0 : check_files files now tls ≡ ok tt = ground (arith, enabled) in
    let (e1, h1) = refuse-eq-ok (is_blank tls.cert) cert_required _ h0 in
    let (e2, h2) = refuse-eq-ok (is_blank tls.key) key_required _ h1 in
    let (e3, h3) = refuse-eq-ok (files.missing tls.cert) cert_missing _ h2 in
    let (e4, h4) = refuse-eq-ok (files.missing tls.key) key_missing _ h3 in
    let (pair, s5, h5) = >>=-eq-ok (given pair_unreadable (files.load tls.cert tls.key)) _ h4 in
    let (c, s6, h6) = >>=-eq-ok (given cert_unreadable (files.parse pair)) _ h5 in
    let (e7, h7) = refuse-eq-ok (ltb c.not_after now) expired _ h6 in
    let (e8, h8) = refuse-eq-ok (ltb now c.not_before) not_yet_valid _ h7 in
    (
      pair,
      c,
      ground (arith, s5),
      ground (arith, s6),
      ground (arith, e8),
      ground (arith, e7),
      check_key-IsStrong c.public_key h8,
    )
