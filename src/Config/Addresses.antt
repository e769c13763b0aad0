-- ===== src/Config/Addresses.antt =====
-- pkg/config/config.go: `validateServerListenAddress`, `isValidHostname`, `validatePassive` and
-- `validateOCIS`. `is_ip` stands for a success of `net.ParseIP`, and `parse_url` for `url.Parse`, with
-- the scheme and the host.
use ocis_ftp_bridge.Prelude.{
  ℕ, Bool, true, false, ◌&&◌, ◌||◌, not, ltb, leb, ◌==◌, Option, none, some, Bytes, codes, same,
  length, List, [], ◌∷◌, ◌++◌, Result, ok, err, refuse, ◌>>=◌, ◌>>◌, if◌then◌else◌, ◌≡◌, refl,
}
use ocis_ftp_bridge.Prelude.Int.{ℤ, pos, negsuc}
use ocis_ftp_bridge.Go.Strings.{has_prefix, has_byte, split, trim_right}
use ocis_ftp_bridge.Go.Net.{split_host_port, cut_last_colon}
use ocis_ftp_bridge.Go.Spaces.{trim_space, is_blank, atoi}
use ocis_ftp_bridge.Config.Types.{
  PassiveConfig, OcisConfig, ConfigError, listen_required, address_format, port_required,
  port_invalid, port_range, hostname_invalid, passive_range, public_ip_invalid, ocis_url_invalid,
  graph_url_invalid, webdav_url_invalid,
}

abbrev pub is_label_byte : ℕ → Bool
is_label_byte r =
    (leb b'a' r && leb r b'z')
    || ((leb b'A' r && leb r b'Z') || ((leb b'0' r && leb r b'9') || r == b'-'))

unfoldable pub all_bytes : (ℕ → Bool) → Bytes → Bool
all_bytes p [] = true
all_bytes p (x ∷ s) = let rest = all_bytes p s in p x && rest

unfoldable pub ends_in_dash : Bytes → Bool
ends_in_dash [] = false
ends_in_dash (x ∷ []) = x == b'-'
ends_in_dash (x ∷ y ∷ s) = ends_in_dash (y ∷ s)

unfoldable pub is_label : Bytes → Bool
unfolding all_bytes ends_in_dash has_prefix
is_label label =
    not (length label == 0 || ltb 63 (length label))
    && (not (has_prefix label (codes "-") || ends_in_dash label) && all_bytes is_label_byte label)

unfoldable pub all_labels : List Bytes → Bool
unfolding is_label
all_labels [] = true
all_labels (label ∷ more) = let rest = all_labels more in is_label label && rest

unfoldable pub is_valid_hostname : Bytes → Bool
unfolding all_labels split
is_valid_hostname hostname = not (ltb 253 (length hostname)) && all_labels (split b'.' hostname)

-- A host with its port, `none` for the error of `net.SplitHostPort`.
unfoldable pub host_and_port : Bytes → Option (Bytes × Bytes)
unfolding split_host_port cut_last_colon
host_and_port addr = elim (split_host_port addr) [
  | none ↦ none
  | some host ↦ elim (cut_last_colon addr) [ none ↦ none | some (before, port) ↦ some (host, port) ]
]

-- An address that does not split may still begin with its port.
unfoldable pub split_listen : Bytes → Result ConfigError (Bytes × Bytes)
unfolding host_and_port
split_listen [] = err address_format
split_listen (c ∷ rest) = elim (host_and_port (c ∷ rest)) [
  | some parts ↦ ok parts
  | none ↦ if c == b':' then ok ([], rest) else err address_format
]

unfoldable pub check_port : Bytes → Result ConfigError (Unit {0})
unfolding atoi
check_port port = elim (atoi port) [
  | none ↦ err port_invalid
  | some n ↦ refuse (ltb n 1 || ltb 65535 n) port_range
]

-- The text before the first `%`.
unfoldable pub without_zone : Bytes → Bytes
without_zone [] = []
without_zone (x ∷ s) = let rest = without_zone s in if x == b'%' then [] else x ∷ rest

abbrev pub any_host : Bytes → Bool
any_host host =
    same host []
    || (same host (codes "0.0.0.0") || (same host (codes "::") || same host (codes "*")))

unfoldable pub validate_server_listen_address :
    (Bytes → Bool) → Bytes → Result ConfigError (Unit {0})
unfolding split_listen check_port without_zone is_valid_hostname
validate_server_listen_address is_ip listen = do
  let addr = trim_space listen
  refuse (same addr []) listen_required
  refuse (not (has_byte b':' addr)) address_format
  parts ← split_listen addr
  refuse (same parts.1 []) port_required
  check_port parts.1
  refuse
      (not (any_host parts.0)
        && (not (is_ip (without_zone parts.0)) && not (is_valid_hostname parts.0)))
      hostname_invalid

abbrev pub is_port : ℤ → Bool
is_port (pos n) = leb 1 n && leb n 65535
is_port (negsuc n) = false

abbrev pub exceeds : ℤ → ℤ → Bool
exceeds (pos a) (pos b) = ltb b a
exceeds (pos a) (negsuc b) = true
exceeds (negsuc a) (pos b) = false
exceeds (negsuc a) (negsuc b) = ltb a b

unfoldable pub validate_passive : (Bytes → Bool) → PassiveConfig → Result ConfigError (Unit {0})
validate_passive is_ip p = do
  refuse (not (is_port p.min_port) || (not (is_port p.max_port) || exceeds p.min_port p.max_port))
      passive_range
  refuse (not (same p.public_ip []) && not (is_ip p.public_ip)) public_ip_invalid

-- An absolute URL of HTTP.
unfoldable pub is_http_url : (Bytes → Option (Bytes × Bytes)) → Bytes → Bool
is_http_url parse_url raw = elim (parse_url raw) [
  | none ↦ false
  | some (scheme, host) ↦
      not (same host []) && (same scheme (codes "http") || same scheme (codes "https"))
]

abbrev pub is_slash : ℕ → Bool
is_slash c = c == b'/'

abbrev pub or_default : Bytes → Bytes → Bytes
or_default [] text = text
or_default (c ∷ s) text = c ∷ s

-- The URLs that are not set are derived from the base URL.
unfoldable pub derive_urls : OcisConfig → OcisConfig
derive_urls o =
    let base = trim_right is_slash o.url in
    record o {
      graph_url = or_default o.graph_url (base ++ codes "/graph/v1.0");
      webdav_url = or_default o.webdav_url (base ++ codes "/webdav");
    }

unfoldable pub validate_ocis :
    (Bytes → Option (Bytes × Bytes)) → OcisConfig → Result ConfigError OcisConfig
unfolding is_http_url derive_urls
validate_ocis parse_url o = do
  refuse (not (is_blank o.url) && not (is_http_url parse_url o.url)) ocis_url_invalid
  let set = if is_blank o.url then o else derive_urls o
  refuse (not (is_http_url parse_url set.graph_url)) graph_url_invalid
  refuse (not (is_http_url parse_url set.webdav_url)) webdav_url_invalid
  ok set

hostname_test : is_valid_hostname (codes "ftp-1.example.org") ≡ true
unfolding is_valid_hostname
hostname_test = refl

listen_test : validate_server_listen_address (λ s. false) (codes ":2121") ≡ ok tt
unfolding validate_server_listen_address trim_space has_byte
listen_test = refl
