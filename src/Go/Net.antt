-- ===== src/Go/Net.antt =====
-- net.SplitHostPort, as far as `extractClientIP` (pkg/ftp/driver.go) uses it: the host, or an error.
use ocis_ftp_bridge.Prelude.{
  ℕ, ◌≡◌, refl, false, ◌||◌, Option, none, some, [], ◌∷◌, ◌++◌, arith, ◌==◌, if◌then◌else◌, Bytes,
  codes,
}
use ocis_ftp_bridge.Go.Strings.{has_byte}

-- The text before and after the last colon, `none` where there is no colon.
unfoldable pub cut_last_colon : Bytes → Option (Bytes × Bytes)
cut_last_colon [] = none
cut_last_colon (x ∷ s) = elim (cut_last_colon s) [
  | some (a, b) ↦ some (x ∷ a, b)
  | none ↦ if x == b':' then some ([], s) else none
]

-- The text before and after the first `]`.
unfoldable pub cut_bracket : Bytes → Option (Bytes × Bytes)
cut_bracket [] = none
cut_bracket (x ∷ s) =
    if x == b']'
    then some ([], s)
    else (elim (cut_bracket s) [ some (a, b) ↦ some (x ∷ a, b) | none ↦ none ])

-- `[host]:port`, the opening bracket taken off: what follows the bracket must be the last colon.
unfoldable pub bracketed_host : Bytes → Option Bytes
unfolding cut_bracket has_byte
bracketed_host s = elim (cut_bracket s) [
  | none ↦ none
  | some (host, rest) ↦ elim rest [
    | [] ↦ none
    | c ∷ port ↦
        if c == b':'
        then (if has_byte b':' port
              || has_byte b'[' host
              || has_byte b'[' port
              || has_byte b']' port
            then none
            else some host)
        else none
  ]
]

-- `host:port` with no bracket in front.
unfoldable pub plain_host : Bytes → Option Bytes
unfolding cut_last_colon has_byte
plain_host s = elim (cut_last_colon s) [
  | none ↦ none
  | some (host, port) ↦
      if has_byte b':' host || has_byte b'[' s || has_byte b']' s then none else some host
]

unfoldable pub split_host_port : Bytes → Option Bytes
unfolding bracketed_host plain_host
split_host_port [] = none
split_host_port (c ∷ s) = if c == b'[' then bracketed_host s else plain_host (c ∷ s)

test_ipv4 : split_host_port (codes "192.168.1.1:12345") ≡ some (codes "192.168.1.1")
unfolding split_host_port
test_ipv4 = refl

test_ipv6 : split_host_port (codes "[::1]:21") ≡ some (codes "::1")
unfolding split_host_port
test_ipv6 = refl

test_no_port : split_host_port (codes "10.0.0.1") ≡ none
unfolding split_host_port
test_no_port = refl

-- Nothing of a text is a byte that the address syntax reserves.
abbrev pub Plain : Bytes → Type 0
Plain s = (has_byte b':' s ≡ false) × (has_byte b'[' s ≡ false) × (has_byte b']' s ≡ false)

pub has_byte-append : (c : ℕ) (s t : Bytes) → has_byte c (s ++ t) ≡ (has_byte c s || has_byte c t)
unfolding has_byte
has_byte-append c [] t = refl
has_byte-append c (x ∷ s) t = ground (arith, has_byte-append c s t)

cut_last_colon_absent : (s : Bytes) → has_byte b':' s ≡ false → cut_last_colon s ≡ none
unfolding cut_last_colon has_byte
cut_last_colon_absent [] h = refl
cut_last_colon_absent (x ∷ s) h = ground (arith, cut_last_colon_absent s)

cut_last_colon-append :
    (host port : Bytes)
    → has_byte b':' port ≡ false
    → cut_last_colon (host ++ b':' ∷ port) ≡ some (host, port)
unfolding cut_last_colon
cut_last_colon-append [] port h = rw (cut_last_colon_absent port h)
cut_last_colon-append (x ∷ host) port h = rw (cut_last_colon-append host port h)

plain_host-append :
    (host port : Bytes) → Plain host → Plain port → plain_host (host ++ b':' ∷ port) ≡ some host
unfolding plain_host
plain_host-append host port (h1, h2, h3) (p1, p2, p3) =
    rw (cut_last_colon-append host port p1, plain_host)
      (rw
        (
          h1,
          has_byte-append b'[' host (b':' ∷ port),
          h2,
          has_byte-append b']' host (b':' ∷ port),
          h3,
        )
        (unfold has_byte in ground arith))

-- A plain `host:port` splits into its host.
pub split_host_port-append :
    (host port : Bytes)
    → Plain host
    → Plain port
    → split_host_port (host ++ b':' ∷ port) ≡ some host
unfolding split_host_port
split_host_port-append [] port h p = plain_host-append [] port h p
split_host_port-append (c ∷ host) port h p =
    let open_absent : (c == b'[') ≡ false = unfold has_byte in ground (arith, h.1) in
    rw open_absent (plain_host-append (c ∷ host) port h p)
