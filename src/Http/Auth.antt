-- ===== src/Http/Auth.antt =====
-- pkg/http/auth.go: `AuthConfig.authenticate` and its middleware. What `r.BasicAuth` reads from the request and the
-- request's `Authorization` header are the fields of a request.
use ocis_ftp_bridge.Prelude.{
  ◌≡◌, ◌≢◌, refl, sym, ap, ◌∙◌, Bool, true, false, ◌&&◌, if◌then◌else◌, Option, none, some, Bytes,
  codes, same, same_iff, same_refl, same→eq, [], ◌++◌, ◌↔◌, inl, inr, Bool-cases, arith,
}
use ocis_ftp_bridge.Go.FilePath.Components.{has_prefix-append}
use ocis_ftp_bridge.Go.Strings.{has_prefix, trim_prefix}

pub data AuthMethod : Type 0 where
  basic : AuthMethod
  bearer : AuthMethod
  other : Bytes → AuthMethod

pub record AuthConfig : Type 0 where
  pub enabled : Bool
  pub method : AuthMethod
  pub username : Bytes
  pub password : Bytes
  pub token : Bytes

pub record Request : Type 0 where
  pub basic_auth : Option (Bytes × Bytes)
  pub authorization : Bytes

abbrev pub bearer_prefix : Bytes
bearer_prefix = codes "Bearer "

unfoldable pub check_basic : AuthConfig → Option (Bytes × Bytes) → Bool
check_basic c none = false
check_basic c (some (user, pass)) = same user c.username && same pass c.password

unfoldable pub check_bearer : AuthConfig → Bytes → Bool
check_bearer c header =
    if has_prefix header bearer_prefix
    then same (trim_prefix header bearer_prefix) c.token
    else false

unfoldable pub authenticate_by : AuthMethod → AuthConfig → Request → Bool
authenticate_by basic c r = if same c.password [] then false else check_basic c r.basic_auth
authenticate_by bearer c r = if same c.token [] then false else check_bearer c r.authorization
authenticate_by (other name) c r = false

unfoldable pub authenticate : AuthConfig → Request → Bool
unfolding authenticate_by
authenticate c r = authenticate_by c.method c r

-- The credentials that a configuration asks for; without a password or a token there are none.
pub data IsCredential (c : AuthConfig) (r : Request) : Type 0 where
  password :
      c.method ≡ basic
      → c.password ≢ []
      → r.basic_auth ≡ some (c.username, c.password)
      → IsCredential c r
  token :
      c.method ≡ bearer
      → c.token ≢ []
      → r.authorization ≡ bearer_prefix ++ c.token
      → IsCredential c r

not_empty : (s : Bytes) → same s [] ≡ false → s ≢ []
not_empty s h e = ground (arith, same_iff s [])

check_basic-eq :
    (c : AuthConfig) (o : Option (Bytes × Bytes))
    → check_basic c o ≡ true
    → o ≡ some (c.username, c.password)
unfolding check_basic
check_basic-eq c none h = cc
check_basic-eq c (some (user, pass)) h =
    let e : user ≡ c.username = same→eq user c.username (ground arith) in
    let f : pass ≡ c.password = same→eq pass c.password (ground arith) in cc

trim_bearer : (t : Bytes) → trim_prefix (bearer_prefix ++ t) bearer_prefix ≡ t
unfolding trim_prefix has_prefix
trim_bearer t = refl

check_bearer-eq :
    (c : AuthConfig) (header : Bytes)
    → check_bearer c header ≡ true
    → header ≡ bearer_prefix ++ c.token
unfolding check_bearer
check_bearer-eq c header h =
    let (t, e) = has_prefix-append header bearer_prefix (ground arith) in
    let is : same (trim_prefix header bearer_prefix) c.token ≡ true = ground arith in
    let eq : trim_prefix header bearer_prefix ≡ c.token =
      same→eq (trim_prefix header bearer_prefix) c.token is in
    let rest : t ≡ c.token =
      sym (trim_bearer t) ∙ (ap (λ x. trim_prefix x bearer_prefix) (sym e) ∙ eq) in
    e ∙ ap (λ x. bearer_prefix ++ x) rest

by_method :
    (m : AuthMethod) (c : AuthConfig) (r : Request)
    → c.method ≡ m
    → authenticate_by m c r ≡ true
    → IsCredential c r
unfolding authenticate_by
by_method basic c r e h = elim (Bool-cases (same c.password [])) [
  | inl p ↦ ground arith
  | inr p ↦ password e (not_empty c.password p) (check_basic-eq c r.basic_auth (ground arith))
]
by_method bearer c r e h = elim (Bool-cases (same c.token [])) [
  | inl p ↦ ground arith
  | inr p ↦ token e (not_empty c.token p) (check_bearer-eq c r.authorization (ground arith))
]
by_method (other name) c r e h = cc

empty_same : (s : Bytes) → s ≢ [] → same s [] ≡ false
empty_same s h = elim (Bool-cases (same s [])) [ inl t ↦ elim (h (same→eq s [] t)) [ ] | inr f ↦ f ]

from_credential : (c : AuthConfig) (r : Request) → IsCredential c r → authenticate c r ≡ true
unfolding authenticate authenticate_by check_basic check_bearer has_prefix
from_credential c r (password m p a) =
    rw (m, authenticate)
      (rw (empty_same c.password p)
        (rw (a, check_basic) (ground (arith, same_refl c.username, same_refl c.password))))
from_credential c r (token m p a) =
    rw (m, authenticate)
      (rw (empty_same c.token p)
        (rw (a, check_bearer) (rw (trim_bearer c.token) (same_refl c.token))))

-- `authenticate` accepts a request if and only if it carries the credentials that the configuration
-- asks for: the user name and a non-empty password, or a non-empty token after "Bearer ".
pub authenticate_iff : (c : AuthConfig) (r : Request) → (authenticate c r ≡ true) ↔ IsCredential c r
unfolding authenticate
authenticate_iff c r = (by_method c.method c r refl, from_credential c r)
