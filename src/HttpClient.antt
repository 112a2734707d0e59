-- ===== src/HttpClient.antt =====
-- The part of src/core/async_http_client.h that is not httplib's: the URL, the guard against private
-- addresses, and `get` and `post` as they run on the pool. Texts are lists of character codes, an
-- address is the number of its bits. The resolver and httplib are parameters.
pub mod Addresses
pub mod Url
pub mod Guard
mod Tests
use forge_lock_free.Base.{
  ℕ, zero, suc, ◌+◌, ◌-◌, ◌*◌, ◌/◌, ◌%◌, ◌^◌, Bool, true, false, not, ◌&&◌, ◌||◌, Option, none,
  some, List, [], ◌∷◌, ◌++◌, leb, ◌==◌, if◌then◌else◌,
}
use forge_lock_free.Base.Text.{Text, codes, ◌=?◌, before, from}

-- The exceptions of `parse_url` and `check_ssrf`, all `std::invalid_argument`.
pub data Refusal : Type 0 where
  no_scheme : (url : Text) → Refusal
  empty_host : Refusal
  private_ip private_ipv6 unresolved resolves_private resolves_private_ipv6 :
      (host : Text) → Refusal

pub data Result (A : Type 0) : Type 0 where
  ok : A → Result A
  refused : Refusal → Result A

pub record UrlParts : Type 0 where
  pub scheme_host_port : Text
  pub path : Text

-- `find("://")`: what stands before it, and what stands after it.
unfoldable pub split_scheme : Text → Option (Text × Text)
split_scheme [] = none
split_scheme (c ∷ []) = none
split_scheme (c ∷ d ∷ []) = none
split_scheme (c ∷ d ∷ e ∷ s) =
    if c == b':' && d == b'/' && e == b'/'
    then some ([], s)
    else elim (split_scheme (d ∷ e ∷ s)) [ none ↦ none | some (a, r) ↦ some (c ∷ a, r) ]

abbrev pub is_slash : ℕ → Bool
is_slash c = c == b'/'

abbrev pub is_at : ℕ → Bool
is_at c = c == b'@'

abbrev pub is_colon : ℕ → Bool
is_colon c = c == b':'

abbrev pub is_close : ℕ → Bool
is_close c = c == b']'

unfoldable pub parse_url : Text → Result UrlParts
parse_url url = elim (split_scheme url) [
  | none ↦ refused (no_scheme url)
  | some (scheme, rest) ↦ elim (from is_slash rest) [
    | [] ↦ ok (record { scheme_host_port = url; path = b'/' ∷ [] })
    | c ∷ p ↦ ok (record {
      scheme_host_port = scheme ++ (codes "://" ++ before is_slash rest);
      path = c ∷ p;
    })
  ]
]

-- Without anything up to the first `@`.
unfoldable pub strip_userinfo : Text → Text
strip_userinfo rest = elim (from is_at rest) [ [] ↦ rest | c ∷ s ↦ s ]

-- What stands in the brackets at its front, or else before the first colon.
unfoldable pub host_part : Text → Text
host_part [] = []
host_part (c ∷ s) =
    if c == b'['
    then elim (from is_close s) [ [] ↦ before is_colon (c ∷ s) | d ∷ r ↦ before is_close s ]
    else before is_colon (c ∷ s)

unfoldable pub extract_host : Text → Text
unfolding strip_userinfo host_part
extract_host shp = elim (split_scheme shp) [
  | none ↦ host_part (strip_userinfo shp)
  | some (scheme, rest) ↦ host_part (strip_userinfo rest)
]

-- `(addr >> 24) & 0xFF` and `(addr >> 16) & 0xFF` of the address in host order.
unfoldable pub is_private_ipv4 : ℕ → Bool
is_private_ipv4 addr =
    let a = addr / 2 ^ 24 % 256 in
    let b = addr / 2 ^ 16 % 256 in
    if a == 10
    then true
    else if a == 172 && leb 16 b && leb b 31
    then true
    else if a == 192 && b == 168
    then true
    else if a == 127
    then true
    else if a == 169 && b == 254
    then true
    else a == 0

-- `s6_addr[i]`.
unfoldable pub s6_addr : ℕ → ℕ → ℕ
s6_addr addr i = addr / 2 ^ (8 * (15 - i)) % 256

-- The loop of the test for mapped addresses: whether the bytes before number `n` are 0.
unfoldable pub zero_bytes : ℕ → ℕ → Bool
unfolding s6_addr
zero_bytes addr zero = true
zero_bytes addr (suc n) = zero_bytes addr n && s6_addr addr n == 0

-- `x & 0xc0` and `x & 0xfe` of a byte keep its first 2 and its first 7 bits.
unfoldable pub is_private_ipv6 : ℕ → Bool
unfolding s6_addr zero_bytes is_private_ipv4
is_private_ipv6 addr =
    if addr == 1
    then true
    else if addr == 0
    then true
    else if s6_addr addr 0 == 0xfe && s6_addr addr 1 / 64 * 64 == 0x80
    then true
    else if s6_addr addr 0 / 2 * 2 == 0xfc
    then true
    else if zero_bytes addr 10 && s6_addr addr 10 == 0xff && s6_addr addr 11 == 0xff
    then is_private_ipv4 (addr % 2 ^ 32)
    else false

-- What `getaddrinfo` lists.
pub data Address : Type 0 where
  ipv4 ipv6 : ℕ → Address
  other_family : Address

-- `inet_pton` for both families, and `getaddrinfo`.
pub record Resolver : Type 0 where
  pub pton4 : Text → Option ℕ
  pub pton6 : Text → Option ℕ
  pub getaddrinfo : Text → Option (List Address)

-- The loop over the addresses that a name resolves to.
unfoldable pub check_all : Text → List Address → Result (Unit {0})
check_all host [] = ok tt
check_all host (ipv4 n ∷ xs) =
    if is_private_ipv4 n then refused (resolves_private host) else check_all host xs
check_all host (ipv6 n ∷ xs) =
    if is_private_ipv6 n then refused (resolves_private_ipv6 host) else check_all host xs
check_all host (other_family ∷ xs) = check_all host xs

unfoldable pub check_ssrf : Resolver → Text → Result (Unit {0})
check_ssrf net [] = refused empty_host
check_ssrf net (c ∷ s) = elim (net.pton4 (c ∷ s)) [
  | some n ↦ if is_private_ipv4 n then refused (private_ip (c ∷ s)) else ok tt
  | none ↦ elim (net.pton6 (c ∷ s)) [
    | some n ↦ if is_private_ipv6 n then refused (private_ipv6 (c ∷ s)) else ok tt
    | none ↦ elim (net.getaddrinfo (c ∷ s)) [
      | none ↦ refused (unresolved (c ∷ s))
      | some xs ↦ check_all (c ∷ s) xs
    ]
  ]
]

pub record HttpResponse : Type 0 where
  pub status : ℕ
  pub body : Text
  pub headers : List (Text × Text)
  pub error : Text

-- What httplib gives: a response, or the text of its error.
pub data Reply : Type 0 where
  response : (status : ℕ) (body : Text) (headers : List (Text × Text)) → Reply
  failure : Text → Reply

-- `resp.headers[k] = v`.
unfoldable pub set_header : Text → Text → List (Text × Text) → List (Text × Text)
set_header k v [] = (k, v) ∷ []
set_header k v ((j, u) ∷ hs) = if j =? k then (k, v) ∷ hs else (j, u) ∷ set_header k v hs

unfoldable pub set_headers : List (Text × Text) → List (Text × Text) → List (Text × Text)
unfolding set_header
set_headers [] hs = hs
set_headers ((k, v) ∷ more) hs = set_headers more (set_header k v hs)

unfoldable pub to_response : Reply → HttpResponse
unfolding set_headers
to_response (response st b hs) = record {
  status = st;
  body = b;
  headers = set_headers hs [];
  error = [];
}
to_response (failure e) = record { status = 0; body = []; headers = []; error = e }

-- The task of `get`, and that of `post`: `send` is httplib's call at an origin and a path.
unfoldable pub fetch :
    Resolver → (block : Bool) → (send : Text → Text → Reply) → Text → Result HttpResponse
unfolding to_response
fetch net block send url = elim (parse_url url) [
  | refused e ↦ refused e
  | ok parts ↦
      elim (if block then check_ssrf net (extract_host parts.scheme_host_port) else ok tt) [
        | refused e ↦ refused e
        | ok u ↦ ok (to_response (send parts.scheme_host_port parts.path))
      ]
]
