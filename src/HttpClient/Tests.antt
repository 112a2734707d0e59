-- ===== src/HttpClient/Tests.antt =====
-- URLs and addresses, and the theorems at them.
use forge_lock_free.Base.{
  ℕ, ◌+◌, ◌*◌, ◌^◌, ◌≡◌, refl, true, false, ◌||◌, ◌&&◌, ◌==◌, Option, none, some, [], ◌∷◌, arith,
}
use forge_lock_free.Base.Text.{Text, codes, ◌=?◌}
use forge_lock_free.HttpClient.{
  ok, refused, resolves_private, no_scheme, ipv4, Resolver, Reply, response, parse_url,
  extract_host, split_scheme, is_private_ipv4, is_private_ipv6, check_ssrf, check_all, fetch,
}
use forge_lock_free.HttpClient.Addresses.{in_block, is_private_ipv4-eq, is_private_ipv6-eq}
use forge_lock_free.HttpClient.Url.{Url, print, origin, parse_url-print}

metadata : is_private_ipv4 (169 * 2 ^ 24 + 254 * 2 ^ 16 + 169 * 2 ^ 8 + 254) ≡ true
unfolding is_private_ipv4
metadata = refl

is_private_ipv4-eq_example : is_private_ipv4 0x08080808 ≡ (
    in_block 0x0a000000 24 0x08080808
    || in_block 0xac100000 20 0x08080808
    || in_block 0xc0a80000 16 0x08080808
    || in_block 0x7f000000 24 0x08080808
    || in_block 0xa9fe0000 16 0x08080808
    || in_block 0 24 0x08080808)
is_private_ipv4-eq_example = is_private_ipv4-eq 0x08080808 (omega arith)

-- ::ffff:127.0.0.1.
abbrev mapped : ℕ
mapped = 0xffff7f000001

is_private_ipv6-eq_example : is_private_ipv6 mapped ≡ (
    mapped == 1
    || mapped == 0
    || in_block (0xfe80 * 2 ^ 112) 118 mapped
    || in_block (0xfc00 * 2 ^ 112) 121 mapped
    || (in_block (0xffff * 2 ^ 32) 32 mapped && is_private_ipv4 0x7f000001))
is_private_ipv6-eq_example = is_private_ipv6-eq mapped (omega arith)

hosts :
    (extract_host (codes "http://me@evil@h:80") ≡ codes "evil@h")
    × (extract_host (codes "http://[::1]:80") ≡ codes "::1")
    × (parse_url (codes "no scheme") ≡ refused (no_scheme (codes "no scheme")))
unfolding extract_host parse_url split_scheme
hosts = (refl, refl, refl)

-- A name that resolves to one public and one private address.
abbrev net : Resolver
net = record {
  pton4 = λ h. if_eq h (codes "8.8.8.8") 0x08080808;
  pton6 = λ h. none;
  getaddrinfo = λ h. some (ipv4 0x08080808 ∷ ipv4 0x0a000001 ∷ []);
}
  where
    if_eq : Text → Text → ℕ → Option ℕ
    if_eq h t n = elim (h =? t) [ true ↦ some n | false ↦ none ]

abbrev reply : Text → Text → Reply
reply o p = response 200 (codes "hi") []

rebound :
    fetch net true reply (codes "http://two.example/")
    ≡ refused (resolves_private (codes "two.example"))
unfolding fetch parse_url extract_host split_scheme check_ssrf check_all is_private_ipv4
rebound = refl

-- The user part names a private address; the host is public.
abbrev disguised : Url
disguised = record {
  scheme = codes "http";
  user = some (codes "10.0.0.1");
  host = codes "8.8.8.8";
  port = none;
  path = codes "x";
}

abbrev url : Url
url = record {
  scheme = codes "http";
  user = some (codes "me");
  host = codes "h";
  port = some (codes "80");
  path = codes "v1/x";
}

parse_url-print_example :
    (parse_url (codes "http://me@h:80/v1/x")
      ≡ ok (record { scheme_host_port = codes "http://me@h:80"; path = codes "/v1/x" }))
    × (extract_host (codes "http://me@h:80") ≡ codes "h")
unfolding print origin
parse_url-print_example =
    parse_url-print url (record { scheme = refl; user = refl; host = refl; port = refl })
