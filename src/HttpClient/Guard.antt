-- ===== src/HttpClient/Guard.antt =====
-- What passes the guard against private addresses.
use forge_lock_free.Base.{◌≡◌, false, Option, none, some, List, [], ◌∷◌, All}
use forge_lock_free.Base.Text.{Text}
use forge_lock_free.HttpClient.{
  is_private_ipv4, is_private_ipv6, Address, ipv4, ipv6, other_family, Resolver,
}
use forge_lock_free.HttpClient.Url.{Url}

-- The addresses that a connection to a host may reach: that of a literal, or those of a name.
abbrev pub reaches : Resolver → Text → Option (List Address)
reaches net host = elim (net.pton4 host) [
  | some n ↦ some (ipv4 n ∷ [])
  | none ↦ elim (net.pton6 host) [ some n ↦ some (ipv6 n ∷ []) | none ↦ net.getaddrinfo host ]
]

abbrev pub IsPublic : Address → Type 0
IsPublic (ipv4 n) = is_private_ipv4 n ≡ false
IsPublic (ipv6 n) = is_private_ipv6 n ≡ false
IsPublic other_family = Unit

-- The host is known, and all that it reaches is public.
abbrev pub Safe : Resolver → Text → Type 0
Safe net host = (xs : List Address) × (reaches net host ≡ some xs) × All IsPublic xs
