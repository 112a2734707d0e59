-- ===== src/HttpClient/Url.antt =====
-- URLs put together and taken apart.
use forge_lock_free.Base.{
  ℕ, ◌≡◌, refl, ◌∙◌, ap, Bool, true, false, ◌||◌, Option, none, some, [], ◌∷◌, ◌++◌, append-nil,
  ◌==◌, arith,
}
use forge_lock_free.Base.Text.{
  Text, codes, before, from, from-append, from_none, none_of, none_of-append,
}
use forge_lock_free.HttpClient.{
  ok, split_scheme, is_slash, is_at, is_colon, parse_url, strip_userinfo, host_part, extract_host,
}

-- A URL in parts: `user@` and `:port` may be missing.
pub record Url : Type 0 where
  pub scheme : Text
  pub user : Option Text
  pub host : Text
  pub port : Option Text
  pub path : Text

unfoldable pub with_user : Option Text → Text → Text
with_user none s = s
with_user (some u) s = u ++ b'@' ∷ s

unfoldable pub port_part : Option Text → Text
port_part none = []
port_part (some p) = b':' ∷ p

unfoldable pub authority : Url → Text
unfolding with_user port_part
authority u = with_user u.user (u.host ++ port_part u.port)

unfoldable pub origin : Url → Text
unfolding authority
origin u = u.scheme ++ (codes "://" ++ authority u)

unfoldable pub print : Url → Text
unfolding origin
print u = u.scheme ++ (codes "://" ++ (authority u ++ b'/' ∷ u.path))

-- What delimits the parts of an authority.
abbrev delimits : ℕ → Bool
delimits c = c == b'/' || c == b'@' || c == b':' || c == b'['

abbrev AllOfOption : (Text → Type 0) → Option Text → Type 0
AllOfOption P none = Unit {0}
AllOfOption P (some t) = P t

-- No part has a delimiter, and the host is not empty.
pub record IsPlain (u : Url) : Type 0 where
  pub scheme : none_of is_colon u.scheme ≡ true
  pub user : AllOfOption (λ t. none_of delimits t ≡ true) u.user
  pub host : none_of delimits u.host ≡ true
  pub port : AllOfOption (λ t. none_of delimits t ≡ true) u.port

split_scheme-cons :
    (c : ℕ) (s : Text)
    → (c == b':') ≡ false
    → split_scheme (c ∷ s) ≡ elim (split_scheme s) [ none ↦ none | some (a, r) ↦ some (c ∷ a, r) ]
unfolding split_scheme
split_scheme-cons c [] h = refl
split_scheme-cons c (d ∷ []) h = refl
split_scheme-cons c (d ∷ e ∷ s) h = rw h refl

split_scheme-append :
    (s r : Text) → none_of is_colon s ≡ true → split_scheme (s ++ (codes "://" ++ r)) ≡ some (s, r)
split_scheme-append [] r h = unfold split_scheme in refl
split_scheme-append (c ∷ s) r h =
    ground (arith, split_scheme-cons c (s ++ (codes "://" ++ r)), split_scheme-append s r)

none_of-weaken :
    (p q : ℕ → Bool) (s : Text)
    → ((c : ℕ) → q c ≡ false → p c ≡ false)
    → none_of q s ≡ true
    → none_of p s ≡ true
none_of-weaken p q [] w h = refl
none_of-weaken p q (c ∷ s) w h = ground (arith, w c, none_of-weaken p q s w)

plain-no_slash : (s : Text) → none_of delimits s ≡ true → none_of is_slash s ≡ true
plain-no_slash s = none_of-weaken is_slash delimits s (λ c h. ground arith)

plain-no_at : (s : Text) → none_of delimits s ≡ true → none_of is_at s ≡ true
plain-no_at s = none_of-weaken is_at delimits s (λ c h. ground arith)

plain-no_colon : (s : Text) → none_of delimits s ≡ true → none_of is_colon s ≡ true
plain-no_colon s = none_of-weaken is_colon delimits s (λ c h. ground arith)

-- A host with its port keeps off what neither the host nor the port has.
none_of-host_port :
    (p : ℕ → Bool) (host : Text) (port : Option Text)
    → p b':' ≡ false
    → none_of p host ≡ true
    → AllOfOption (λ t. none_of p t ≡ true) port
    → none_of p (host ++ port_part port) ≡ true
unfolding port_part
none_of-host_port p host none k h g = none_of-append p host [] ∙ (ground (arith, h))
none_of-host_port p host (some t) k h g =
    none_of-append p host (b':' ∷ t) ∙ (ground (arith, h, k, g))

map_option :
    (P Q : Text → Type 0) (o : Option Text)
    → ((t : Text) → P t → Q t)
    → AllOfOption P o
    → AllOfOption Q o
map_option P Q none f h = tt
map_option P Q (some t) f h = f t h

authority-no_slash : (u : Url) → IsPlain u → none_of is_slash (authority u) ≡ true
unfolding authority
authority-no_slash u h = go u.user h.user (
    none_of-host_port is_slash u.host u.port refl (plain-no_slash u.host h.host)
      (map_option _ _ u.port plain-no_slash h.port))
  where
    go :
        (o : Option Text)
        → AllOfOption (λ t. none_of delimits t ≡ true) o
        → none_of is_slash (u.host ++ port_part u.port) ≡ true
        → none_of is_slash (with_user o (u.host ++ port_part u.port)) ≡ true
    go none g k = k
    go (some t) g k =
        none_of-append is_slash t (b'@' ∷ (u.host ++ port_part u.port))
        ∙ (ground (arith, k, plain-no_slash t g))

host_part-plain :
    (c : ℕ) (s : Text) → (c == b'[') ≡ false → host_part (c ∷ s) ≡ before is_colon (c ∷ s)
unfolding host_part
host_part-plain c s h = rw h refl

host_part-host_port :
    (host : Text) (port : Option Text)
    → none_of delimits host ≡ true
    → host_part (host ++ port_part port) ≡ host
unfolding host_part port_part
host_part-host_port [] none h = refl
host_part-host_port [] (some t) h = ground arith
host_part-host_port (c ∷ s) none h =
    ap host_part (append-nil (c ∷ s))
    ∙ host_part-plain c s (ground arith)
    ∙ (from_none is_colon (c ∷ s) (plain-no_colon (c ∷ s) h)).1
host_part-host_port (c ∷ s) (some t) h =
    host_part-plain c (s ++ b':' ∷ t) (ground arith)
    ∙ (from-append is_colon (c ∷ s) b':' t (plain-no_colon (c ∷ s) h) refl).1

strip_userinfo-with_user :
    (o : Option Text) (rest : Text)
    → AllOfOption (λ t. none_of delimits t ≡ true) o
    → none_of is_at rest ≡ true
    → strip_userinfo (with_user o rest) ≡ rest
unfolding strip_userinfo with_user
strip_userinfo-with_user none rest g h = rw (strip_userinfo, (from_none is_at rest h).0) refl
strip_userinfo-with_user (some t) rest g h =
    rw (strip_userinfo, (from-append is_at t b'@' rest (plain-no_at t g) refl).0) refl

parse_url-split :
    (url scheme rest : Text) (c : ℕ) (p : Text)
    → split_scheme url ≡ some (scheme, rest)
    → from is_slash rest ≡ c ∷ p
    → parse_url url
      ≡ ok (record {
        scheme_host_port = scheme ++ (codes "://" ++ before is_slash rest);
        path = c ∷ p;
      })
unfolding parse_url
parse_url-split url scheme rest c p h k = rw (parse_url, h, k) refl

extract_host-split :
    (shp scheme rest : Text)
    → split_scheme shp ≡ some (scheme, rest)
    → extract_host shp ≡ host_part (strip_userinfo rest)
unfolding extract_host
extract_host-split shp scheme rest h = rw (extract_host, h) refl

-- A URL put together from a scheme, a user or none, a host, a port or none, and a path, none of them
-- with a delimiter, is taken apart into its origin and its path; and the host that the guard looks at
-- is the host, whatever the user.
pub parse_url-print :
    (u : Url)
    → IsPlain u
    → (parse_url (print u) ≡ ok (record { scheme_host_port = origin u; path = b'/' ∷ u.path }))
      × (extract_host (origin u) ≡ u.host)
unfolding print origin authority
parse_url-print u h =
    let (f, b) = from-append is_slash (authority u) b'/' u.path (authority-no_slash u h) refl in
    (
      parse_url-split (print u) u.scheme (authority u ++ b'/' ∷ u.path) b'/' u.path
            (split_scheme-append u.scheme (authority u ++ b'/' ∷ u.path) h.scheme) f
          ∙ ap
              (λ a. ok (record {
                scheme_host_port = u.scheme ++ (codes "://" ++ a);
                path = b'/' ∷ u.path;
              }))
              b,
      extract_host-split (origin u) u.scheme (authority u)
            (split_scheme-append u.scheme (authority u) h.scheme)
          ∙ ap host_part (
              strip_userinfo-with_user u.user (u.host ++ port_part u.port) h.user (
                none_of-host_port is_at u.host u.port refl (plain-no_at u.host h.host)
                  (map_option _ _ u.port plain-no_at h.port)))
          ∙ host_part-host_port u.host u.port h.host,
    )
