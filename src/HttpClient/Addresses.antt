-- ===== src/HttpClient/Addresses.antt =====
-- The tests of private addresses against address blocks.
use forge_lock_free.Base.{ℕ, ◌+◌, ◌*◌, ◌/◌, ◌%◌, ◌^◌, ◌<◌, ◌≡◌, Bool, ◌&&◌, ◌||◌, ◌==◌, arith}
use forge_lock_free.HttpClient.{is_private_ipv4, is_private_ipv6, s6_addr, zero_bytes}

-- Whether an address of `width` bits is in the block of the addresses that agree with `net` in their
-- first `width - free` bits.
abbrev pub in_block : (net free addr : ℕ) → Bool
in_block net free addr = addr / 2 ^ free == net / 2 ^ free

abbrev ipv4 : ℕ → ℕ → ℕ → ℕ → ℕ
ipv4 a b c d = a * 2 ^ 24 + b * 2 ^ 16 + c * 2 ^ 8 + d

-- The test of an IPv4 address says whether it is in one of the blocks 10.0.0.0/8, 172.16.0.0/12,
-- 192.168.0.0/16, 127.0.0.0/8, 169.254.0.0/16 and 0.0.0.0/8.
pub is_private_ipv4-eq :
    (addr : ℕ)
    → addr < 2 ^ 32
    → is_private_ipv4 addr ≡ (
        in_block (ipv4 10 0 0 0) 24 addr
        || in_block (ipv4 172 16 0 0) 20 addr
        || in_block (ipv4 192 168 0 0) 16 addr
        || in_block (ipv4 127 0 0 0) 24 addr
        || in_block (ipv4 169 254 0 0) 16 addr
        || in_block (ipv4 0 0 0 0) 24 addr)
unfolding is_private_ipv4
is_private_ipv4-eq addr h = ground arith

-- Ten bytes of 0 leave the last six.
zero_bytes-ten : (addr : ℕ) → addr < 2 ^ 128 → zero_bytes addr 10 ≡ (addr / 2 ^ 48 == 0)
unfolding zero_bytes s6_addr
zero_bytes-ten addr h = ground arith

mapped :
    (addr : ℕ)
    → addr < 2 ^ 128
    → (zero_bytes addr 10 && s6_addr addr 10 == 0xff && s6_addr addr 11 == 0xff)
      ≡ in_block (0xffff * 2 ^ 32) 32 addr
unfolding s6_addr
mapped addr h = rw (zero_bytes-ten addr h) (ground arith)

link_local :
    (addr : ℕ)
    → addr < 2 ^ 128
    → (s6_addr addr 0 == 0xfe && s6_addr addr 1 / 64 * 64 == 0x80)
      ≡ in_block (0xfe80 * 2 ^ 112) 118 addr
unfolding s6_addr
link_local addr h = ground arith

unique_local :
    (addr : ℕ)
    → addr < 2 ^ 128
    → (s6_addr addr 0 / 2 * 2 == 0xfc) ≡ in_block (0xfc00 * 2 ^ 112) 121 addr
unfolding s6_addr
unique_local addr h = ground arith

-- The test of an IPv6 address says whether it is ::1 or ::, or in one of the blocks fe80::/10 and
-- fc00::/7, or in ::ffff:0:0/96 with a private IPv4 address in its last 32 bits.
pub is_private_ipv6-eq :
    (addr : ℕ)
    → addr < 2 ^ 128
    → is_private_ipv6 addr ≡ (
        addr == 1
        || addr == 0
        || in_block (0xfe80 * 2 ^ 112) 118 addr
        || in_block (0xfc00 * 2 ^ 112) 121 addr
        || (in_block (0xffff * 2 ^ 32) 32 addr && is_private_ipv4 (addr % 2 ^ 32)))
unfolding is_private_ipv6
is_private_ipv6-eq addr h =
    rw (mapped addr h, link_local addr h, unique_local addr h) (ground arith)
