-- ===== src/Ipam.antt =====
-- internal/fastlet/network/ipam.go: the allocator of private IPv4 addresses.
--
-- An IPv4 address is its number, a masked prefix of `net/netip` the interval of its addresses. `used`
-- says of an address whether its text is in the caller's set; results are the address and the prefix
-- length that the source prints.
pub mod Allocation
use Prim.Native.Nat.{◌%◌, ◌^◌}
use fast_sandbox.Base.{
  ℕ, zero, suc, ◌+◌, ◌-◌, Bool, true, false, not, ◌&&◌, ◌||◌, Option, none, some, ltb, leb, ◌==◌,
  nat_equality, if◌then◌else◌,
}

-- What `netip.ParsePrefix` returns.
pub record Prefix : Type 0 where
  pub is4 : Bool
  pub address : ℕ
  pub bits : ℕ

pub record Ipam : Type 0 where
  pub base : ℕ
  pub prefix_bits : ℕ
  pub gateway : ℕ
  pub guest : Option ℕ

abbrev pub size_of : ℕ → ℕ
size_of bits = 2 ^ (32 - bits)

-- The first address behind the prefix.
abbrev pub limit : Ipam → ℕ
limit i = i.base + size_of i.prefix_bits

abbrev pub prefix_contains : Ipam → ℕ → Bool
prefix_contains i a = leb i.base a && ltb a (limit i)

abbrev pub without_guest : Prefix → Ipam
without_guest p =
    let base = p.address - p.address % size_of p.bits in
    record { base = base; prefix_bits = p.bits; gateway = base + 1; guest = none }

abbrev pub with_guest : Ipam → Option Ipam
with_guest i =
    let g = i.gateway + 1 + 1 in
    if prefix_contains i g then some (record i { guest = some g }) else none

-- `newIPv4IPAM`; `none` as its argument is a text that does not parse, as its result an error.
unfoldable pub new_ipam : Option Prefix → Bool → Option Ipam
new_ipam none reserve_guest = none
new_ipam (some p) reserve_guest =
    if not p.is4
    then none
    else if ltb 29 p.bits
    then none
    else if reserve_guest
    then with_guest (without_guest p)
    else some (without_guest p)

abbrev pub is_guest : Option ℕ → ℕ → Bool
is_guest none a = false
is_guest (some g) a = a == g

-- An address that the walk passes over.
abbrev pub taken : Ipam → (ℕ → Bool) → ℕ → Bool
taken i used a = is_guest i.guest a || used a

-- The loop from address `a`; the first argument is fuel.
unfoldable pub walk : Ipam → (ℕ → Bool) → ℕ → ℕ → Option (ℕ × ℕ)
walk i used zero a = none
walk i used (suc n) a =
    let rest = walk i used n (a + 1) in
    if prefix_contains i a
    then (if prefix_contains i (a + 1)
        then (if taken i used a then rest else some (a, i.prefix_bits))
        else none)
    else none

-- `Allocate`; `none` is `ErrNoCleanSlot`.
unfoldable pub allocate : Ipam → (ℕ → Bool) → Option (ℕ × ℕ)
unfolding walk
allocate i used = walk i used (size_of i.prefix_bits) (i.gateway + 1)
