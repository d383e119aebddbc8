-- ===== src/Examples/Addresses.antt =====
-- The allocator of internal/fastlet/network/ipam.go on a prefix of eight addresses.
use fast_sandbox.Base.{ℕ, ◌+◌, ◌<◌, ◌≡◌, refl, Bool, true, false, some, ◌==◌, nat_equality}
use fast_sandbox.Ipam.{Prefix, Ipam, new_ipam, walk, allocate, taken, limit}
use fast_sandbox.Ipam.Allocation.{allocate-new_ipam}

-- 10.0.0.0/29
abbrev small_prefix : Prefix
small_prefix = record { is4 = true; address = 167772160; bits = 29 }

abbrev small_ipam : Ipam
small_ipam = record {
  base = 167772160;
  prefix_bits = 29;
  gateway = 167772161;
  guest = some 167772163;
}

abbrev first_used : ℕ → Bool
first_used a = a == 167772162

abbrev all_used : ℕ → Bool
all_used a = true

allocate-new_ipam_example :
    (167772161 < 167772164)
    × (167772164 + 1 < limit small_ipam)
    × (taken small_ipam first_used 167772164 ≡ false)
    × (29 ≡ small_ipam.prefix_bits)
unfolding new_ipam allocate walk
allocate-new_ipam_example =
    allocate-new_ipam (some small_prefix) true small_ipam first_used 167772164 29 refl refl
