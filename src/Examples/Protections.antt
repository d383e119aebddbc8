-- ===== src/Examples/Protections.antt =====
-- The protection of cached images at a concrete index.
use fast_sandbox.Base.{◌≡◌, refl, arith, List, [], ◌∷◌, String, lookup, some}
use fast_sandbox.ImageCache.{normalize_reference, trim_prefix}
use fast_sandbox.Protection.{Index, Turn, protects, protect, unprotect, plan_eviction, sort_strings}
use fast_sandbox.Protection.Counts.{count, entry, unprotect-protect}
use fast_sandbox.Protection.Eviction.{InTime, evictable, plan_eviction-evictable}

abbrev as_given : String → String
as_given text = text

abbrev warm : Index
warm =
    ("busybox", record { counts = ("PoolWarm", 1) ∷ []; hot_until = 0 })
    ∷ ("redis", record { counts = []; hot_until = 5 })
    ∷ []

unprotect-protect_example :
    (count "busybox" "PoolWarm" (protect as_given "docker.io/library/busybox" "PoolWarm" warm) ≡ 2)
    × (entry "busybox" "PoolWarm" (
          unprotect as_given 9 "docker.io/library/busybox" "PoolWarm"
            (protect as_given "docker.io/library/busybox" "PoolWarm" warm))
        ≡ some 1)
unfolding normalize_reference trim_prefix lookup
unprotect-protect_example =
    unprotect-protect as_given 9 "docker.io/library/busybox" "PoolWarm" "busybox" "PoolWarm" warm
      refl (λ e. absurd (cc e))

-- At 9 the image that was hot until 5 is not protected any more; before the second turn another call
-- protects the image of the third.
abbrev turns : List Turn
turns =
    (record { candidate = "redis"; now = 9; changes = [] })
    ∷ (record { candidate = "busybox"; now = 10; changes = protects "alpine" "InUse" ∷ [] })
    ∷ (record { candidate = "alpine"; now = 10; changes = [] })
    ∷ []

turns-InTime : InTime 9 turns
turns-InTime = (omega arith, tt, (omega arith, (tt, tt), (omega arith, tt, tt)))

plan_eviction-evictable_example :
    (plan_eviction as_given turns warm).0 ≡ sort_strings (evictable as_given turns warm)
plan_eviction-evictable_example = plan_eviction-evictable as_given 9 turns warm turns-InTime
