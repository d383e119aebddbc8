-- ===== src/Examples/Images.antt =====
-- The image inventory of internal/fastlet/cache/tracker.go at concrete listings.
use fast_sandbox.Base.{◌≢◌, inl, [], ◌∷◌, String, pos, eq_iff}
use fast_sandbox.ImageCache.{Tracker, new_tracker}
use fast_sandbox.ImageCache.Agreement.{Agrees, polls, polls-Agrees}
use fast_sandbox.Examples.Samples.{integers, fastlet}

abbrev as_is : String → String
as_is text = text

abbrev tracker : Tracker
tracker = new_tracker "e7" (pos 2)

other_epoch : (fastlet "f1").cache_epoch ≢ tracker.epoch
unfolding new_tracker
other_epoch e = cc ((eq_iff "c1" "e7").1 e)

polls-Agrees_example :
    Agrees integers as_is
      (polls integers as_is
        (("docker.io/library/busybox" ∷ []) ∷ ("busybox" ∷ "redis" ∷ []) ∷ [])
        (tracker, fastlet "f1")).0
      (polls integers as_is
        (("docker.io/library/busybox" ∷ []) ∷ ("busybox" ∷ "redis" ∷ []) ∷ [])
        (tracker, fastlet "f1")).1
polls-Agrees_example =
    polls-Agrees integers as_is ("docker.io/library/busybox" ∷ []) (("busybox" ∷ "redis" ∷ []) ∷ [])
      tracker (fastlet "f1") (inl other_epoch)
