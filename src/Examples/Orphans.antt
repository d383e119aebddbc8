-- ===== src/Examples/Orphans.antt =====
-- The janitor on a container that a lost Fastlet left behind.
use fast_sandbox.Base.{
  ◌≡◌, ◌↔◌, ◌≤◌, ◌+◌, refl, ℕ, true, false, none, List, [], ◌∷◌, All, length, pos, arith,
}
use fast_sandbox.Janitor.{ResourceIdentity, Sandbox, Authority, not_found, found, cleanup_decision}
use fast_sandbox.Janitor.Decision.{IsEligible, Orphan, cleanup_decision-Orphan}
use fast_sandbox.Janitor.Worker.{
  Turn, Limiter, LimiterLaws, Justified, run_worker, run_worker-Justified,
}

abbrev leftover : ResourceIdentity
leftover = record {
  backend = "containerd";
  resource_id = "c1";
  fastlet_pod_uid = "pod-1";
  fastlet_pod_name = "fastlet-1";
  fastlet_pod_namespace = "pool";
  sandbox_uid = "u1";
  sandbox_name = "box";
  sandbox_namespace = "user";
  instance_generation = pos 1;
  assignment_attempt = pos 1;
  created_at = 5;
}

-- The Sandbox has been assigned again, to another Pod.
abbrev moved : Sandbox
moved = record {
  uid = "u1";
  placement = record { fastlet_name = "fastlet-2"; fastlet_pod_uid = "pod-2"; attempt = pos 2 };
  generation = pos 1;
  is_unavailable = false;
  has_recovery = false;
}

abbrev after_loss : Authority
after_loss = record {
  now = 40000000000;
  has_pod_client = true;
  get_pod = λ namespace name. not_found;
  list_pods = none;
  has_sandbox_client = true;
  get_sandbox = λ namespace name. found moved;
  list_sandboxes = none;
}

cleanup_decision-Orphan_example :
    IsEligible (cleanup_decision (pos 0) after_loss leftover) ↔ Orphan (pos 0) after_loss leftover
cleanup_decision-Orphan_example = cleanup_decision-Orphan (pos 0) after_loss leftover

abbrev counter : Limiter
counter = record {
  Failures = ℕ;
  num_requeues = λ n. n;
  add_rate_limited = λ n. n + 1;
  forget = λ n. 0;
}

abbrev counter_laws : LimiterLaws counter
counter_laws = record { num_requeues-add_rate_limited = λ n. refl; num_requeues-forget = λ n. refl }

abbrev busy : Turn
busy = record { authority = after_loss; succeeds = false }

abbrev busy_turns : List Turn
busy_turns = busy ∷ busy ∷ busy ∷ busy ∷ busy ∷ []

run_worker-Justified_example :
    (length (run_worker counter (pos 0) ("containerd" ∷ []) leftover busy_turns 0).0 ≤ 4)
    × ((run_worker counter (pos 0) ("containerd" ∷ []) leftover busy_turns 0).1 ≡ false)
    × ((run_worker counter (pos 0) ("containerd" ∷ []) leftover busy_turns 0).2 ≡ 0)
    × All
        (Justified counter (pos 0) ("containerd" ∷ []) leftover)
        (run_worker counter (pos 0) ("containerd" ∷ []) leftover busy_turns 0).0
run_worker-Justified_example =
    run_worker-Justified counter (pos 0) ("containerd" ∷ []) counter_laws leftover busy_turns 0 refl
      (omega arith)
