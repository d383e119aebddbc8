-- ===== src/Examples/Routes.antt =====
-- The route store of internal/dataplane/fastletproxy/store.go at concrete routes.
use fast_sandbox.Base.{
  Mem, Bool, true, ◌≡◌, refl, ◌⊎◌, ◌∷◌, [], List, none, String, lookup, insert, remove, ℤ, pos,
  ◌<ℤ◌,
}
use fast_sandbox.RouteStore.Routes.{Route, ready, Store, new_store, high, validate, deep_equal}
use fast_sandbox.RouteStore.Operations.{
  apply_route, apply_existing, apply_fresh, install, announce, publish, delete_route, retire,
  lookup_route, found,
}
use fast_sandbox.RouteStore.Invariant.{Inv, new_store-Inv}
use fast_sandbox.RouteStore.Cases.{WellDescribed}
use fast_sandbox.RouteStore.Fence.{
  applies, drains, deletes, run, step, run-Inv, step-Inv, Linked, delete-never_resurrects,
}
use fast_sandbox.RouteStore.Serving.{apply_route-lookup_route}
use fast_sandbox.RouteStore.Listing.{snapshot_routes, ByUid, snapshot_routes-ByUid}
use fast_sandbox.RouteStore.Watch as Watch
use fast_sandbox.RouteStore.Watch.{history, history-NoGaps, act, NoGaps, UpToDate}

abbrev any_ip : String → Bool
any_ip a = true

abbrev route_at : ℤ → Route
route_at generation = record {
  sandbox_uid = "u1";
  route_generation = generation;
  namespace = "team";
  fastlet_pod_uid = "pod";
  assignment_attempt = pos 1;
  access = record { kind = "DirectIP"; address = "10.0.0.7"; net_ns_path = "" };
  state = ready;
  components = none;
}

abbrev started : Store
started = run any_ip (applies (route_at (pos 1)) ∷ []) new_store

started-Linked : Linked started
unfolding run step
started-Linked =
    step-Inv any_ip (λ r. Unit) (applies (route_at (pos 1))) new_store ((λ r h. tt), (λ r h. tt))
      (new_store-Inv (λ r. Unit {0}))

delete-never_resurrects_example : pos 1 <ℤ (route_at (pos 2)).route_generation
unfolding run step apply_route apply_existing apply_fresh install announce publish delete_route
    retire new_store high lookup insert remove validate
delete-never_resurrects_example =
    delete-never_resurrects any_ip "u1" (pos 1) started
      (applies (route_at (pos 1)) ∷ applies (route_at (pos 2)) ∷ []) (route_at (pos 2))
      started-Linked refl refl

run-Inv_example : Inv (WellDescribed any_ip) (
    run any_ip
      (applies (route_at (pos 3)) ∷ drains "u1" (pos 3) ∷ deletes "u1" (pos 3) ∷ [])
      new_store)
run-Inv_example =
    run-Inv any_ip (applies (route_at (pos 3)) ∷ drains "u1" (pos 3) ∷ deletes "u1" (pos 3) ∷ [])
      new_store (new_store-Inv (WellDescribed any_ip))

apply_route-lookup_route_example :
    (e : Route) × (lookup_route "u1" (apply_route any_ip (route_at (pos 4)) started).0 ≡ found e)
    × ((deep_equal e (route_at (pos 4)) ≡ true) ⊎ (e ≡ route_at (pos 4)))
unfolding run step apply_route apply_existing apply_fresh install announce publish new_store high
    lookup insert validate
apply_route-lookup_route_example =
    apply_route-lookup_route any_ip (route_at (pos 4)) started refl refl

abbrev watched : List Watch.Action
watched =
    Watch.subscribes
    ∷ Watch.applies (route_at (pos 1))
    ∷ Watch.drains "u1" (pos 1)
    ∷ Watch.receives 1
    ∷ []

history-NoGaps_example : NoGaps (history any_ip watched new_store)
unfolding new_store
history-NoGaps_example = history-NoGaps any_ip watched new_store tt

snapshot_routes-ByUid_example :
    ((snapshot_routes started).revision ≡ started.revision)
    × ByUid (snapshot_routes started).routes
    × Mem (route_at (pos 1)) (snapshot_routes started).routes
unfolding run step apply_route apply_existing apply_fresh install announce publish new_store high
    lookup insert validate
snapshot_routes-ByUid_example = snapshot_routes-ByUid started "u1" (route_at (pos 1)) refl
