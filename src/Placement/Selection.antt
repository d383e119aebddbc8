-- ===== src/Placement/Selection.antt =====
-- placement/registry.go: what `TopK` returns, and in which order.
use fast_sandbox.Base.{
  ltb, leb_ℤ, ℤ, ℕ, suc, ◌≡◌, Bool, true, false, List, [], ◌∷◌, String, arith, ap, text_equality,
  nat_equality, int_equality, ◌∙◌, All, length, take, map, min, Mem, map-All, keep_if-All, All-Mem,
  All-map, not, ◌&&◌, ◌≤◌, ◌<◌, ◌-◌, ◌<ℤ◌, ◌⊎◌, ◌||◌, ◌==◌, eq_iff, pos, text_lt, length-take,
  length-map,
}
use fast_sandbox.Placement.Quantity.{Quantities}
use fast_sandbox.Placement.Types.{FastletInfo, Registry, slot_capacity, scheduling_used}
use fast_sandbox.Placement.TopK.{
  Floats, CandidateRequest, sort_ranked, ranking, eligible, rank, completed_request, top_k, info_of,
  hard_filter, contains,
}
use fast_sandbox.Placement.Reserve.{infos}
use fast_sandbox.Placement.Capacity.{pressure_nodes, resource_schedulability, fits}
use fast_sandbox.Placement.Ranking.{Row, sort_ranked-All, length-sort_ranked, first-All}

module _ (q : Quantities) (fl : Floats) where
  open q use {Quantity}

  abbrev Request : Type 0
  Request = CandidateRequest Quantity

  abbrev pub passes : Request → Registry Quantity → FastletInfo Quantity → Bool
  passes r g =
      hard_filter q fl r g.stale_after (pressure_nodes q (infos q g.fastlets) r.now g.stale_after)

  -- What the request asks a Fastlet to be; the empty text asks for nothing.
  abbrev pub Wanted : String → String → Type 0
  Wanted wanted has = (wanted ≡ "") ⊎ (has ≡ wanted)

  Wanted_lem : (wanted has : String) → (wanted == "" || has == wanted) ≡ true → Wanted wanted has
  Wanted_lem wanted has h = ground (arith, eq_iff wanted "", eq_iff has wanted)

  -- A Fastlet that may take the request: it is not excluded, is one of the pool, is ready in all its parts,
  -- does not drain, was heard of in time, is not rejected now, has a free slot, runs what is asked for, and,
  -- where resources count, stands on no node under pressure and has room for the demand.
  abbrev pub Serves : Request → Registry Quantity → FastletInfo Quantity → Type 0
  Serves r g i =
      (contains r.excluded i.id ≡ false)
      × (i.namespace ≡ r.namespace)
      × (i.pool_name ≡ r.pool_name)
      × (i.pod_ready ≡ true)
      × (i.runtime_ready ≡ true)
      × (i.infra_ready ≡ true)
      × (i.draining ≡ false)
      × (0 < i.last_heartbeat)
      × (r.now - i.last_heartbeat ≤ g.stale_after)
      × (i.rejected_until ≤ r.now)
      × (pos 0 <ℤ slot_capacity i)
      × (scheduling_used i <ℤ slot_capacity i)
      × Wanted r.runtime_name i.runtime_name
      × Wanted r.runtime_profile_hash i.runtime_profile_hash
      × Wanted r.resource_profile_hash i.resource_profile_hash
      × Wanted r.infra_revision i.infra_revision
      × Wanted r.fastlet_revision i.fastlet_revision
      × ((r.resource_aware ≡ false)
          ⊎ ((contains (pressure_nodes q (infos q g.fastlets) r.now g.stale_after) i.node_name
                ≡ false)
              × (fits q (resource_schedulability q i r.now g.stale_after) r.demand ≡ true)))

  resources_lem :
      (aware held_back fit : Bool)
      → (not aware || (not held_back && fit)) ≡ true
      → (aware ≡ false) ⊎ ((held_back ≡ false) × (fit ≡ true))
  resources_lem aware held_back fit h = ground arith

  conjuncts : (a b : Bool) → (a && b) ≡ true → (a ≡ true) × (b ≡ true)
  conjuncts a b h = ground arith

  negated : (a : Bool) → not a ≡ true → a ≡ false
  negated a h = ground arith

  eleven_parts :
      (a b c d e f g i j k m : Bool)
      → (a && b && c && d && e && f && g && i && j && k && m) ≡ true
      → (a ≡ true)
        × (b ≡ true)
        × (c ≡ true)
        × (d ≡ true)
        × (e ≡ true)
        × (f ≡ true)
        × (g ≡ true)
        × (i ≡ true)
        × (j ≡ true)
        × (k ≡ true)
        × (m ≡ true)
  eleven_parts a b c d e f g i j k m h =
      let (h10, m') = conjuncts (a && b && c && d && e && f && g && i && j && k) m h in
      let (h9, k') = conjuncts (a && b && c && d && e && f && g && i && j) k h10 in
      let (h8, j') = conjuncts (a && b && c && d && e && f && g && i) j h9 in
      let (h7, i') = conjuncts (a && b && c && d && e && f && g) i h8 in
      let (h6, g') = conjuncts (a && b && c && d && e && f) g h7 in
      let (h5, f') = conjuncts (a && b && c && d && e) f h6 in
      let (h4, e') = conjuncts (a && b && c && d) e h5 in
      let (h3, d') = conjuncts (a && b && c) d h4 in
      let (h2, c') = conjuncts (a && b) c h3 in
      let (a', b') = conjuncts (a) b h2 in (a', b', c', d', e', f', g', i', j', k', m')

  readiness :
      (pod runtime infra drains : Bool) (heard : ℕ)
      → (pod && runtime && infra && not drains && not (heard == 0)) ≡ true
      → (pod ≡ true) × (runtime ≡ true) × (infra ≡ true) × (drains ≡ false) × (0 < heard)
  readiness pod runtime infra drains heard h = ground arith

  in_pool : (a b c d : String) → (a == b && c == d) ≡ true → (a ≡ b) × (c ≡ d)
  in_pool a b c d h = ground (arith, eq_iff a b, eq_iff c d)

  in_time :
      (stale_after heard now rejected : ℕ)
      → not (ltb stale_after (now - heard) || ltb now rejected) ≡ true
      → (now - heard ≤ stale_after) × (rejected ≤ now)
  in_time stale_after heard now rejected h = ground arith

  slot_is_free :
      (capacity used : ℤ)
      → not (leb_ℤ capacity (pos 0) || leb_ℤ capacity used) ≡ true
      → (pos 0 <ℤ capacity) × (used <ℤ capacity)
  slot_is_free capacity used h = ground arith

  passes-Serves :
      (r : Request) (g : Registry Quantity) (i : FastletInfo Quantity)
      → passes r g i ≡ true
      → Serves r g i
  unfolding hard_filter
  passes-Serves r g i h =
      let nodes = pressure_nodes q (infos q g.fastlets) r.now g.stale_after in
      let (out, pool, ready, time, slot, runtime, profile, resources, infra, revision, room) =
        eleven_parts (not (contains r.excluded i.id))
          (i.namespace == r.namespace && i.pool_name == r.pool_name)
          (i.pod_ready
            && i.runtime_ready
            && i.infra_ready
            && not i.draining
            && not (i.last_heartbeat == 0))
          (not (ltb g.stale_after (r.now - i.last_heartbeat) || ltb r.now i.rejected_until))
          (not (leb_ℤ (slot_capacity i) (pos 0) || leb_ℤ (slot_capacity i) (scheduling_used i)))
          (r.runtime_name == "" || i.runtime_name == r.runtime_name)
          (r.runtime_profile_hash == "" || i.runtime_profile_hash == r.runtime_profile_hash)
          (r.resource_profile_hash == "" || i.resource_profile_hash == r.resource_profile_hash)
          (r.infra_revision == "" || i.infra_revision == r.infra_revision)
          (r.fastlet_revision == "" || i.fastlet_revision == r.fastlet_revision)
          (not r.resource_aware
            || (not (contains nodes i.node_name)
                && fits q (resource_schedulability q i r.now g.stale_after) r.demand))
          h in
      let (same_namespace, same_pool) =
        in_pool i.namespace r.namespace i.pool_name r.pool_name pool in
      let (pod, runtime_up, infra_up, stays, heard) =
        readiness i.pod_ready i.runtime_ready i.infra_ready i.draining i.last_heartbeat ready in
      let (fresh, accepted) = in_time g.stale_after i.last_heartbeat r.now i.rejected_until time in
      let (some_slot, free_slot) = slot_is_free (slot_capacity i) (scheduling_used i) slot in
      (
        negated (contains r.excluded i.id) out,
        same_namespace,
        same_pool,
        pod,
        runtime_up,
        infra_up,
        stays,
        heard,
        fresh,
        accepted,
        some_slot,
        free_slot,
        Wanted_lem r.runtime_name i.runtime_name runtime,
        Wanted_lem r.runtime_profile_hash i.runtime_profile_hash profile,
        Wanted_lem r.resource_profile_hash i.resource_profile_hash resources,
        Wanted_lem r.infra_revision i.infra_revision infra,
        Wanted_lem r.fastlet_revision i.fastlet_revision revision,
        resources_lem r.resource_aware (contains nodes i.node_name)
            (fits q (resource_schedulability q i r.now g.stale_after) r.demand) room,
      )

  Serving : Request → Registry Quantity → (Row q fl) → Type 0
  Serving r g x = Mem x.info (infos q g.fastlets) × Serves r g x.info

  ranking-All : (r : Request) (g : Registry Quantity) → All (Serving r g) (ranking q fl r g)
  unfolding ranking eligible rank Serving
  ranking-All r g = sort_ranked-All q fl (Serving r g) _ (
      map-All (Serving r g) (rank q fl r g.server_seed) (eligible q fl r g) (
        All-map (eligible q fl r g) (λ i (m, p). (m, passes-Serves r g i p))
          (keep_if-All (λ i. Mem i (infos q g.fastlets)) (passes r g) (infos q g.fastlets)
            (All-Mem (infos q g.fastlets)))))

  -- Every Fastlet that `top_k` returns is registered and may take the completed request: it is not excluded,
  -- is one of the request's pool, is ready in all its parts, does not drain, was heard of in time, is not
  -- rejected now, has a free slot and the profiles and revisions that are asked for, and, where resources
  -- count, stands on no node under pressure and has room for the demand.
  pub top_k-hard_filter :
      (normalize : String → String) (clock : ℕ) (r : Request) (k : ℕ) (g : Registry Quantity)
      → All
          (λ i. Mem i (infos q g.fastlets) × Serves (completed_request q fl normalize clock r) g i)
          (top_k q fl normalize clock r k g)
  unfolding top_k Serving
  top_k-hard_filter normalize clock r k g =
      let done = completed_request q fl normalize clock r in
      map-All (λ i. Mem i (infos q g.fastlets) × Serves done g i) (info_of q fl) _
        (first-All q fl (Serving done g) k _ (ranking-All done g))

  -- For a positive limit `top_k` returns as many Fastlets as are eligible or as the limit says, the
  -- smaller of the two.
  pub length-top_k :
      (normalize : String → String) (clock : ℕ) (r : Request) (k : ℕ) (g : Registry Quantity)
      → length (top_k q fl normalize clock r (suc k) g)
        ≡ min (suc k) (length (eligible q fl (completed_request q fl normalize clock r) g))
  unfolding top_k ranking
  length-top_k normalize clock r k g =
      let rows =
        map (rank q fl (completed_request q fl normalize clock r) g.server_seed)
          (eligible q fl (completed_request q fl normalize clock r) g) in
      length-map (info_of q fl) (take (suc k) (sort_ranked q fl rows))
      ∙ length-take (suc k) (sort_ranked q fl rows)
      ∙ ap (min (suc k)) (
          length-sort_ranked q fl rows
          ∙ length-map (rank q fl (completed_request q fl normalize clock r) g.server_seed)
              (eligible q fl (completed_request q fl normalize clock r) g))

  -- How two rows stand when `a` comes first: by the request's order and the id, by the server's order before
  -- that, by the load before that, and an image hit before all.
  abbrev pub StableOrder : (Row q fl) → (Row q fl) → Type 0
  StableOrder a b =
      (a.stable < b.stable) ⊎ ((a.stable ≡ b.stable) × (text_lt b.info.id a.info.id ≡ false))

  abbrev pub ServerOrder : (Row q fl) → (Row q fl) → Type 0
  ServerOrder a b =
      (a.server_order < b.server_order) ⊎ ((a.server_order ≡ b.server_order) × StableOrder a b)

  abbrev pub LoadOrder : (Row q fl) → (Row q fl) → Type 0
  LoadOrder a b =
      (a.load_bucket <ℤ b.load_bucket) ⊎ ((a.load_bucket ≡ b.load_bucket) × ServerOrder a b)

  abbrev pub NotAfter : (Row q fl) → (Row q fl) → Type 0
  NotAfter a b = ((a.hit ≡ true) × (b.hit ≡ false)) ⊎ ((a.hit ≡ b.hit) × LoadOrder a b)

  abbrev pub InOrder : List (Row q fl) → Type 0
  InOrder [] = Unit
  InOrder (a ∷ []) = Unit
  InOrder (a ∷ b ∷ rest) = NotAfter a b × InOrder (b ∷ rest)
