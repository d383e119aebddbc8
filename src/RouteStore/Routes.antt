-- ===== src/RouteStore/Routes.antt =====
-- fastletproxy/store.go and dataplane/contract/access.go: routes, their checks, and the state of the store.
use fast_sandbox.Base.{
  ℕ, ◌+◌, Bool, true, false, not, ◌&&◌, ◌||◌, Option, none, some, List, [], ◌∷◌, String, Dict,
  lookup, length, ◌==◌, text_equality, nat_equality, ℤ, pos, int_equality, leb_ℤ,
}
use Prim.Native.Nat.{◌%◌, ◌^◌}

pub data RouteState : Type 0 where
  unset ready draining : RouteState
  -- a string that is none of the constants
  other : String → RouteState

pub record ComponentRoute : Type 0 where
  pub protocol : String
  pub port : ℕ

pub record AccessDescriptor : Type 0 where
  pub kind : String
  pub address : String
  pub net_ns_path : String

pub record Route : Type 0 where
  pub sandbox_uid : String
  pub route_generation : ℤ
  pub namespace : String
  pub fastlet_pod_uid : String
  pub assignment_attempt : ℤ
  pub access : AccessDescriptor
  pub state : RouteState
  -- `none` is the nil map
  pub components : Option (Dict ComponentRoute)

pub data RouteError : Type 0 where
  not_found stale conflict is_draining : RouteError

pub data EventType : Type 0 where
  applied deleted drained : EventType

pub record Event : Type 0 where
  pub revision : ℕ
  pub type : EventType
  pub sandbox_uid : String
  pub route_generation : ℤ
  pub spec : Option Route

-- A subscriber's channel: the events sent and not yet received.
pub record Watcher : Type 0 where
  pub id : ℕ
  pub pending : List Event

pub record Store : Type 0 where
  pub active : Dict Route
  pub high_water : Dict ℤ
  pub revision : ℕ
  pub next_watcher : ℕ
  pub watchers : List Watcher

unfoldable pub new_store : Store
new_store = record { active = []; high_water = []; revision = 0; next_watcher = 0; watchers = [] }

-- The increment of a uint64.
abbrev pub next_revision : ℕ → ℕ
next_revision r = (r + 1) % 2 ^ 64

abbrev pub watcher_buffer : ℕ
watcher_buffer = 64

abbrev pub or_zero : Option ℤ → ℤ
or_zero none = pos 0
or_zero (some g) = g

unfoldable pub high : Store → String → ℤ
high s uid = or_zero (lookup uid s.high_water)

abbrev pub state_beq : RouteState → RouteState → Bool
state_beq unset unset = true
state_beq ready ready = true
state_beq draining draining = true
state_beq (other a) (other b) = a == b
state_beq _ _ = false

-- `net.ParseIP(address) != nil` is the parameter `is_ip`.
abbrev pub valid_access : (String → Bool) → AccessDescriptor → Bool
valid_access is_ip a = a.kind == "DirectIP" && is_ip a.address

abbrev pub known_state : RouteState → Bool
known_state ready = true
known_state draining = true
known_state unset = true
known_state (other _) = false

unfoldable pub validate : (String → Bool) → Route → Bool
validate is_ip r =
    not (
      r.namespace == ""
      || r.sandbox_uid == ""
      || r.fastlet_pod_uid == ""
      || leb_ℤ r.assignment_attempt (pos 0)
      || leb_ℤ r.route_generation (pos 0)
      || r.access.kind == "")
    && valid_access is_ip r.access
    && known_state r.state

abbrev pub component_beq : ComponentRoute → ComponentRoute → Bool
component_beq a b = a.protocol == b.protocol && a.port == b.port

abbrev pub found_equal : ComponentRoute → Option ComponentRoute → Bool
found_equal c none = false
found_equal c (some d) = component_beq c d

abbrev pub contained : Dict ComponentRoute → Dict ComponentRoute → Bool
contained [] b = true
contained ((k, c) ∷ a) b = found_equal c (lookup k b) && contained a b

abbrev pub components_beq : Option (Dict ComponentRoute) → Option (Dict ComponentRoute) → Bool
components_beq none none = true
components_beq (some a) (some b) = length a == length b && contained a b
components_beq _ _ = false

-- `reflect.DeepEqual` of two routes; a nil map differs from an empty one.
unfoldable pub deep_equal : Route → Route → Bool
deep_equal a b =
    a.sandbox_uid == b.sandbox_uid
    && a.route_generation == b.route_generation
    && a.namespace == b.namespace
    && a.fastlet_pod_uid == b.fastlet_pod_uid
    && a.assignment_attempt == b.assignment_attempt
    && a.access.kind == b.access.kind
    && a.access.address == b.access.address
    && a.access.net_ns_path == b.access.net_ns_path
    && state_beq a.state b.state
    && components_beq a.components b.components
