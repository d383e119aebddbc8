-- ===== src/Placement/Quantity.antt =====
-- k8s.io/apimachinery's `resource.Quantity`, which the registry only calls: its operations, with what
-- its documentation says of them. A quantity is an exact number; `MilliValue` and `Value` round it up
-- to a whole number of thousandths and of units.
use fast_sandbox.Base.{◌≡◌, Bool, true, Option, String, ℤ, pos, ◌+ℤ◌, ◌-ℤ◌, ◌≤ℤ◌, ◌<ℤ◌}

pub record Quantities : Type 1 where
  pub Quantity : Type 0
  pub zero_quantity : Quantity
  pub add : Quantity → Quantity → Quantity
  pub sub : Quantity → Quantity → Quantity
  -- `Sign() > 0` and `Sign() < 0`
  pub is_positive : Quantity → Bool
  pub is_negative : Quantity → Bool
  -- `a.Cmp(b) <= 0`
  pub cmp_le : Quantity → Quantity → Bool
  pub milli_value : Quantity → ℤ
  pub value : Quantity → ℤ
  pub parse_quantity : String → Option Quantity

-- The documented arithmetic that the theorems use.
pub record QuantityLaws (q : Quantities) : Type 0 where
  pub milli_value-zero : q.milli_value q.zero_quantity ≡ pos 0
  pub value-zero : q.value q.zero_quantity ≡ pos 0
  pub milli_value-add :
      (a b : q.Quantity) → q.milli_value (q.add a b) ≤ℤ q.milli_value a +ℤ q.milli_value b
  pub value-add : (a b : q.Quantity) → q.value (q.add a b) ≤ℤ q.value a +ℤ q.value b
  pub milli_value-add_sub :
      (a b : q.Quantity) → q.milli_value (q.sub (q.add a b) b) ≡ q.milli_value a
  pub value-add_sub : (a b : q.Quantity) → q.value (q.sub (q.add a b) b) ≡ q.value a
  pub milli_value-positive : (a : q.Quantity) → q.is_positive a ≡ true → pos 0 <ℤ q.milli_value a
  pub value-positive : (a : q.Quantity) → q.is_positive a ≡ true → pos 0 <ℤ q.value a
  pub milli_value-sub :
      (a b : q.Quantity) → q.milli_value (q.sub a b) ≤ℤ q.milli_value a -ℤ q.milli_value b +ℤ pos 1
