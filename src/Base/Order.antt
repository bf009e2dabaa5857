-- ===== src/Base/Order.antt =====
-- `<` on the native numbers is well founded, and quotients keep the order.
use Prim.Native.Nat.{ℕ, ◌/◌, ◌≤◌, ◌<◌}
use native.Mathlib.Nat.{le-div_iff_mul-le, div-mul-le_self, le_trans}

pub div-le-div : (k a b : ℕ) → 0 < k → a ≤ b → a / k ≤ b / k
div-le-div k a b pos le = (le-div_iff_mul-le pos).1 (le_trans (div-mul-le_self a k) le)
