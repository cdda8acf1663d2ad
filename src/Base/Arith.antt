-- ===== src/Base/Arith.antt =====
-- Products of native numbers.
use Prim.Native.Nat.{ℕ, ◌*◌, ◌≤◌, ◌<◌}
use mathlib.Core.Path.{◌≡◌}
use native.Mathlib.Nat.{le_of_mul-le-mul_right, mul-le-mul_right}
use native.Mathlib.Omega.{arith}

pub mul_cancel : (a b k : ℕ) → 0 < k → a * k ≡ b * k → a ≡ b
mul_cancel a b k h e =
    let le = le_of_mul-le-mul_right {m = a} {n = b} {k = k} (omega arith) h in
    let ge = le_of_mul-le-mul_right {m = b} {n = a} {k = k} (omega arith) h in omega arith

pub mul_lt : (a b k : ℕ) → 0 < k → a < b → a * k < b * k
mul_lt a b k h lt = let more = mul-le-mul_right k lt in omega arith

pub mul_le : (a b k : ℕ) → a ≤ b → a * k ≤ b * k
mul_le a b k h = mul-le-mul_right k h
