-- ===== src/Base/Modulo.antt =====
-- Indices taken modulo a capacity.
use Prim.Native.Nat.{ℕ, ◌+◌, ◌%◌, ◌<◌}
use mathlib.Core.Logic.{◌≢◌}
use native.Mathlib.Omega.{arith}

-- Two indices less than the capacity apart have different slots.
pub mod_ne_of_close : (x y c : ℕ) → x < y → y < x + c → x % c ≢ y % c
mod_ne_of_close x y c h k e = grind arith
