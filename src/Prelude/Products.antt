-- ===== src/Prelude/Products.antt =====
-- Products and differences of native numbers.
use Prim.Native.Nat.{ℕ, ◌*◌, ◌-◌, ◌≤◌, ◌<◌}
use mathlib.Core.Path.{◌≡◌}
use native.Mathlib.Omega.{arith}
use spheres_benchmark.Prelude.Tests.{sub_size, size_mod}

pub mul_mono : (a b k : ℕ) → a ≤ b → a * k ≤ b * k
mul_mono a b k h = grind arith

pub mul_mono_both : (a b c d : ℕ) → a ≤ b → c ≤ d → a * c ≤ b * d
mul_mono_both a b c d h k = grind arith

pub sub_size-one : (n : ℕ) → 0 < n → n < size_mod → sub_size n 1 ≡ n - 1
sub_size-one n h small = omega arith
