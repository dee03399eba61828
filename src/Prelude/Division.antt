-- ===== src/Prelude/Division.antt =====
-- Quotients by their bounds.
use native.Mathlib.Nat.{div-add-mod', mod-lt}
use Prim.Native.Nat.{ℕ, ◌+◌, ◌*◌, ◌/◌, ◌≤◌, ◌<◌}
use mathlib.Core.Path.{◌≡◌}
use native.Mathlib.Omega.{arith}

pub quotient-bounds : (n d w : ℕ) → 0 < d → n / d ≡ w → (w * d ≤ n) × (n < (w + 1) * d)
quotient-bounds n d w positive e =
    rw (← e) (omega (arith, div-add-mod' n d), omega (arith, div-add-mod' n d, mod-lt n positive))
