-- ===== src/Receiver/Handler/Window.antt =====
-- The test of a report's timestamp, in 64-bit arithmetic.
use heartpost.Common.{ℕ, ◌+◌, ◌^◌, ◌≤◌, ◌<◌, ◌≡◌, ◌↔◌, ◌⊎◌, true, arith}
use heartpost.Common.Int.{ℤ, pos, negsuc, ◌-ℤ◌, wrap_int64}
use heartpost.Clock.{Time, unix, whole_seconds}
use heartpost.Receiver.Handler.{Config, in_window, skew}

-- Two instants in seconds are at most `k` apart.
abbrev pub IsNear : ℕ → ℕ → ℤ → Type 0
IsNear k u (pos t) = (u ≤ t + k) × (t ≤ u + k)
IsNear k u (negsuc t) = u + t + 1 ≤ k

-- The timestamp that lies 2^63 seconds before the clock.
abbrev pub IsOpposite : ℕ → ℤ → Type 0
IsOpposite u (pos t) = ⊥
IsOpposite u (negsuc t) = u + t + 1 ≡ 2 ^ 63

abbrev pub IsInt64 : ℤ → Type 0
IsInt64 (pos t) = t < 2 ^ 63
IsInt64 (negsuc t) = t < 2 ^ 63

-- A timestamp passes exactly when it is within the skew of the clock, or lies 2^63 seconds before
-- it: there the difference and its negation both overflow.
pub in_window_iff :
    (cfg : Config) (now : Time) (ts : ℤ) (k u : ℕ)
    → whole_seconds (skew cfg) ≡ pos k
    → unix now ≡ pos u
    → k + u < 2 ^ 63
    → IsInt64 ts
    → (in_window cfg now ts ≡ true) ↔ (IsNear k u ts ⊎ IsOpposite u ts)
unfolding in_window ◌-ℤ◌ wrap_int64
in_window_iff cfg now (pos t) k u width clock fits range = (ground arith, ground arith)
in_window_iff cfg now (negsuc t) k u width clock fits range = (ground arith, ground arith)
