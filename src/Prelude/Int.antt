-- ===== src/Prelude/Int.antt =====
-- Signed counters over the native numbers: `negsuc n` is -(n + 1).
use Prim.Native.Nat.{ℕ, zero, suc, ◌+◌, ◌-◌}
use mathlib.Core.Path.{◌≡◌}
use native.Mathlib.Omega.{arith}
use ocis_ftp_bridge.Prelude.Tests.{leb, if◌then◌else◌}

pub data ℤ : Type 0 where
  pos : ℕ → ℤ
  negsuc : ℕ → ℤ

-- a - b, as an integer.
abbrev pub sub_ℕ : ℕ → ℕ → ℤ
sub_ℕ a b = if leb b a then pos (a - b) else negsuc (b - a - 1)

-- `x + 1` and `x - 1`.
unfoldable pub suc_ℤ : ℤ → ℤ
suc_ℤ (pos n) = pos (n + 1)
suc_ℤ (negsuc zero) = pos 0
suc_ℤ (negsuc (suc n)) = negsuc n

unfoldable pub pred_ℤ : ℤ → ℤ
pred_ℤ (pos zero) = negsuc 0
pred_ℤ (pos (suc n)) = pos n
pred_ℤ (negsuc n) = negsuc (n + 1)

pub suc_ℤ-sub_ℕ : (a b : ℕ) → suc_ℤ (sub_ℕ a b) ≡ sub_ℕ (a + 1) b
unfolding suc_ℤ
suc_ℤ-sub_ℕ a b = ground arith

pub pred_ℤ-sub_ℕ : (a b : ℕ) → pred_ℤ (sub_ℕ a b) ≡ sub_ℕ a (b + 1)
unfolding pred_ℤ
pred_ℤ-sub_ℕ a b = ground arith

pub sub_ℕ_cancel : (a b : ℕ) → sub_ℕ (a + 1) (b + 1) ≡ sub_ℕ a b
sub_ℕ_cancel a b = ground arith

pub sub_ℕ_zero : (a : ℕ) → sub_ℕ a 0 ≡ pos a
sub_ℕ_zero a = ground arith
