-- ===== src/Common/Int.antt =====
-- Signed integers over the native numbers.
use Prim.Native.Nat.{ℕ, zero, suc, ◌+◌, ◌-◌, ◌*◌}
use mathlib.Core.Option.{Option, none, some}
use case_automation_mcp.Common.Tests.{ltb, if◌then◌else◌}

-- `negsuc n` is -(n + 1)
pub data ℤ : Type 0 where
  pos : ℕ → ℤ
  negsuc : ℕ → ℤ

-- `n + k`, where it is at least 1
unfoldable pub shift : ℕ → ℤ → Option ℕ
shift n (pos k) = if ltb 0 (n + k) then some (n + k) else none
shift n (negsuc k) = if ltb (suc k) n then some (n - suc k) else none

-- `m * k`
unfoldable pub times : ℕ → ℤ → ℤ
times zero k = pos 0
times (suc m) (pos k) = pos (suc m * k)
times (suc m) (negsuc k) = negsuc (suc m * suc k - 1)
