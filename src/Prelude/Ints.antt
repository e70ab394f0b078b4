-- ===== src/Prelude/Ints.antt =====
-- Integers over the native numbers, for the code's signed machine integers.
use Prim.Native.Nat.{ℕ, ◌-◌, ◌+◌, ◌^◌}
use mathlib.Core.Bool.{Bool, false}
use stitch_pty.Prelude.Tests.{◌==◌, ltb, if◌then◌else◌}

-- `negsuc n` is `- (n + 1)`.
pub data ℤ : Type 0 where
  pos negsuc : ℕ → ℤ

-- `==` of two integers.
unfoldable pub same : ℤ → ℤ → Bool
same (pos m) (pos n) = m == n
same (negsuc m) (negsuc n) = m == n
same _ _ = false

-- `i as u32` of an i32.
unfoldable pub to_u32 : ℤ → ℕ
to_u32 (pos n) = n
to_u32 (negsuc n) = 2 ^ 32 - (n + 1)

-- `n as i16` of a u16.
unfoldable pub to_i16 : ℕ → ℤ
to_i16 n = if ltb n (2 ^ 15) then pos n else negsuc (2 ^ 16 - (n + 1))
