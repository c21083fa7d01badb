-- ===== src/Prelude/Int.antt =====
-- Signed integers over the native numbers: `negsuc n` is -(n + 1).
use Prim.Native.Nat.{ℕ}
use mathlib.Core.Bool.{Bool, true, false}
use gira.Prelude.Tests.{ltb}

pub data ℤ : Type 0 where
  pos : ℕ → ℤ
  negsuc : ℕ → ℤ

-- `a < b`
abbrev pub ltb_ℤ : ℤ → ℤ → Bool
ltb_ℤ (pos m) (pos n) = ltb m n
ltb_ℤ (pos m) (negsuc n) = false
ltb_ℤ (negsuc m) (pos n) = true
ltb_ℤ (negsuc m) (negsuc n) = ltb n m
