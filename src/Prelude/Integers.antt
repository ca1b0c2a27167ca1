-- ===== src/Prelude/Integers.antt =====
-- Signed integers over the native numbers: an integer is read through its parts above and below zero.
use Prim.Native.Nat.{ℕ, suc, ◌+◌, ◌-◌, ◌*◌, ◌/◌, ◌%◌, ◌^◌, ◌<◌}
use mathlib.Core.Path.{◌≡◌}
use mathlib.Core.Bool.{Bool}
use native.Mathlib.Omega.{arith}
use ozonebase.Prelude.Tests.{ltb, if◌then◌else◌}

-- `negsuc n` is the integer below zero by n + 1.
pub data ℤ : Type 0 where
  pos : ℕ → ℤ
  negsuc : ℕ → ℤ

abbrev pub above : ℤ → ℕ
above (pos n) = n
above (negsuc n) = 0

abbrev pub below : ℤ → ℕ
below (pos n) = 0
below (negsuc n) = suc n

abbrev pub difference : ℕ → ℕ → ℤ
difference m n = if ltb m n then negsuc (n - m - 1) else pos (m - n)

infixl 65 ◌+ℤ◌ ◌-ℤ◌
abbrev pub ◌+ℤ◌ : ℤ → ℤ → ℤ
x +ℤ y = difference (above x + above y) (below x + below y)

abbrev pub ◌-ℤ◌ : ℤ → ℤ → ℤ
x -ℤ y = difference (above x + below y) (below x + above y)

-- A multiple, and C++'s quotient, which rounds towards zero, by a positive number.
abbrev pub scale : ℕ → ℤ → ℤ
scale k x = difference (k * above x) (k * below x)

abbrev pub quot : ℤ → ℕ → ℤ
quot x k = difference (above x / k) (below x / k)

abbrev pub ltb_ℤ : ℤ → ℤ → Bool
ltb_ℤ x y = ltb (above x + below y) (above y + below x)

-- A long converted to int: the low 32 bits, signed.
abbrev pub to_int : ℤ → ℤ
to_int x =
    let low : ℕ = (above x + (2 ^ 32 - below x % 2 ^ 32)) % 2 ^ 32 in
    if ltb low (2 ^ 31) then pos low else difference low (2 ^ 32)

-- What an int holds is kept.
pub to_int_small : (x : ℤ) → above x < 2 ^ 31 → below x < 2 ^ 31 → to_int x ≡ x
to_int_small x h k = ground arith

-- Equations of integers through their parts.
pub difference_parts : (m n : ℕ) → above (difference m n) + n ≡ below (difference m n) + m
difference_parts m n = ground arith

pub difference_eq : (m n p q : ℕ) → m + q ≡ p + n → difference m n ≡ difference p q
difference_eq m n p q h = ground arith
