-- ===== src/Prelude/Int.antt =====
-- Go's signed integers where only their order matters.
use Prim.Native.Nat.{ℕ, suc, ◌+◌, ◌-◌, ◌*◌, ◌%◌, ◌^◌, ◌<◌}
use mathlib.Core.Path.{◌≡◌}
use mathlib.Core.Logic.{◌↔◌}
use mathlib.Core.Bool.{Bool, true}
use native.Mathlib.Omega.{arith}
use lynceus.Prelude.Tests.{ltb, leb, eqb, if◌then◌else◌}
use lynceus.Prelude.Equality.{Eq}

-- `negsuc n` is -(n + 1).
pub data ℤ : Type 0 where
  pos : ℕ → ℤ
  negsuc : ℕ → ℤ

abbrev pub pos_part : ℤ → ℕ
pos_part (pos n) = n
pos_part (negsuc n) = 0

abbrev pub neg_part : ℤ → ℕ
neg_part (pos n) = 0
neg_part (negsuc n) = suc n

abbrev pub ltz : ℤ → ℤ → Bool
ltz a b = ltb (pos_part a + neg_part b) (pos_part b + neg_part a)

abbrev pub eqz : ℤ → ℤ → Bool
eqz a b = eqb (pos_part a + neg_part b) (pos_part b + neg_part a)

pub eqz_iff : (a b : ℤ) → (eqz a b ≡ true) ↔ (a ≡ b)
eqz_iff a b = ground arith

instance abbrev pub int_eq : Eq ℤ
int_eq = record { beq = eqz; beq_iff = eqz_iff }

infix 50 ◌<ℤ◌
abbrev pub ◌<ℤ◌ : ℤ → ℤ → Type 0
a <ℤ b = pos_part a + neg_part b < pos_part b + neg_part a

abbrev pub lez : ℤ → ℤ → Bool
lez a b = leb (pos_part a + neg_part b) (pos_part b + neg_part a)

-- `a - b` of two natural numbers.
abbrev pub minus : ℕ → ℕ → ℤ
minus a b = if leb b a then pos (a - b) else negsuc (b - a - 1)

infixl 60 ◌+ℤ◌
abbrev pub ◌+ℤ◌ : ℤ → ℤ → ℤ
a +ℤ b = minus (pos_part a + pos_part b) (neg_part a + neg_part b)

-- A product with a natural number.
abbrev pub scale : ℤ → ℕ → ℤ
scale (pos n) k = pos (n * k)
scale (negsuc n) k = minus 0 (suc n * k)

infixl 70 ◌*ℤ◌
abbrev pub ◌*ℤ◌ : ℤ → ℤ → ℤ
a *ℤ pos k = scale a k
pos n *ℤ negsuc k = minus 0 (n * suc k)
negsuc n *ℤ negsuc k = pos (suc n * suc k)

-- Two's complement in 32 and in 64 bits.
abbrev pub wrap : ℕ → ℤ → ℤ
wrap half (pos n) =
    let m = n % (2 * half) in if ltb m half then pos m else negsuc (2 * half - 1 - m)
wrap half (negsuc n) =
    let m = n % (2 * half) in if ltb m half then negsuc m else pos (2 * half - 1 - m)

abbrev pub int32 : ℤ → ℤ
int32 = wrap (2 ^ 31)

abbrev pub int64 : ℤ → ℤ
int64 = wrap (2 ^ 63)

pub int64_small : (n : ℕ) → n < 2 ^ 63 → int64 (pos n) ≡ pos n
int64_small n h = ground arith

pub int32_small : (n : ℕ) → n < 2 ^ 31 → int32 (pos n) ≡ pos n
int32_small n h = ground arith
