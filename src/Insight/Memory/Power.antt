-- ===== src/Insight/Memory/Power.antt =====
-- internal/insight/diskspill.go (`nextPow2MB`): the loop up to 2^62 kB, and above.
use lynceus.Prelude.{
  ℕ, zero, suc, ◌+◌, ◌*◌, ◌^◌, ◌≤◌, ◌<◌, ◌≡◌, refl, sym, subst, ap₂, Bool, true, false, ◌&&◌,
  if◌then◌else◌, Option, none, some, arith, Bool-cases, &&_iff, ltb, inl, inr,
}
use native.Mathlib.Nat.{pow-suc}
use lynceus.Prelude.Int.{ℤ, pos, lez, eqz, eqz_iff, int64_small}
use lynceus.Insight.{mul64}
use lynceus.Insight.Memory.{next_pow2_from, next_pow2_mb}

-- The least power of two that exceeds `kb` when it is counted in units of 1024.
abbrev pub IsLeast : ℕ → ℕ → Type 0
IsLeast kb j = (kb < 2 ^ j * 1024) × ((i : ℕ) → i < j → 2 ^ i * 1024 ≤ kb)

abbrev pub Finds : ℕ → Option ℤ → Type 0
Finds kb r = (j : ℕ) × (r ≡ some (pos (2 ^ j))) × IsLeast kb j

pow_small : (kb j : ℕ) → kb < 2 ^ 62 → ((i : ℕ) → i < j → 2 ^ i * 1024 ≤ kb) → 2 ^ j * 1024 < 2 ^ 63
pow_small kb zero h low = omega arith
pow_small kb (suc i) h low = let below = low i (omega arith) in omega (arith, below, pow-suc 2 i)

stepped :
    (n m kb : ℕ)
    → m * 1024 < 2 ^ 63
    → next_pow2_from (suc n) (pos m) (pos kb) ≡ (
        if lez (pos (m * 1024)) (pos kb)
        then next_pow2_from n (pos (m * 2)) (pos kb)
        else some (pos m))
unfolding next_pow2_from
stepped n m kb h =
    ap₂ (λ a b. if lez a (pos kb) then next_pow2_from n b (pos kb) else some (pos m))
      (int64_small (m * 1024) h) (int64_small (m * 2) (omega (arith, h)))

one_more :
    (kb j : ℕ)
    → ((i : ℕ) → i < j → 2 ^ i * 1024 ≤ kb)
    → 2 ^ j * 1024 ≤ kb
    → (i : ℕ) → i < suc j
    → 2 ^ i * 1024 ≤ kb
one_more kb j low l i k = elim (Bool-cases (ltb i j)) [
  | inl q ↦ low i (ground arith)
  | inr q ↦ let same : i ≡ j = ground arith in subst (λ x. 2 ^ x * 1024 ≤ kb) (sym same) l
]

next_pow2_from-Finds :
    (n j kb : ℕ)
    → n + j ≡ 64
    → kb < 2 ^ 62
    → ((i : ℕ) → i < j → 2 ^ i * 1024 ≤ kb)
    → Finds kb (next_pow2_from n (pos (2 ^ j)) (pos kb))
unfolding next_pow2_from
next_pow2_from-Finds zero j kb e h low = absurd (omega (arith, low 63 (omega arith)))
next_pow2_from-Finds (suc n) j kb e h low =
    subst (Finds kb) (sym (stepped n (2 ^ j) kb (pow_small kb j h low)))
      (elim (Bool-cases (lez (pos (2 ^ j * 1024)) (pos kb))) [
        | inl q ↦ rw q (
            subst (λ m. Finds kb (next_pow2_from n (pos m) (pos kb))) (pow-suc 2 j)
              (next_pow2_from-Finds n (suc j) kb (omega arith) h (one_more kb j low (leb_le q))))
        | inr q ↦ rw q (j, refl, (gt_lt q, low))
      ])
  where
    leb_le : lez (pos (2 ^ j * 1024)) (pos kb) ≡ true → 2 ^ j * 1024 ≤ kb
    leb_le q = ground arith

    gt_lt : lez (pos (2 ^ j * 1024)) (pos kb) ≡ false → kb < 2 ^ j * 1024
    gt_lt q = ground arith

-- Below 2^62 kB the loop ends, and gives the least power of two of megabytes that exceeds the size.
pub next_pow2_mb-IsLeast :
    (kb : ℕ) → kb < 2 ^ 62 → (j : ℕ) × (next_pow2_mb (pos kb) ≡ some (pos (2 ^ j))) × IsLeast kb j
next_pow2_mb-IsLeast kb h = next_pow2_from-Finds 64 0 kb refl h (λ i k. absurd (omega arith))

-- The sizes that the loop tries, from `mb` on, are all at most 2^62 kB, and the last is 0.
abbrev stays_small : ℕ → ℤ → Bool
stays_small zero mb = eqz mb (pos 0)
stays_small (suc s) mb =
    let rest = stays_small s (mul64 mb (pos 2)) in lez (mul64 mb (pos 1024)) (pos (2 ^ 62)) && rest

from_zero : (n kb : ℕ) → next_pow2_from n (pos 0) (pos kb) ≡ none
unfolding next_pow2_from
from_zero zero kb = refl
from_zero (suc n) kb =
    let below : lez (pos 0) (pos kb) ≡ true = ground arith in rw below (from_zero n kb)

lez_above : (a : ℤ) (kb : ℕ) → lez a (pos (2 ^ 62)) ≡ true → 2 ^ 62 ≤ kb → lez a (pos kb) ≡ true
lez_above a kb h l = ground arith

never :
    (s : ℕ) (mb : ℤ) (n kb : ℕ)
    → stays_small s mb ≡ true
    → 2 ^ 62 ≤ kb
    → next_pow2_from n mb (pos kb) ≡ none
unfolding next_pow2_from
never zero mb n kb h l =
    subst (λ m. next_pow2_from n m (pos kb) ≡ none) (sym ((eqz_iff mb (pos 0)).0 h))
      (from_zero n kb)
never (suc s) mb zero kb h l = refl
never (suc s) mb (suc n) kb h l =
    let (small, later) =
      (&&_iff (lez (mul64 mb (pos 1024)) (pos (2 ^ 62))) (stays_small s (mul64 mb (pos 2)))).0 h in
    rw (lez_above (mul64 mb (pos 1024)) kb small l) (never s (mul64 mb (pos 2)) n kb later l)

-- From 2^62 kB on the loop does not end: the size wraps around to 0, which is never above.
pub next_pow2_mb-runs : (n kb : ℕ) → 2 ^ 62 ≤ kb → next_pow2_from n (pos 1) (pos kb) ≡ none
next_pow2_mb-runs n kb l = never 64 (pos 1) n kb refl l
