-- ===== src/Prelude/Slices.antt =====
-- Go's slices of byte strings: `xs[n:]` is `drop`, and an index is the first or last of a byte.
use Prim.Native.Nat.{ℕ, zero, suc, ◌+◌, ◌≤◌}
use mathlib.Core.Path.{◌≡◌, refl, ap, ◌∙◌}
use mathlib.Core.Logic.{inl, inr}
use mathlib.Core.Bool.{false}
use mathlib.Core.Option.{Option, none, some}
use mathlib.Core.List.{List, [], ◌∷◌, ◌++◌}
use native.Mathlib.Omega.{arith}
use native.Mathlib.Numerals.{unary_clauses}
use lynceus.Prelude.Tests.{if◌then◌else◌, Option-cases, eqb}
use lynceus.Prelude.Lists.{length, take, any}

module _ {ℓ} {A : Type ℓ} where
  abbrev pub drop : ℕ → List A → List A
  drop zero xs = xs
  drop (suc n) [] = []
  drop (suc n) (x ∷ xs) = drop n xs

  pub take-drop : (n : ℕ) (xs : List A) → (take n xs ++ drop n xs) ≡ xs
  take-drop zero xs = refl
  take-drop (suc n) [] = refl
  take-drop (suc n) (x ∷ xs) = ap (λ t. x ∷ t) (take-drop n xs)

  pub length-take_le : (n : ℕ) (xs : List A) → length (take n xs) ≤ n
  length-take_le zero xs = omega arith
  length-take_le (suc n) [] = omega arith
  length-take_le (suc n) (x ∷ xs) = omega (arith, length-take_le n xs)

  pub length-take_below : (n : ℕ) (xs : List A) → length (take n xs) ≤ length xs
  length-take_below zero xs = omega arith
  length-take_below (suc n) [] = omega arith
  length-take_below (suc n) (x ∷ xs) = omega (arith, length-take_below n xs)

  pub length-take : (n : ℕ) (xs : List A) → n ≤ length xs → length (take n xs) ≡ n
  length-take zero xs h = refl
  length-take (suc n) [] h = omega arith
  length-take (suc n) (x ∷ xs) h = omega (arith, length-take n xs (omega arith))

  pub length-drop : (n : ℕ) (xs : List A) → n ≤ length xs → length (drop n xs) + n ≡ length xs
  length-drop zero xs h = omega arith
  length-drop (suc n) [] h = omega arith
  length-drop (suc n) (x ∷ xs) h = omega (arith, length-drop n xs (omega arith))

  pub take_all : (n : ℕ) (xs : List A) → length xs ≤ n → take n xs ≡ xs
  take_all zero [] h = refl
  take_all zero (x ∷ xs) h = absurd (omega arith)
  take_all (suc n) [] h = refl
  take_all (suc n) (x ∷ xs) h = ap (λ t. x ∷ t) (take_all n xs (omega arith))

  -- What follows the first `n` elements does not change them.
  pub take-append : (n : ℕ) (xs ys : List A) → n ≤ length xs → take n (xs ++ ys) ≡ take n xs
  take-append zero xs ys h = refl
  take-append (suc n) [] ys h = absurd (omega arith)
  take-append (suc n) (x ∷ xs) ys h = ap (λ t. x ∷ t) (take-append n xs ys (omega arith))

  pub drop-append : (n : ℕ) (xs ys : List A) → n ≤ length xs → drop n (xs ++ ys) ≡ (drop n xs ++ ys)
  drop-append zero xs ys h = refl
  drop-append (suc n) [] ys h = absurd (omega arith)
  drop-append (suc n) (x ∷ xs) ys h = drop-append n xs ys (omega arith)

  pub take-take : (n m : ℕ) (xs : List A) → n ≤ m → take n (take m xs) ≡ take n xs
  take-take zero m xs h = refl
  take-take (suc n) zero xs h = absurd (omega arith)
  take-take (suc n) (suc m) [] h = refl
  take-take (suc n) (suc m) (x ∷ xs) h = ap (λ t. x ∷ t) (take-take n m xs (omega arith))

  -- Two slices that meet are one.
  pub take_add : (n m : ℕ) (xs : List A) → take (n + m) xs ≡ (take n xs ++ take m (drop n xs))
  take_add zero m xs = let e : 0 + m ≡ m = omega arith in ap (λ k. take k xs) e
  take_add (suc n) zero [] = simp unary_clauses refl
  take_add (suc n) (suc m) [] = simp unary_clauses refl
  take_add (suc n) m (x ∷ xs) =
      let e : suc n + m ≡ suc (n + m) = omega arith in
      ap (λ k. take k (x ∷ xs)) e ∙ ap (λ t. x ∷ t) (take_add n m xs)

  pub drop_add : (n m : ℕ) (xs : List A) → drop (n + m) xs ≡ drop m (drop n xs)
  drop_add zero m xs = let e : 0 + m ≡ m = omega arith in ap (λ k. drop k xs) e
  drop_add (suc n) zero [] = simp unary_clauses refl
  drop_add (suc n) (suc m) [] = simp unary_clauses refl
  drop_add (suc n) m (x ∷ xs) =
      let e : suc n + m ≡ suc (n + m) = omega arith in ap (λ k. drop k (x ∷ xs)) e ∙ drop_add n m xs

-- `bytes.LastIndexByte`, whose -1 is `none`: the tail's answer decides.
abbrev pub last_step : ℕ → ℕ → Option ℕ → Option ℕ
last_step c x (some i) = some (suc i)
last_step c x none = if eqb x c then some 0 else none

abbrev pub last_index_byte : ℕ → List ℕ → Option ℕ
last_index_byte c [] = none
last_index_byte c (x ∷ xs) = last_step c x (last_index_byte c xs)

pub last_index_byte-none :
    (c : ℕ) (xs : List ℕ) → last_index_byte c xs ≡ none → any (λ b. eqb b c) xs ≡ false
last_index_byte-none c [] h = refl
last_index_byte-none c (x ∷ xs) h = elim (Option-cases (last_index_byte c xs)) [
  | inl e ↦ let r = last_index_byte-none c xs e in ground arith
  | inr (j, e) ↦ ground arith
]

-- The cut at the last `c`: it ends with one, and none comes after it.
abbrev pub IsLastCut : ℕ → List ℕ → ℕ → Type 0
IsLastCut c xs n =
    ((p : List ℕ) × (take n xs ≡ p ++ c ∷ []))
    × (any (λ b. eqb b c) (drop n xs) ≡ false)
    × (n ≤ length xs)

last_step-none : (c x : ℕ) {i : ℕ} → last_step c x none ≡ some i → (x ≡ c) × (i ≡ 0)
last_step-none c x h = ground arith

pub last_index_byte-some :
    (c : ℕ) (xs : List ℕ) {i : ℕ} → last_index_byte c xs ≡ some i → IsLastCut c xs (suc i)
last_index_byte-some c [] h = cc
last_index_byte-some c (x ∷ xs) {i} h = elim (Option-cases (last_index_byte c xs)) [
  | inl e ↦
      let (a, b) = last_step-none c x (rw e at h) in
      rw (a, b) (([], refl), last_index_byte-none c xs e, omega arith)
  | inr (j, e) ↦
      let ((p, q), r, l) = last_index_byte-some c xs e in
      let i_is : i ≡ suc j = ground arith in rw i_is ((x ∷ p, ap (λ t. x ∷ t) q), r, omega arith)
]
