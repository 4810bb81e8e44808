-- ===== src/Prelude/Order.antt =====
-- Total orders as an interface: the native numbers, and lexicographic order on lists and pairs.
use Prim.Native.Nat.{ℕ}
use mathlib.Core.Path.{◌≡◌, refl}
use mathlib.Core.Logic.{◌⊎◌, inl, inr}
use mathlib.Core.Bool.{Bool, true, false}
use mathlib.Core.List.{List, [], ◌∷◌}
use native.Mathlib.Omega.{arith}
use lynceus.Prelude.Tests.{leb, if◌then◌else◌}

pub record Order {ℓ} (A : Type ℓ) : Type ℓ where
  pub le : A → A → Bool
  pub le_total : (a b : A) → (le a b ≡ true) ⊎ (le b a ≡ true)
  pub le_trans : (a b c : A) → le a b ≡ true → le b c ≡ true → le a c ≡ true
  pub le_antisym : (a b : A) → le a b ≡ true → le b a ≡ true → a ≡ b

pub nat_total : (a b : ℕ) → (leb a b ≡ true) ⊎ (leb b a ≡ true)
nat_total a b = ground arith

pub nat_trans : (a b c : ℕ) → leb a b ≡ true → leb b c ≡ true → leb a c ≡ true
nat_trans a b c p q = ground arith

pub nat_antisym : (a b : ℕ) → leb a b ≡ true → leb b a ≡ true → a ≡ b
nat_antisym a b p q = ground arith

instance abbrev pub nat_order : Order ℕ
nat_order = record {
  le = leb;
  le_total = nat_total;
  le_trans = nat_trans;
  le_antisym = nat_antisym;
}

module _ {ℓ} {A : Type ℓ} ⦃o : Order A⦄ where
  -- The first position where the lists differ decides, and a proper prefix comes first.
  abbrev pub le_list : List A → List A → Bool
  le_list [] ys = true
  le_list (x ∷ xs) [] = false
  le_list (x ∷ xs) (y ∷ ys) = if o.le x y then (if o.le y x then le_list xs ys else true) else false

  pub le_list_total : (a b : List A) → (le_list a b ≡ true) ⊎ (le_list b a ≡ true)
  le_list_total [] b = inl refl
  le_list_total (x ∷ xs) [] = inr refl
  le_list_total (x ∷ xs) (y ∷ ys) = ground (arith, o.le_total x y, le_list_total xs ys)

  pub le_list_trans :
      (a b c : List A) → le_list a b ≡ true → le_list b c ≡ true → le_list a c ≡ true
  le_list_trans [] b c p q = refl
  le_list_trans (x ∷ xs) [] c p q = cc
  le_list_trans (x ∷ xs) (y ∷ ys) [] p q = cc
  le_list_trans (x ∷ xs) (y ∷ ys) (z ∷ zs) p q =
      ground (arith, o.le_trans x y z, o.le_trans y z x, o.le_trans z x y, le_list_trans xs ys zs)

  pub le_list_antisym : (a b : List A) → le_list a b ≡ true → le_list b a ≡ true → a ≡ b
  le_list_antisym [] [] p q = refl
  le_list_antisym [] (y ∷ ys) p q = cc
  le_list_antisym (x ∷ xs) [] p q = cc
  le_list_antisym (x ∷ xs) (y ∷ ys) p q = ground (arith, o.le_antisym x y, le_list_antisym xs ys)

  instance abbrev pub list_order : Order (List A)
  list_order = record {
    le = le_list;
    le_total = le_list_total;
    le_trans = le_list_trans;
    le_antisym = le_list_antisym;
  }
