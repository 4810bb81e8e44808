-- ===== src/Prelude/Lists.antt =====
-- Lists measured by native numbers, with Boolean tests, and membership through the list functions.
use Prim.Native.Nat.{ℕ, zero, suc, ◌+◌}
use mathlib.Core.Path.{◌≡◌, refl, sym, ap, ◌∙◌}
use mathlib.Core.Logic.{inl, inr}
use mathlib.Core.Bool.{Bool, true, false, ◌&&◌, ◌||◌}
use mathlib.Core.List.{List, [], ◌∷◌, ◌++◌, append_assoc, Memᴰ}
use mathlib.Core.List.Memᴰ
use mathlib.Core.Option.{Option, none, some}
use native.Mathlib.Omega.{arith}
use lynceus.Prelude.Tests.{if◌then◌else◌, Bool-cases}
pub use mathlib.Core.List.{Memᴰ, Permᴰ}

module _ {ℓ} {A : Type ℓ} where
  abbrev pub length : List A → ℕ
  length [] = 0
  length (x ∷ xs) = suc (length xs)

  pub length-append : (xs ys : List A) → length (xs ++ ys) ≡ length xs + length ys
  length-append [] ys = omega arith
  length-append (x ∷ xs) ys = omega (arith, length-append xs ys)

  abbrev pub take : ℕ → List A → List A
  take zero xs = []
  take (suc n) [] = []
  take (suc n) (x ∷ xs) = x ∷ take n xs

  abbrev pub any : (A → Bool) → List A → Bool
  any p [] = false
  any p (x ∷ xs) = p x || any p xs

  abbrev pub all : (A → Bool) → List A → Bool
  all p [] = true
  all p (x ∷ xs) = p x && all p xs

  abbrev pub filter : (A → Bool) → List A → List A
  filter p [] = []
  filter p (x ∷ xs) = if p x then x ∷ filter p xs else filter p xs

  -- The first element that passes the test.
  abbrev pub find : (A → Bool) → List A → Option A
  find p [] = none
  find p (x ∷ xs) = if p x then some x else find p xs

  -- A predicate by recursion computes to tuples, which the tactics read and build.
  abbrev pub All {κ} : (A → Type κ) → List A → Type κ
  All P [] = Unit
  All P (x ∷ xs) = P x × All P xs

module _ {ℓ} {A : Type ℓ} where
  pub mem-filter :
      (p : A → Bool) {a : A} (xs : List A) → Memᴰ a (filter p xs) → Memᴰ a xs × (p a ≡ true)
  mem-filter p [] m = absurd (Memᴰ.not-nil m)
  mem-filter p {a} (x ∷ xs) m = go (mem-filter p xs) (p x) refl m
    where
      go :
          (Memᴰ a (filter p xs) → Memᴰ a xs × (p a ≡ true))
          → (b : Bool) → p x ≡ b
          → Memᴰ a (if b then x ∷ filter p xs else filter p xs)
          → Memᴰ a (x ∷ xs) × (p a ≡ true)
      go ih true e (Memᴰ.head q) = (Memᴰ.head q, rw q e)
      go ih true e (Memᴰ.tail t) = let r = ih t in (Memᴰ.tail r.0, r.1)
      go ih false e t = let r = ih t in (Memᴰ.tail r.0, r.1)

  pub filter-mem :
      (p : A → Bool) {a : A} {xs : List A} → p a ≡ true → Memᴰ a xs → Memᴰ a (filter p xs)
  filter-mem p h (Memᴰ.head {x = x} {xs = xs} e) =
      let hx : p x ≡ true = rw (← e) h in rw hx (Memᴰ.head e)
  filter-mem p {a} h (Memᴰ.tail {x = x} {xs = xs} t) = go (p x) (filter-mem p h t)
    where
      go : (b : Bool) → Memᴰ a (filter p xs) → Memᴰ a (if b then x ∷ filter p xs else filter p xs)
      go true r = Memᴰ.tail r
      go false r = r

  pub find-some :
      (p : A → Bool) (xs : List A) {a : A} → find p xs ≡ some a → Memᴰ a xs × (p a ≡ true)
  find-some p [] h = cc
  find-some p (x ∷ xs) {a} h = elim (Bool-cases (p x)) [
    | inl e ↦ let here : a ≡ x = ground arith in (Memᴰ.head here, rw here e)
    | inr e ↦ let r = find-some p xs (rw e at h) in (Memᴰ.tail r.0, r.1)
  ]

  pub find-none : (p : A → Bool) (xs : List A) {a : A} → find p xs ≡ none → Memᴰ a xs → p a ≡ false
  find-none p [] h m = absurd (Memᴰ.not-nil m)
  find-none p (x ∷ xs) {a} h m = elim (Bool-cases (p x)) [
    | inl e ↦ ground arith
    | inr e ↦ elim (Memᴰ.cases_cons m) [
      | inl here ↦ rw here e
      | inr t ↦ find-none p xs (rw e at h) t
    ]
  ]

  pub All-find-none : (p : A → Bool) (xs : List A) → find p xs ≡ none → All (λ x. p x ≡ false) xs
  All-find-none p [] h = tt
  All-find-none p (x ∷ xs) h = elim (Bool-cases (p x)) [
    | inl e ↦ absurd (ground arith)
    | inr e ↦ (e, All-find-none p xs (rw e at h))
  ]

  pub All-any-false : (p : A → Bool) (xs : List A) → any p xs ≡ false → All (λ x. p x ≡ false) xs
  All-any-false p [] h = tt
  All-any-false p (x ∷ xs) h = elim (Bool-cases (p x)) [
    | inl e ↦ absurd (ground arith)
    | inr e ↦ (e, All-any-false p xs (rw e at h))
  ]

  pub any-true : (p : A → Bool) (xs : List A) → any p xs ≡ true → (a : A) × Memᴰ a xs × (p a ≡ true)
  any-true p [] h = cc
  any-true p (x ∷ xs) h = elim (Bool-cases (p x)) [
    | inl e ↦ (x, Memᴰ.head refl, e)
    | inr e ↦ let (a, m, q) = any-true p xs (rw e at h) in (a, Memᴰ.tail m, q)
  ]

  pub any-false : (p : A → Bool) (xs : List A) {a : A} → any p xs ≡ false → Memᴰ a xs → p a ≡ false
  any-false p [] h m = absurd (Memᴰ.not-nil m)
  any-false p (x ∷ xs) h m = elim (Bool-cases (p x)) [
    | inl e ↦ ground arith
    | inr e ↦ elim (Memᴰ.cases_cons m) [
      | inl here ↦ rw here e
      | inr t ↦ any-false p xs (rw e at h) t
    ]
  ]

  pub All-mem {κ} : (P : A → Type κ) {a : A} (xs : List A) → All P xs → Memᴰ a xs → P a
  All-mem P [] h m = absurd (Memᴰ.not-nil m)
  All-mem P (x ∷ xs) h m = elim (Memᴰ.cases_cons m) [
    | inl e ↦ subst_back e h.0
    | inr t ↦ All-mem P xs h.1 t
  ]
    where
      subst_back : {b : A} → b ≡ x → P x → P b
      subst_back e q = rw e q

module _ {ℓ κ} {A : Type ℓ} (P : A → Type κ) where
  pub All-mem-all : (xs : List A) → ((a : A) → Memᴰ a xs → P a) → All P xs
  All-mem-all [] h = tt
  All-mem-all (x ∷ xs) h = (h x (Memᴰ.head refl), All-mem-all xs (λ a m. h a (Memᴰ.tail m)))

module _ {ℓ κ} {A : Type ℓ} {B : Type κ} where
  abbrev pub flat_map : (A → List B) → List A → List B
  flat_map f [] = []
  flat_map f (x ∷ xs) = f x ++ flat_map f xs

  pub flat_map-append :
      (f : A → List B) (xs ys : List A) → flat_map f (xs ++ ys) ≡ (flat_map f xs ++ flat_map f ys)
  flat_map-append f [] ys = refl
  flat_map-append f (x ∷ xs) ys =
      ap (λ r. f x ++ r) (flat_map-append f xs ys)
      ∙ sym (append_assoc (f x) (flat_map f xs) (flat_map f ys))

  pub flat_map-mem :
      (f : A → List B) {a : A} {b : B} {xs : List A}
      → Memᴰ a xs
      → Memᴰ b (f a)
      → Memᴰ b (flat_map f xs)
  flat_map-mem f {b = b} (Memᴰ.head {x = x} {xs = xs} e) m =
      Memᴰ.append_left (flat_map f xs) (subst_in e m)
    where
      subst_in : {c : A} → c ≡ x → Memᴰ b (f c) → Memᴰ b (f x)
      subst_in e q = rw (← e) q
  flat_map-mem f (Memᴰ.tail {x = x} t) m = Memᴰ.append_right (f x) (flat_map-mem f t m)

  pub mem-flat_map :
      (f : A → List B) {b : B} (xs : List A)
      → Memᴰ b (flat_map f xs)
      → (a : A) × Memᴰ a xs × Memᴰ b (f a)
  mem-flat_map f [] m = absurd (Memᴰ.not-nil m)
  mem-flat_map f (x ∷ xs) m = elim (Memᴰ.append_cases (f x) m) [
    | inl h ↦ (x, Memᴰ.head refl, h)
    | inr t ↦ let r = mem-flat_map f xs t in (r.0, Memᴰ.tail r.1, r.2)
  ]

pub append-All {ℓ κ} :
    {A : Type ℓ} (P : A → Type κ) (xs ys : List A) → All P xs → All P ys → All P (xs ++ ys)
append-All P [] ys h k = k
append-All P (x ∷ xs) ys h k = (h.0, append-All P xs ys h.1 k)
