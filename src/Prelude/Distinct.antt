-- ===== src/Prelude/Distinct.antt =====
-- Lists whose elements have different keys: how they are built, and that sorting one by its keys
-- depends only on which elements it has.
use mathlib.Core.List.Memᴰ
use lynceus.Prelude.Equality.{Eq}
use lynceus.Prelude.Lists.{Memᴰ, Permᴰ, All-mem, flat_map, mem-flat_map}
use lynceus.Prelude.Order.{Order}
use lynceus.Prelude.Sort.{IsSorted, perm-mem, perm_sym}
use lynceus.Prelude.Dict.{Dict, IsMap, mem-get}
use mathlib.Core.Path.{◌≡◌, refl, sym, ap, ap₂, subst, ◌∙◌}
use mathlib.Core.Logic.{◌≢◌, ◌↔◌, inl, inr}
use mathlib.Core.Bool.{true}
use mathlib.Core.Option.{Option, none, some}
use mathlib.Core.List.{List, [], ◌∷◌, ◌++◌}

module _ {ℓ κ} {A : Type ℓ} {K : Type κ} (key : A → K) where
  abbrev pub Apart : A → List A → Type (ℓ ⊔ κ)
  Apart a xs = (b : A) → Memᴰ b xs → key a ≢ key b

  abbrev pub Distinct : List A → Type (ℓ ⊔ κ)
  Distinct [] = Unit
  Distinct (x ∷ xs) = Apart x xs × Distinct xs

  pub Distinct-append :
      (xs ys : List A)
      → Distinct xs
      → Distinct ys
      → ((a : A) → Memᴰ a xs → Apart a ys)
      → Distinct (xs ++ ys)
  Distinct-append [] ys hx hy c = hy
  Distinct-append (x ∷ xs) ys hx hy c = (
    λ b m. elim (Memᴰ.append_cases xs m) [ inl h ↦ hx.0 b h | inr h ↦ c x (Memᴰ.head refl) b h ],
    Distinct-append xs ys hx.1 hy (λ a m. c a (Memᴰ.tail m)),
  )

module _ {ℓ κ} {A : Type ℓ} {K : Type κ} (key : A → K) where
  pub Distinct-perm : {xs ys : List A} → Permᴰ xs ys → Distinct key xs → Distinct key ys
  Distinct-perm Permᴰ.nil h = h
  Distinct-perm (Permᴰ.cons e p) h =
      (λ b m. subst (λ x. key x ≢ key b) e (h.0 b (perm-mem (perm_sym p) m)), Distinct-perm p h.1)
  Distinct-perm (Permᴰ.swap {a = a} {b = b} {a' = a'} {b' = b'} e f) h = (
    λ c m. elim (Memᴰ.cases_cons m) [
      | inl q ↦ λ k. h.0 b (Memᴰ.head refl) (ap key (e ∙ sym q) ∙ sym k ∙ ap key (sym f))
      | inr t ↦ λ k. h.1.0 c t (ap key f ∙ k)
    ],
    (λ c m k. h.0 c (Memᴰ.tail m) (ap key e ∙ k), h.1.1),
  )
  Distinct-perm (Permᴰ.trans p q) h = Distinct-perm q (Distinct-perm p h)

module _ {ℓ κ ℓ' κ'} {A : Type ℓ} {I : Type κ} {B : Type ℓ'} {K : Type κ'} (index : A → I)
    (key : B → K) (f : A → List B) where
  -- Blocks of different index have different keys.
  pub Distinct-flat_map :
      (xs : List A)
      → Distinct index xs
      → ((a : A) → Memᴰ a xs → Distinct key (f a))
      → ((a c : A) → index a ≢ index c → (b : B) → Memᴰ b (f a) → Apart key b (f c))
      → Distinct key (flat_map f xs)
  Distinct-flat_map [] d each cross = tt
  Distinct-flat_map (x ∷ xs) d each cross =
      Distinct-append key (f x) (flat_map f xs) (each x (Memᴰ.head refl))
        (Distinct-flat_map xs d.1 (λ a m. each a (Memᴰ.tail m)) cross)
        (λ b m c n. let (y, hy, hc) = mem-flat_map f xs n in cross x y (d.0 y hy) b m c hc)

module _ {ℓ κ} {K : Type ℓ} {V : Type κ} ⦃e : Eq K⦄ where
  pub IsMap-Distinct : (m : Dict K V) → IsMap m → Distinct (λ (kv : K × V). kv.0) m
  IsMap-Distinct [] h = tt
  IsMap-Distinct ((k, v) ∷ m) h = (
    λ b n q. none_ne_some (sym h.0 ∙ mem-get m h.1 (subst (λ j. Memᴰ (j, b.1) m) (sym q) n)),
    IsMap-Distinct m h.1,
  )
    where
      none_ne_some : {v : V} → ◌≢◌ {A = Option V} none (some v)
      none_ne_some q = cc

module _ {ℓ κ} {A : Type ℓ} {K : Type κ} ⦃o : Order K⦄ (key : A → K) where
  -- Two sorted lists with the same elements, of different keys, are one list.
  pub IsSorted-unique :
      (xs ys : List A)
      → IsSorted key xs
      → IsSorted key ys
      → Distinct key xs
      → Distinct key ys
      → ((a : A) → Memᴰ a xs ↔ Memᴰ a ys)
      → xs ≡ ys
  IsSorted-unique [] [] sx sy dx dy same = refl
  IsSorted-unique [] (y ∷ ys) sx sy dx dy same = absurd (Memᴰ.not-nil ((same y).1 (Memᴰ.head refl)))
  IsSorted-unique (x ∷ xs) [] sx sy dx dy same = absurd (Memᴰ.not-nil ((same x).0 (Memᴰ.head refl)))
  IsSorted-unique (x ∷ xs) (y ∷ ys) sx sy dx dy same = ap₂ ◌∷◌ heads (
      IsSorted-unique xs ys sx.1 sy.1 dx.1 dy.1 (λ a. (
        later xs ys x y heads dx.0 (λ m. (same a).0 m),
        later ys xs y x (sym heads) dy.0 (λ m. (same a).1 m),
      )))
    where
      heads : x ≡ y
      heads = elim (Memᴰ.cases_cons ((same x).0 (Memᴰ.head refl))) [
        | inl q ↦ q
        | inr t ↦ elim (Memᴰ.cases_cons ((same y).1 (Memᴰ.head refl))) [
          | inl q ↦ sym q
          | inr u ↦ absurd (
              dx.0 y u (
                o.le_antisym (key x) (key y) (All-mem (λ b. o.le (key x) (key b) ≡ true) xs sx.0 u)
                  (All-mem (λ b. o.le (key y) (key b) ≡ true) ys sy.0 t)))
        ]
      ]

      later :
          (us vs : List A) (u v : A)
          → u ≡ v
          → Apart key u us
          → {a : A} → (Memᴰ a (u ∷ us) → Memᴰ a (v ∷ vs))
          → Memᴰ a us
          → Memᴰ a vs
      later us vs u v q d {a} f m = elim (Memᴰ.cases_cons (f (Memᴰ.tail m))) [
        | inl h ↦ absurd (d a m (ap key (q ∙ sym h)))
        | inr t ↦ t
      ]

module _ {ℓ κ} {A : Type ℓ} {K : Type κ} (key : A → K) where
  -- An element is determined by its key.
  pub Distinct-same :
      (xs : List A) {a b : A} → Distinct key xs → Memᴰ a xs → Memᴰ b xs → key a ≡ key b → a ≡ b
  Distinct-same [] d m n h = absurd (Memᴰ.not-nil m)
  Distinct-same (x ∷ xs) {a = a} {b = b} d m n h = elim (Memᴰ.cases_cons m) [
    | inl p ↦ elim (Memᴰ.cases_cons n) [
      | inl q ↦ p ∙ sym q
      | inr t ↦ absurd (d.0 b t (ap key (sym p) ∙ h))
    ]
    | inr s ↦ elim (Memᴰ.cases_cons n) [
      | inl q ↦ absurd (d.0 a s (ap key (sym q) ∙ sym h))
      | inr t ↦ Distinct-same xs d.1 s t h
    ]
  ]
