-- ===== src/Prelude/Sort.antt =====
-- Stable insertion by a key, which models `sort.SliceStable` and, where equal keys mean equal
-- elements, `sort.Slice`.
use mathlib.Core.Path.{◌≡◌, refl, sym, ap₂, subst, ◌∙◌}
use mathlib.Core.Logic.{inl, inr}
use mathlib.Core.Bool.{Bool, true}
use mathlib.Core.List.{List, [], ◌∷◌}
use mathlib.Core.List.Memᴰ
use mathlib.Core.List.Permᴰ
use native.Mathlib.Omega.{arith}
use lynceus.Prelude.Tests.{if◌then◌else◌, Bool-cases}
use lynceus.Prelude.Lists.{Memᴰ, Permᴰ, All}
use lynceus.Prelude.Order.{Order}

module _ {ℓ} {A : Type ℓ} where
  pub perm_sym : {xs ys : List A} → Permᴰ xs ys → Permᴰ ys xs
  perm_sym Permᴰ.nil = Permᴰ.nil
  perm_sym (Permᴰ.cons e p) = Permᴰ.cons (sym e) (perm_sym p)
  perm_sym (Permᴰ.swap e f) = Permᴰ.swap (sym f) (sym e)
  perm_sym (Permᴰ.trans p q) = Permᴰ.trans (perm_sym q) (perm_sym p)

  pub perm-mem : {a : A} {xs ys : List A} → Permᴰ xs ys → Memᴰ a xs → Memᴰ a ys
  perm-mem Permᴰ.nil m = m
  perm-mem (Permᴰ.cons e p) m = elim (Memᴰ.cases_cons m) [
    | inl h ↦ Memᴰ.head (h ∙ e)
    | inr t ↦ Memᴰ.tail (perm-mem p t)
  ]
  perm-mem (Permᴰ.swap e f) m = elim (Memᴰ.cases_cons m) [
    | inl h ↦ Memᴰ.tail (Memᴰ.head (h ∙ e))
    | inr t ↦ elim (Memᴰ.cases_cons t) [
      | inl h ↦ Memᴰ.head (h ∙ f)
      | inr u ↦ Memᴰ.tail (Memᴰ.tail u)
    ]
  ]
  perm-mem (Permᴰ.trans p q) m = perm-mem q (perm-mem p m)

  pub All-perm {κ} : (P : A → Type κ) {xs ys : List A} → Permᴰ xs ys → All P xs → All P ys
  All-perm P Permᴰ.nil h = h
  All-perm P (Permᴰ.cons e p) h = (subst P e h.0, All-perm P p h.1)
  All-perm P (Permᴰ.swap e f) h = (subst P f h.1.0, (subst P e h.0, h.1.1))
  All-perm P (Permᴰ.trans p q) h = All-perm P q (All-perm P p h)

module _ {ℓ κ} {A : Type ℓ} {K : Type κ} ⦃o : Order K⦄ (key : A → K) where
  abbrev le_key : A → A → Bool
  le_key a b = o.le (key a) (key b)

  unfoldable pub insert : A → List A → List A
  insert a [] = a ∷ []
  insert a (x ∷ xs) = if le_key a x then a ∷ x ∷ xs else x ∷ insert a xs

  unfoldable pub sort : List A → List A
  unfolding insert
  sort [] = []
  sort (x ∷ xs) = insert x (sort xs)

  insert-perm : (a : A) (xs : List A) → Permᴰ (insert a xs) (a ∷ xs)
  unfolding insert
  insert-perm a [] = Permᴰ.refl (a ∷ [])
  insert-perm a (x ∷ xs) = elim (Bool-cases (le_key a x)) [
    | inl e ↦ rw e (Permᴰ.refl (a ∷ x ∷ xs))
    | inr e ↦ rw e (Permᴰ.trans (Permᴰ.cons refl (insert-perm a xs)) (Permᴰ.swap refl refl))
  ]

  pub sort-perm : (xs : List A) → Permᴰ (sort xs) xs
  unfolding sort
  sort-perm [] = Permᴰ.nil
  sort-perm (x ∷ xs) = Permᴰ.trans (insert-perm x (sort xs)) (Permᴰ.cons refl (sort-perm xs))

  -- Each element's key is at most the key of every later one.
  abbrev pub IsSorted : List A → Type (ℓ ⊔ κ)
  IsSorted [] = Unit
  IsSorted (x ∷ xs) = All (λ y. le_key x y ≡ true) xs × IsSorted xs

  insert-IsSorted : (a : A) (xs : List A) → IsSorted xs → IsSorted (insert a xs)
  unfolding insert
  insert-IsSorted a [] h = (tt, tt)
  insert-IsSorted a (x ∷ xs) h = elim (Bool-cases (le_key a x)) [
    | inl e ↦ rw e ((e, above e xs h.0), h)
    | inr e ↦ rw e (
      All-perm (λ y. le_key x y ≡ true) (perm_sym (insert-perm a xs))
          (ground (arith, o.le_total (key a) (key x)), h.0),
      insert-IsSorted a xs h.1,
    )
  ]
    where
      above :
          le_key a x ≡ true
          → (ys : List A) → All (λ y. le_key x y ≡ true) ys
          → All (λ y. le_key a y ≡ true) ys
      above e [] k = tt
      above e (y ∷ ys) k = (o.le_trans (key a) (key x) (key y) e k.0, above e ys k.1)

  pub sort-IsSorted : (xs : List A) → IsSorted (sort xs)
  unfolding sort
  sort-IsSorted [] = tt
  sort-IsSorted (x ∷ xs) = insert-IsSorted x (sort xs) (sort-IsSorted xs)

  insert_comm :
      (a b : A) (xs : List A)
      → (key a ≡ key b → a ≡ b)
      → insert a (insert b xs) ≡ insert b (insert a xs)
  unfolding insert
  insert_comm a b [] agree =
      ground (arith, o.le_total (key a) (key b), o.le_antisym (key a) (key b))
  insert_comm a b (x ∷ xs) agree = ground (
    arith,
    insert_comm a b xs agree,
    o.le_total (key a) (key b),
    o.le_antisym (key a) (key b),
    o.le_total (key a) (key x),
    o.le_total (key b) (key x),
    o.le_trans (key a) (key b) (key x),
    o.le_trans (key b) (key a) (key x),
    o.le_trans (key a) (key x) (key b),
    o.le_trans (key b) (key x) (key a),
  )

  -- Elements of the list with one key are one element.
  abbrev pub KeysAgree : List A → Type (ℓ ⊔ κ)
  KeysAgree xs = (a b : A) → Memᴰ a xs → Memᴰ b xs → key a ≡ key b → a ≡ b

  -- Where keys decide elements, the order of arrival is forgotten.
  pub sort_forgets_order : {xs ys : List A} → KeysAgree xs → Permᴰ xs ys → sort xs ≡ sort ys
  unfolding sort
  sort_forgets_order agree Permᴰ.nil = refl
  sort_forgets_order agree (Permᴰ.cons {a = a} {b = b} {l₁ = l} {l₂ = m} e p) =
      ap₂ insert e (sort_forgets_order (λ c d h k. agree c d (Memᴰ.tail h) (Memᴰ.tail k)) p)
  sort_forgets_order agree (Permᴰ.swap {a = a} {b = b} {l = l} e f) =
      insert_comm a b (sort l) (agree a b (Memᴰ.head refl) (Memᴰ.tail (Memᴰ.head refl)))
      ∙ ap₂ (λ c d. insert c (insert d (sort l))) f e
  sort_forgets_order agree (Permᴰ.trans {l₁ = l} {l₂ = m} p q) =
      sort_forgets_order agree p
      ∙ sort_forgets_order
          (λ c d h k. agree c d (perm-mem (perm_sym p) h) (perm-mem (perm_sym p) k)) q
