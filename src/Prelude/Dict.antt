-- ===== src/Prelude/Dict.antt =====
-- Go's maps as association lists: a missing key reads as `none`, and a write replaces.
use mathlib.Core.Path.{◌≡◌, refl, sym, ap, ap₂, ◌∙◌}
use mathlib.Core.List.{List, [], ◌∷◌}
use mathlib.Core.Option.{Option, none, some}
use mathlib.Core.Logic.{inl, inr}
use mathlib.Core.List.{Memᴰ}
use mathlib.Core.List.Memᴰ
use native.Mathlib.Omega.{arith}
use lynceus.Prelude.Tests.{if◌then◌else◌, Bool-cases}
use lynceus.Prelude.Equality.{Eq, ◌==◌, beq_refl}

abbrev pub Dict {ℓ κ} : Type ℓ → Type κ → Type (ℓ ⊔ κ)
Dict K V = List (K × V)

module _ {ℓ κ} {K : Type ℓ} {V : Type κ} ⦃e : Eq K⦄ where
  unfoldable pub get : K → Dict K V → Option V
  get k [] = none
  get k ((j, v) ∷ m) = if j == k then some v else get k m

  unfoldable pub put : K → V → Dict K V → Dict K V
  put k v [] = (k, v) ∷ []
  put k v ((j, w) ∷ m) = if j == k then (k, v) ∷ m else (j, w) ∷ put k v m

  pub get-put :
      (k j : K) (v : V) (m : Dict K V) → get j (put k v m) ≡ (if k == j then some v else get j m)
  unfolding get put
  get-put k j v [] = refl
  get-put k j v ((i, w) ∷ m) =
      ground (arith, e.beq_iff k j, e.beq_iff i k, e.beq_iff i j, get-put k j v m)

  pub get-put_self : (k : K) (v : V) (m : Dict K V) → get k (put k v m) ≡ some v
  get-put_self k v m = simp (get-put, beq_refl)

  -- No key occurs twice.
  abbrev pub IsMap : Dict K V → Type κ
  IsMap [] = Unit
  IsMap ((k, v) ∷ m) = (get k m ≡ none) × IsMap m

  pub put-IsMap : (k : K) (v : V) (m : Dict K V) → IsMap m → IsMap (put k v m)
  unfolding put get
  put-IsMap k v [] h = (refl, tt)
  put-IsMap k v ((j, w) ∷ m) h = elim (Bool-cases (j == k)) [
    | inl q ↦ rw (q, put) (rw (← (e.beq_iff j k).0 q) h.0, h.1)
    | inr q ↦
        rw (q, put)
          (get-put k j v m ∙ ground (arith, h.0, e.beq_iff j k, e.beq_iff k j), put-IsMap k v m h.1)
  ]

  pub mem-get : {k : K} {v : V} (m : Dict K V) → IsMap m → Memᴰ (k, v) m → get k m ≡ some v
  unfolding get
  mem-get [] h x = absurd (Memᴰ.not-nil x)
  mem-get {k = k} {v = v} ((j, w) ∷ m) h x = elim (Memᴰ.cases_cons x) [
    | inl q ↦
        let here : k ≡ j = ap (λ (p : K × V). p.0) q in
        let value : v ≡ w = ap (λ (p : K × V). p.1) q in ground (arith, e.beq_iff j k)
    | inr t ↦ let later = mem-get m h.1 t in ground (arith, e.beq_iff j k, h.0)
  ]

  pub get-mem : (k : K) {v : V} (m : Dict K V) → get k m ≡ some v → Memᴰ (k, v) m
  unfolding get
  get-mem k [] q = cc
  get-mem k {v = v} ((j, w) ∷ m) q = elim (Bool-cases (j == k)) [
    | inl c ↦
        let value : w ≡ v = ground arith in
        Memᴰ.head (ap₂ (λ a b. (a, b)) (sym ((e.beq_iff j k).0 c)) (sym value))
    | inr c ↦ Memᴰ.tail (get-mem k m (rw (c, get) at q))
  ]
