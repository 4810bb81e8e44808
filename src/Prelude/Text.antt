-- ===== src/Prelude/Text.antt =====
-- Text as numbers, and Go's order on strings: by bytes, which is the order by code points.
use Prim.Native.Nat.{ℕ}
use Prim.Native.Char.{code}
use Prim.Native.String.{String}
use mathlib.Core.Path.{◌≡◌, refl, ap₂}
use mathlib.Core.Logic.{◌⊎◌}
use mathlib.Core.Bool.{Bool, true}
use mathlib.Core.List.{List, [], ◌∷◌}
use text.Mathlib.TextEquality.{Char-path}
use lynceus.Prelude.Order.{Order, nat_order, le_list, le_list_total, le_list_trans, le_list_antisym}

abbrev pub codes : String → List ℕ
codes String.[] = []
codes (String.◌∷◌ c s) = code c ∷ codes s

pub codes_injective : (s t : String) → codes s ≡ codes t → s ≡ t
codes_injective String.[] String.[] h = refl
codes_injective String.[] (String.◌∷◌ d t) h = cc
codes_injective (String.◌∷◌ c s) String.[] h = cc
codes_injective (String.◌∷◌ c s) (String.◌∷◌ d t) h =
    ap₂ String.◌∷◌ (Char-path c d (cc)) (codes_injective s t (cc))

abbrev pub le_string : String → String → Bool
le_string s t = le_list (codes s) (codes t)

pub le_string_total : (s t : String) → (le_string s t ≡ true) ⊎ (le_string t s ≡ true)
le_string_total s t = le_list_total (codes s) (codes t)

pub le_string_trans :
    (s t u : String) → le_string s t ≡ true → le_string t u ≡ true → le_string s u ≡ true
le_string_trans s t u = le_list_trans (codes s) (codes t) (codes u)

pub le_string_antisym : (s t : String) → le_string s t ≡ true → le_string t s ≡ true → s ≡ t
le_string_antisym s t h k = codes_injective s t (le_list_antisym (codes s) (codes t) h k)

instance abbrev pub string_order : Order String
string_order = record {
  le = le_string;
  le_total = le_string_total;
  le_trans = le_string_trans;
  le_antisym = le_string_antisym;
}
