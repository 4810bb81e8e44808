-- ===== src/FleetView/Holding.antt =====
-- A property of a result's value, through the steps of a chain.
use lynceus.Prelude.{◌≡◌, subst}
use lynceus.Prelude.Result.{Result, ok, err, ◌>>=◌}

-- A property of the value where there is one.
abbrev pub Holds : {A : Type 0} → (A → Type 0) → Result A → Type 0
Holds P (ok x) = P x
Holds P (err e) = Unit

pub bind-Holds :
    {A B : Type 0} (P : A → Type 0) (Q : B → Type 0) (r : Result A) (next : A → Result B)
    → Holds P r
    → ((x : A) → P x → Holds Q (next x))
    → Holds Q (r >>= next)
bind-Holds P Q (ok x) next h k = k x h
bind-Holds P Q (err e) next h k = tt

pub any-Holds :
    {A B : Type 0} (Q : B → Type 0) (r : Result A) (next : A → Result B)
    → ((x : A) → Holds Q (next x))
    → Holds Q (r >>= next)
any-Holds Q (ok x) next k = k x
any-Holds Q (err e) next k = tt

pub Holds-ok : {A : Type 0} (P : A → Type 0) (r : Result A) {x : A} → Holds P r → r ≡ ok x → P x
Holds-ok P r h e = subst (Holds P) e h
