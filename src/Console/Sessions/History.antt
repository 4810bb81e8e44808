-- ===== src/Console/Sessions/History.antt =====
-- internal/console/session.go: what an actor reads back of a cluster.
use lynceus.Prelude.{
  ℕ, zero, suc, ◌≤◌, ◌≡◌, refl, sym, subst, ap, ap₂, ◌∙◌, inl, inr, Bool, true, false, ◌&&◌, ltb,
  eqb, if◌then◌else◌, Option, none, some, List, [], ◌∷◌, take, length, find, any, All, Memᴰ,
  Bool-cases, &&_iff, bytes_eq, bytes_beq_iff, ◌==◌, arith, find-some, All-find-none,
}
use lynceus.Prelude.Int.{ℤ}
use lynceus.Prelude.Slices.{take-take, take_all, length-take_le}
use lynceus.Prelude.Dict.{get, get-put}
use lynceus.Audit.Canonical.{Bytes}
use lynceus.Console.Sessions.{
  Run, Sessions, session_key, capacity, new_sessions, runs_or_nil, trimmed, append, recent, get_run,
}

-- One call of `Append`.
pub record Appended : Type 0 where
  pub actor : Bytes
  pub cluster : Bytes
  pub run : Run

-- The sessions after some calls, the latest of which is first.
abbrev pub after : ℤ → List Appended → Sessions
after n [] = new_sessions n
after n (c ∷ earlier) = append (after n earlier) c.actor c.cluster c.run

-- The runs of one actor and cluster.
abbrev pub own : Bytes → Bytes → List Appended → List Run
own actor cluster [] = []
own actor cluster (c ∷ cs) =
    if (c.actor == actor) && (c.cluster == cluster)
    then c.run ∷ own actor cluster cs
    else own actor cluster cs

abbrev pub IsPlain : Bytes → Type 0
IsPlain b = any (λ x. eqb x 0) b ≡ false

head_of : Bytes → ℕ
head_of [] = 0
head_of (x ∷ xs) = x

tail_of : Bytes → Bytes
tail_of [] = []
tail_of (x ∷ xs) = xs

key_injective :
    (a b c d : Bytes)
    → IsPlain a
    → IsPlain b
    → session_key a c ≡ session_key b d
    → (a ≡ b) × (c ≡ d)
unfolding head_of tail_of
key_injective [] [] c d p q e = (refl, ap tail_of e)
key_injective [] (y ∷ b) c d p q e = let same : 0 ≡ y = ap head_of e in absurd (ground arith)
key_injective (x ∷ a) [] c d p q e = let same : x ≡ 0 = ap head_of e in absurd (ground arith)
key_injective (x ∷ a) (y ∷ b) c d p q e =
    let same : x ≡ y = ap head_of e in
    let (f, g) = key_injective a b c d (ground arith) (ground arith) (ap tail_of e) in
    (ap₂ ◌∷◌ same f, g)

-- Keys are equal exactly where actors and clusters are.
key_test :
    (a b c d : Bytes)
    → IsPlain a
    → IsPlain b
    → (session_key a c == session_key b d) ≡ ((a == b) && (c == d))
key_test a b c d p q = elim (Bool-cases (session_key a c == session_key b d)) [
  | inl e ↦
      let (f, g) = key_injective a b c d p q ((bytes_beq_iff _ _).0 e) in
      let x = (bytes_beq_iff a b).1 f in let y = (bytes_beq_iff c d).1 g in ground arith
  | inr e ↦ elim (Bool-cases ((a == b) && (c == d))) [
    | inl r ↦
        let (f, g) = (&&_iff _ _).0 r in
        let same = ap₂ session_key ((bytes_beq_iff a b).0 f) ((bytes_beq_iff c d).0 g) in
        let t = (bytes_beq_iff (session_key a c) (session_key b d)).1 same in absurd (cc)
    | inr r ↦ e ∙ sym r
  ]
]

trimmed-take : (n : ℕ) (rs : List Run) → trimmed n rs ≡ take n rs
trimmed-take n rs = elim (Bool-cases (ltb n (length rs))) [
  | inl q ↦ rw q refl
  | inr q ↦ rw q (sym (take_all n rs (ground arith)))
]

take-again : (n : ℕ) (r : Run) (rs : List Run) → take n (r ∷ take n rs) ≡ take n (r ∷ rs)
take-again zero r rs = refl
take-again (suc n) r rs = ap (λ t. r ∷ t) (take-take n (suc n) rs (omega arith))

recent-append :
    (s : Sessions) (c : Appended) (actor cluster : Bytes)
    → IsPlain c.actor
    → IsPlain actor
    → recent (append s c.actor c.cluster c.run) actor cluster ≡ (
        if (c.actor == actor) && (c.cluster == cluster)
        then take s.cap (c.run ∷ recent s actor cluster)
        else recent s actor cluster)
unfolding recent append
recent-append s c actor cluster p q =
    let k = session_key c.actor c.cluster in
    let mine = trimmed s.cap (c.run ∷ runs_or_nil (get k s.by_key)) in
    ap runs_or_nil (get-put k (session_key actor cluster) mine s.by_key)
    ∙ ap (λ b. runs_or_nil (if b then some mine else get (session_key actor cluster) s.by_key))
        (key_test c.actor actor c.cluster cluster p q)
    ∙ by_test ((c.actor == actor) && (c.cluster == cluster)) refl
  where
    by_test :
        (b : Bool)
        → ((c.actor == actor) && (c.cluster == cluster)) ≡ b
        → runs_or_nil (
            if b
            then some
                (trimmed s.cap (c.run ∷ runs_or_nil (get (session_key c.actor c.cluster) s.by_key)))
            else get (session_key actor cluster) s.by_key)
          ≡ (if b
              then take s.cap (c.run ∷ runs_or_nil (get (session_key actor cluster) s.by_key))
              else runs_or_nil (get (session_key actor cluster) s.by_key))
    by_test true e =
        let (f, g) = (&&_iff _ _).0 e in
        let same =
          ap₂ session_key ((bytes_beq_iff c.actor actor).0 f)
            ((bytes_beq_iff c.cluster cluster).0 g) in
        ap (λ k. trimmed s.cap (c.run ∷ runs_or_nil (get k s.by_key))) same ∙ trimmed-take s.cap _
    by_test false e = refl

-- The capacity does not change.
after-cap : (n : ℤ) (calls : List Appended) → (after n calls).cap ≡ capacity n
unfolding append
after-cap n [] = refl
after-cap n (c ∷ cs) = after-cap n cs

after-recent :
    (n : ℤ) (calls : List Appended) (actor cluster : Bytes)
    → All (λ c. IsPlain c.actor) calls
    → IsPlain actor
    → recent (after n calls) actor cluster ≡ take (capacity n) (own actor cluster calls)
unfolding recent get
after-recent n [] actor cluster h q = sym (take_all (capacity n) [] (omega arith))
after-recent n (c ∷ cs) actor cluster h q =
    recent-append (after n cs) c actor cluster h.0 q
    ∙ by_test ((c.actor == actor) && (c.cluster == cluster)) (after-recent n cs actor cluster h.1 q)
  where
    by_test :
        (b : Bool)
        → recent (after n cs) actor cluster ≡ take (capacity n) (own actor cluster cs)
        → (if b
            then take (after n cs).cap (c.run ∷ recent (after n cs) actor cluster)
            else recent (after n cs) actor cluster)
          ≡ take (capacity n) (if b then c.run ∷ own actor cluster cs else own actor cluster cs)
    by_test true ih =
        ap₂ (λ k rs. take k (c.run ∷ rs)) (after-cap n cs) ih
        ∙ take-again (capacity n) c.run (own actor cluster cs)
    by_test false ih = ih

-- A run that was found, or that no run has the id.
abbrev pub IsFound : Bytes → Option Run → List Run → Type 0
IsFound id none rs = All (λ r. (r.id == id) ≡ false) rs
IsFound id (some r) rs = Memᴰ r rs × (r.id ≡ id)

-- Where no actor's name has a NUL byte, after any calls an actor's recent runs of a cluster are
-- exactly its own last runs there, newest first and at most the capacity in number; and looking up
-- an id finds a run among them that has the id, or nothing when none of them has it.
pub recent-own :
    (n : ℤ) (calls : List Appended) (actor cluster id : Bytes)
    → All (λ c. IsPlain c.actor) calls
    → IsPlain actor
    → (recent (after n calls) actor cluster ≡ take (capacity n) (own actor cluster calls))
      × (length (recent (after n calls) actor cluster) ≤ capacity n)
      × IsFound id
          (get_run (after n calls) actor cluster id)
          (take (capacity n) (own actor cluster calls))
unfolding get_run
recent-own n calls actor cluster id h q =
    let same = after-recent n calls actor cluster h q in
    (
      same,
      rw same (length-take_le (capacity n) (own actor cluster calls)),
      found (find (λ r. r.id == id) (recent (after n calls) actor cluster)) refl,
    )
  where
    found :
        (o : Option Run)
        → find (λ r. r.id == id) (recent (after n calls) actor cluster) ≡ o
        → IsFound id o (take (capacity n) (own actor cluster calls))
    found none e =
        subst (λ rs. All (λ r. (r.id == id) ≡ false) rs) (after-recent n calls actor cluster h q)
          (All-find-none (λ (x : Run). x.id == id) (recent (after n calls) actor cluster) e)
    found (some r) e =
        let (m, t) = find-some (λ (x : Run). x.id == id) (recent (after n calls) actor cluster) e in
        (
          subst (λ rs. Memᴰ r rs) (after-recent n calls actor cluster h q) m,
          (bytes_beq_iff r.id id).0 t,
        )
