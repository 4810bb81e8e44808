-- ===== src/Audit/Canonical.antt =====
-- internal/store/audit_hash.go (`canonicalJSON`, `canonicalEmit`): JSON with sorted keys and no
-- space. Text is its bytes. encoding/json, SHA-256 and PostgreSQL's jsonb are arguments.
use lynceus.Prelude.{ℕ, ◌≡◌, ap, List, [], ◌∷◌, ◌++◌, map, Permᴰ}
use lynceus.Prelude.Order.{nat_order, list_order}
use lynceus.Prelude.Sort.{sort, sort_forgets_order}
use lynceus.Prelude.Distinct.{Distinct, Distinct-same}
use lynceus.Prelude.Result.{Result, ok, label, ◌>>=◌}

abbrev pub Bytes : Type 0
Bytes = List ℕ

mutual
  -- What the decoder makes of a document, with numbers kept as written.
  pub data Json : Type 0 where
    null yes no : Json
    number text : Bytes → Json
    array : Items → Json
    object : Members → Json

  pub data Items : Type 0 where
    no_items : Items
    item : Json → Items → Items

  pub data Members : Type 0 where
    no_members : Members
    member : Bytes → Json → Members → Members

-- `sha256` is `sha256.Sum256`; `marshal` and `decode` are encoding/json's, `quote` is
-- `json.Marshal` of a string, and `jsonb_text` is what a jsonb column written with some text reads
-- back as text.
pub record Codec : Type 0 where
  pub sha256 : Bytes → Bytes
  pub marshal : Json → Result Bytes
  pub decode : Bytes → Result Json
  pub quote : Bytes → Bytes
  pub jsonb_text : Bytes → Bytes

unfoldable pub join_commas : List Bytes → Bytes
join_commas [] = []
join_commas (b ∷ []) = b
join_commas (b ∷ c ∷ bs) = b ++ b',' ∷ join_commas (c ∷ bs)

-- A member with its value written out.
abbrev pub member_text : (Bytes → Bytes) → Bytes × Bytes → Bytes
member_text quote (k, v) = quote k ++ b':' ∷ v

unfoldable mutual
  pub canonical_emit : (Bytes → Bytes) → Json → Bytes
  canonical_emit quote null = b'n' ∷ b'u' ∷ b'l' ∷ b'l' ∷ []
  canonical_emit quote yes = b't' ∷ b'r' ∷ b'u' ∷ b'e' ∷ []
  canonical_emit quote no = b'f' ∷ b'a' ∷ b'l' ∷ b's' ∷ b'e' ∷ []
  canonical_emit quote (number n) = n
  canonical_emit quote (text s) = quote s
  canonical_emit quote (array xs) = b'[' ∷ join_commas (emitted_items quote xs) ++ b']' ∷ []
  canonical_emit quote (object ms) =
      b'{' ∷ join_commas (map (member_text quote) (sort (λ p. p.0) (emitted_members quote ms)))
      ++ b'}' ∷ []

  pub emitted_items : (Bytes → Bytes) → Items → List Bytes
  emitted_items quote no_items = []
  emitted_items quote (item x xs) = canonical_emit quote x ∷ emitted_items quote xs

  pub emitted_members : (Bytes → Bytes) → Members → List (Bytes × Bytes)
  emitted_members quote no_members = []
  emitted_members quote (member k v ms) = (k, canonical_emit quote v) ∷ emitted_members quote ms

unfoldable pub canonical_json : Codec → Bytes → Result Bytes
canonical_json c [] = ok []
canonical_json c (b ∷ bs) = do
  v ← label "canonicalJSON: parse" (c.decode (b ∷ bs))
  ok (canonical_emit c.quote v)

-- An object's text does not depend on the order in which its members come: they are sorted by
-- key, and an object has no key twice.
pub canonical_emit-perm :
    (quote : Bytes → Bytes) (ms ns : Members)
    → Distinct (λ p. p.0) (emitted_members quote ms)
    → Permᴰ (emitted_members quote ms) (emitted_members quote ns)
    → canonical_emit quote (object ms) ≡ canonical_emit quote (object ns)
unfolding canonical_emit
canonical_emit-perm quote ms ns distinct p =
    ap (λ bs. b'{' ∷ join_commas (map (member_text quote) bs) ++ b'}' ∷ [])
      (sort_forgets_order (λ p. p.0) (λ a b m n h. Distinct-same (λ q. q.0) _ distinct m n h) p)
