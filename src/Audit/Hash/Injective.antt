-- ===== src/Audit/Hash/Injective.antt =====
-- internal/store/audit_hash.go (`hashAuditRow`): the layout is unambiguous.
use lynceus.Prelude.{
  ℕ, zero, suc, ◌/◌, ◌%◌, ◌^◌, ◌<◌, ◌≡◌, refl, sym, ◌∙◌, ap, ap₂, [], ◌∷◌, ◌++◌, length, arith,
}
use lynceus.Audit.Canonical.{Bytes}
use lynceus.Audit.Hash.{put_uint, write_lp, HashedRow, row_bytes, hash_domain}

-- Every field fits its width: 8-byte id and time, 2-byte tier, 4-byte lengths, 32-byte hash.
pub record Fits (r : HashedRow) : Type 0 where
  pub id : r.id < 256 ^ 8
  pub prev : length r.prev ≡ 32
  pub actor : length r.actor < 256 ^ 4
  pub action : length r.action < 256 ^ 4
  pub server_id : length r.server_id < 256 ^ 4
  pub tier : r.tier < 256 ^ 2
  pub detail : length r.detail < 256 ^ 4
  pub at : r.at < 256 ^ 8

tail_of : Bytes → Bytes
tail_of [] = []
tail_of (b ∷ bs) = bs

head_of : Bytes → ℕ
head_of [] = 0
head_of (b ∷ bs) = b

pub cons-injective : {x y : ℕ} {xs ys : Bytes} → x ∷ xs ≡ y ∷ ys → (x ≡ y) × (xs ≡ ys)
unfolding tail_of head_of
cons-injective h = (ap head_of h, ap tail_of h)

pub put_uint-injective :
    (w n m : ℕ) (r s : Bytes)
    → n < 256 ^ w
    → m < 256 ^ w
    → put_uint w n r ≡ put_uint w m s
    → (n ≡ m) × (r ≡ s)
unfolding put_uint
put_uint-injective zero n m r s hn hm h = (omega arith, h)
put_uint-injective (suc w) n m r s hn hm h =
    let ih =
      put_uint-injective w (n / 256) (m / 256) (n % 256 ∷ r) (m % 256 ∷ s) (omega arith)
        (omega arith) h in
    let low = cons-injective ih.1 in (omega (arith, ih.0, low.0), low.1)

pub append-injective :
    (xs ys us vs : Bytes) → length xs ≡ length ys → xs ++ us ≡ ys ++ vs → (xs ≡ ys) × (us ≡ vs)
append-injective [] [] us vs l h = (refl, h)
append-injective [] (y ∷ ys) us vs l h = ground arith
append-injective (x ∷ xs) [] us vs l h = ground arith
append-injective (x ∷ xs) (y ∷ ys) us vs l h =
    let c = cons-injective h in
    let ih = append-injective xs ys us vs (omega arith) c.1 in (ap₂ ◌∷◌ c.0 ih.0, ih.1)

pub write_lp-injective :
    (s t r u : Bytes)
    → length s < 256 ^ 4
    → length t < 256 ^ 4
    → write_lp s r ≡ write_lp t u
    → (s ≡ t) × (r ≡ u)
unfolding write_lp
write_lp-injective s t r u hs ht h =
    let n = put_uint-injective 4 (length s) (length t) (s ++ r) (t ++ u) hs ht h in
    append-injective s t r u n.0 n.1

-- Rows whose fields fit their widths are written alike only if all their fields are equal.
pub row_bytes-injective : (r s : HashedRow) → Fits r → Fits s → row_bytes r ≡ row_bytes s → r ≡ s
unfolding row_bytes
row_bytes-injective r s f g h =
    let d = append-injective hash_domain hash_domain _ _ refl h in
    let i = put_uint-injective 8 r.id s.id _ _ f.id g.id d.1 in
    let p = append-injective r.prev s.prev _ _ (f.prev ∙ sym g.prev) i.1 in
    let a = write_lp-injective r.actor s.actor _ _ f.actor g.actor p.1 in
    let b = write_lp-injective r.action s.action _ _ f.action g.action a.1 in
    let v = write_lp-injective r.server_id s.server_id _ _ f.server_id g.server_id b.1 in
    let t = put_uint-injective 2 r.tier s.tier _ _ f.tier g.tier v.1 in
    let e = write_lp-injective r.detail s.detail _ _ f.detail g.detail t.1 in
    let n = put_uint-injective 8 r.at s.at [] [] f.at g.at e.1 in
    λ k. record {
      id = i.0 k;
      prev = p.0 k;
      actor = a.0 k;
      action = b.0 k;
      server_id = v.0 k;
      tier = t.0 k;
      detail = e.0 k;
      at = n.0 k;
    }
