-- ===== src/Audit/Verify/Chain.antt =====
-- internal/store/config.go (`VerifyChain`): what an intact log is, without the walk.
use lynceus.Prelude.{
  ℕ, suc, true, not, ◌&&◌, ◌≡◌, ◌↔◌, refl, sym, ap, ◌∙◌, none, List, [], ◌∷◌, ◌++◌, filter, length,
  eqb, bytes_eq, ◌==◌, if◌then◌else◌, arith, Bool-cases, inl, inr, eqb_iff, beq_refl,
}
use lynceus.Prelude.Result.{Result, ok, err}
use lynceus.Audit.Canonical.{Bytes, Codec, canonical_json}
use lynceus.Audit.Hash.{hash_audit_row}
use lynceus.Audit.Log.{AuditRow, AuditLog, genesis}
use lynceus.Audit.Verify.{
  Verdict, intact, found, broken, detail_not_canonicalizable, id_gap, Walk, Progress, and_then,
  expected_prev, verify_hashes, going, stopped, detail_text, hashed, verify_row, verify_rows, start,
  oldest_first, verify_chain,
}

-- The row's hash is the hash of its fields.
pub record IsSound (c : Codec) (r : AuditRow) : Type 0 where
  pub detail : Bytes
  pub canonical : canonical_json c (detail_text c r.detail) ≡ ok detail
  pub hash : hash_audit_row c (hashed r detail) ≡ r.row_hash

-- The row follows the latest of the others; the very first row starts from the genesis.
abbrev pub IsLinked : AuditRow → List AuditRow → Type 0
IsLinked r [] = r.id ≡ 1 → r.prev_hash ≡ genesis
IsLinked r (q ∷ qs) = (r.id ≡ suc q.id) × (r.prev_hash ≡ q.row_hash)

-- Rows with the latest first.
abbrev pub IsChain : Codec → List AuditRow → Type 0
IsChain c [] = Unit
IsChain c (r ∷ rs) = IsSound c r × (IsLinked r rs × IsChain c rs)

-- The loop's variables after a walk over the rows.
abbrev pub walk_of : List AuditRow → Walk
walk_of [] = start
walk_of (r ∷ rs) = record {
  expected_prev = r.row_hash;
  idx = suc (length rs);
  last_id = r.id;
  walk_started = true;
}

-- A last row.
and_then_going : (p : Progress) → and_then p going ≡ p
and_then_going (stopped v) = refl
and_then_going (going w) = refl

module _ (c : Codec) where
  verify_rows-append :
      (w : Walk) (xs ys : List AuditRow)
      → verify_rows c w (xs ++ ys) ≡ and_then (verify_rows c w xs) (λ next. verify_rows c next ys)
  unfolding verify_rows
  verify_rows-append w [] ys = refl
  verify_rows-append w (x ∷ xs) ys = go (verify_row c w x) (λ next. verify_rows-append next xs ys)
    where
      go :
          (p : Progress)
          → ((next : Walk)
              → verify_rows c next (xs ++ ys)
                ≡ and_then (verify_rows c next xs) (λ last. verify_rows c last ys))
          → and_then p (λ next. verify_rows c next (xs ++ ys))
            ≡ and_then (and_then p (λ next. verify_rows c next xs)) (λ next. verify_rows c next ys)
      go (stopped v) ih = refl
      go (going next) ih = ih next

  hash_test :
      (r : AuditRow) (s : IsSound c r) → (hash_audit_row c (hashed r s.detail) == r.row_hash) ≡ true
  hash_test r s = (bytes_eq.beq_iff (hash_audit_row c (hashed r s.detail)) r.row_hash).1 s.hash

  verify_row-going :
      (r : AuditRow) (rs : List AuditRow)
      → IsSound c r
      → IsLinked r rs
      → verify_row c (walk_of rs) r ≡ going (walk_of (r ∷ rs))
  unfolding verify_row verify_hashes
  verify_row-going r [] s l =
      rw (s.canonical, verify_hashes, hash_test r s)
        (ground (arith, l, beq_refl r.prev_hash, bytes_eq.beq_iff r.prev_hash genesis))
  verify_row-going r (q ∷ qs) s l =
      rw (s.canonical, verify_hashes, hash_test r s)
        (ground (arith, l.0, l.1, bytes_eq.beq_iff r.prev_hash q.row_hash))

  going_hashes :
      (w next : Walk) (r : AuditRow) (detail : Bytes)
      → verify_hashes c w r detail ≡ going next
      → (r.prev_hash ≡ expected_prev w r)
        × (hash_audit_row c (hashed r detail) ≡ r.row_hash)
        × (next ≡ record {
          expected_prev = r.row_hash;
          idx = suc w.idx;
          last_id = r.id;
          walk_started = true;
        })
  unfolding verify_hashes
  going_hashes w next r detail h = ground (
    arith,
    bytes_eq.beq_iff r.prev_hash (expected_prev w r),
    bytes_eq.beq_iff (hash_audit_row c (hashed r detail)) r.row_hash,
  )

  going-verify_row :
      (r : AuditRow) (rs : List AuditRow) (next : Walk)
      → verify_row c (walk_of rs) r ≡ going next
      → IsSound c r × (IsLinked r rs × (next ≡ walk_of (r ∷ rs)))
  unfolding verify_row
  going-verify_row r rs next h = go rs (canonical_json c (detail_text c r.detail)) refl h
    where
      sound :
          (rs : List AuditRow) (d : Bytes)
          → canonical_json c (detail_text c r.detail) ≡ ok d
          → verify_hashes c (walk_of rs) r d ≡ going next
          → IsSound c r
      sound rs d q g = record {
        detail = d;
        canonical = q;
        hash = (going_hashes (walk_of rs) next r d g).1;
      }

      go :
          (rs : List AuditRow) (res : Result Bytes)
          → canonical_json c (detail_text c r.detail) ≡ res
          → (if (walk_of rs).walk_started && not (eqb r.id (suc (walk_of rs).last_id))
              then stopped (broken (walk_of rs).idx (id_gap (suc (walk_of rs).last_id) r.id))
              else elim res [
                | err x ↦ stopped (detail_not_canonicalizable (walk_of rs).idx x)
                | ok detail ↦ verify_hashes c (walk_of rs) r detail
              ])
            ≡ going next
          → IsSound c r × (IsLinked r rs × (next ≡ walk_of (r ∷ rs)))
      go [] (err x) q g = cc
      go [] (ok d) q g =
          let f = going_hashes start next r d g in
          (sound [] d q g, ((λ one. ground (arith, f.0, one)), f.2))
      go (p ∷ ps) (err x) q g = ground arith
      go (p ∷ ps) (ok d) q g = elim (Bool-cases (eqb r.id (suc p.id))) [
        | inr n ↦ absurd (ground (arith, rw n at g))
        | inl y ↦
            let g' = rw y at g in
            let f = going_hashes (walk_of (p ∷ ps)) next r d g' in
            (sound (p ∷ ps) d q g', (((eqb_iff r.id (suc p.id)).0 y, f.0), f.2))
      ]

  pub verify_rows-snoc :
      (rs : List AuditRow) (r : AuditRow)
      → verify_rows c start (oldest_first rs ++ r ∷ [])
        ≡ and_then (verify_rows c start (oldest_first rs)) (λ w. verify_row c w r)
  unfolding verify_rows
  verify_rows-snoc rs r =
      verify_rows-append start (oldest_first rs) (r ∷ [])
      ∙ ap (and_then (verify_rows c start (oldest_first rs)))
          (λ i w. and_then_going (verify_row c w r) i)

  pub IsChain-going :
      (rs : List AuditRow)
      → IsChain c rs
      → verify_rows c start (oldest_first rs) ≡ going (walk_of rs)
  unfolding verify_rows
  IsChain-going [] h = refl
  IsChain-going (r ∷ rs) h =
      verify_rows-snoc rs r ∙ rw (IsChain-going rs h.1.1) (verify_row-going r rs h.0 h.1.0)

  pub going-IsChain :
      (rs : List AuditRow) (w : Walk)
      → verify_rows c start (oldest_first rs) ≡ going w
      → IsChain c rs × (w ≡ walk_of rs)
  unfolding verify_rows
  going-IsChain [] w h = (tt, ground (arith, h))
  going-IsChain (r ∷ rs) w h =
      last (verify_rows c start (oldest_first rs)) (sym (verify_rows-snoc rs r) ∙ h)
        (λ v q. going-IsChain rs v q)
    where
      last :
          (p : Progress)
          → and_then p (λ next. verify_row c next r) ≡ going w
          → ((v : Walk) → p ≡ going v → IsChain c rs × (v ≡ walk_of rs))
          → IsChain c (r ∷ rs) × (w ≡ walk_of (r ∷ rs))
      last (stopped v) q ih = cc
      last (going v) q ih =
          let (chain, e) = ih v refl in
          let (sound, (link, f)) = going-verify_row r rs w (rw e at q) in
          ((sound, (link, chain)), f)

pub filter_all : (rs : List AuditRow) → filter (λ r. true) rs ≡ rs
filter_all [] = refl
filter_all (r ∷ rs) = ap (◌∷◌ r) (filter_all rs)

-- A full scan reports an intact log exactly when every row's hash is that of its fields, every row
-- has the next id and the previous row's hash, and a row with id 1 that is the oldest starts from
-- the genesis hash.
pub verify_chain-IsChain :
    (c : Codec) (log : AuditLog) (now : ℕ)
    → (verify_chain c log none none now ≡ intact) ↔ IsChain c log.rows
unfolding verify_chain
verify_chain-IsChain c log now =
    (to, λ h. rw (verify_chain, filter_all log.rows, IsChain-going c log.rows h) refl)
  where
    to : verify_chain c log none none now ≡ intact → IsChain c log.rows
    to h =
        go (verify_rows c start (oldest_first log.rows))
          (rw (filter_all log.rows, verify_chain) at h) (going-IsChain c log.rows)
      where
        go :
            (p : Progress)
            → elim p as (λ u. Verdict) [ stopped v ↦ found v | going w ↦ intact ] ≡ intact
            → ((w : Walk) → p ≡ going w → IsChain c log.rows × (w ≡ walk_of log.rows))
            → IsChain c log.rows
        go (going w) q k = (k w refl).0
        go (stopped v) q k = cc
