-- ===== src/Audit/Tests.antt =====
-- internal/store/audit_hash.go, internal/store/config.go: small logs, with a checksum in the place
-- of SHA-256.
use mathlib.Core.List.Memᴰ
use lynceus.Prelude.{
  ℕ, ◌+◌, ◌%◌, ◌≡◌, ◌≢◌, ◌↔◌, refl, sym, ap, subst, ◌∙◌, none, some, [], ◌∷◌, ◌++◌, map, Memᴰ,
  arith, bytes_eq, ◌==◌, if◌then◌else◌, take,
}
use lynceus.Prelude.Order.{nat_order, list_order}
use lynceus.Prelude.Result.{Error, msg, ok, err}
use lynceus.Audit.Canonical.{
  Bytes, yes, no, member, no_members, Members, Codec, canonical_json, canonical_emit,
}
use lynceus.Audit.Hash.{HashedRow, row_bytes}
use lynceus.Audit.Hash.Injective.{Fits}
use lynceus.Audit.Log.{
  AuditEntry, AuditRow, AuditLog, no_faults, genesis, canonical_detail, new_record, null_if_empty,
  append_audit_returning,
}
use lynceus.Audit.Verify.{intact, found, broken, id_gap, detail_text, hashed, verify_chain}
use lynceus.Audit.Verify.Chain.{IsChain, verify_chain-IsChain}
use lynceus.Audit.Keeps.{IsLog, written, insert_fails, before, append-IsLog, append_after_failure}
use lynceus.Audit.Tamper.{NoCollision, read_row, verify_chain_tamper, verify_chain_deleted}

abbrev sum : Bytes → ℕ
sum [] = 0
sum (b ∷ bs) = b + sum bs

abbrev checksum : Bytes → Bytes
checksum b = sum b % 256 ∷ take 31 genesis

abbrev quoted : Bytes → Bytes
quoted s = b'"' ∷ s ++ b'"' ∷ []

abbrev true_text : Bytes
true_text = b't' ∷ b'r' ∷ b'u' ∷ b'e' ∷ []

abbrev codec : Codec
codec = record {
  sha256 = checksum;
  marshal = λ v. ok (canonical_emit quoted v);
  decode = λ b. if b == true_text then ok yes else err (msg "invalid");
  quote = quoted;
  jsonb_text = λ b. b;
}

abbrev entry : AuditEntry
entry = record {
  actor = b'a' ∷ [];
  action = b'r' ∷ [];
  server_id = [];
  data_tier = 2;
  detail = some yes;
}

abbrev empty_log : AuditLog
empty_log = record { rows = []; last_value = 0 }

entry_detail : canonical_detail codec entry.detail ≡ ok true_text
unfolding canonical_detail canonical_json canonical_emit
entry_detail = refl

entry_stable : canonical_json codec (detail_text codec (null_if_empty true_text)) ≡ ok true_text
unfolding canonical_json canonical_emit
entry_stable = refl

abbrev first_row : AuditRow
first_row = written codec empty_log entry 1234567 true_text

first-IsLog : IsLog codec (record { rows = first_row ∷ []; last_value = 1 })
first-IsLog = (
  (record { detail = true_text; canonical = entry_stable; hash = refl }, ((λ one. refl), tt)),
  refl,
)

append-IsLog_example :
    ((append_audit_returning codec no_faults empty_log entry 1234567).0
      ≡ ok (new_record codec empty_log entry 1234567 true_text))
    × ((append_audit_returning codec no_faults empty_log entry 1234567).1.rows ≡ first_row ∷ [])
    × IsLog codec (append_audit_returning codec no_faults empty_log entry 1234567).1
    × ((t : ℕ)
        → verify_chain codec
            (append_audit_returning codec no_faults empty_log entry 1234567).1
            none
            none
            t
          ≡ intact)
append-IsLog_example =
    append-IsLog codec empty_log entry 1234567 true_text (tt, refl) entry_detail entry_stable

lost : Error
lost = msg "connection lost"

append_after_failure_example :
    verify_chain codec
      (append_audit_returning codec no_faults
        (append_audit_returning codec
          (insert_fails lost)
          (before codec first_row [] entry entry 20 30 40 lost true_text true_text)
          entry
          20).1
        entry
        30).1
      none
      none
      40
    ≡ found (broken 1 (id_gap 2 3))
append_after_failure_example =
    append_after_failure codec first_row [] entry entry 20 30 40 lost true_text true_text
      first-IsLog entry_detail entry_detail

verify_chain-IsChain_example :
    (verify_chain codec empty_log none none 9 ≡ intact) ↔ IsChain codec []
verify_chain-IsChain_example = verify_chain-IsChain codec empty_log 9

-- The same row, with an empty text for NULL.
abbrev twin_row : AuditRow
twin_row = record {
  id = first_row.id;
  actor = first_row.actor;
  action = first_row.action;
  server_id = some [];
  data_tier = first_row.data_tier;
  detail = first_row.detail;
  at = first_row.at;
  prev_hash = first_row.prev_hash;
  row_hash = first_row.row_hash;
}

abbrev first_log : AuditLog
first_log = record { rows = first_row ∷ []; last_value = 1 }

abbrev twin_log : AuditLog
twin_log = record { rows = twin_row ∷ []; last_value = 1 }

abbrev hashed_first : HashedRow
hashed_first = hashed first_row true_text

first-Fits : Fits hashed_first
first-Fits = record {
  id = omega arith;
  prev = refl;
  actor = omega arith;
  action = omega arith;
  server_id = omega arith;
  tier = omega arith;
  detail = omega arith;
  at = omega arith;
}

ok_true :
    (d : Bytes) → canonical_json codec (detail_text codec (some true_text)) ≡ ok d → true_text ≡ d
unfolding canonical_json canonical_emit
ok_true d q = cc

first_row-hashed :
    (r : AuditRow) (d : Bytes)
    → Memᴰ r (first_row ∷ [])
    → canonical_json codec (detail_text codec r.detail) ≡ ok d
    → hashed_first ≡ hashed r d
first_row-hashed r d m q =
    let e = sym (Memᴰ.eq_of_singleton m) in
    let t = ok_true d (
      subst (λ (s : AuditRow). canonical_json codec (detail_text codec s.detail) ≡ ok d) (sym e)
        q) in
    λ i. hashed (e i) (t i)

twin_row-hashed :
    (r : AuditRow) (d : Bytes)
    → Memᴰ r (twin_row ∷ [])
    → canonical_json codec (detail_text codec r.detail) ≡ ok d
    → hashed_first ≡ hashed r d
twin_row-hashed r d m q =
    let e = sym (Memᴰ.eq_of_singleton m) in
    let t = ok_true d (
      subst (λ (s : AuditRow). canonical_json codec (detail_text codec s.detail) ≡ ok d) (sym e)
        q) in
    λ i. hashed (e i) (t i)

twins-NoCollision : NoCollision codec (first_row ∷ []) (twin_row ∷ [])
twins-NoCollision = record {
  same_bytes =
      λ r s d e m k p q h. ap row_bytes (sym (first_row-hashed r d m p) ∙ twin_row-hashed s e k q);
  left_fits = λ r d m p. subst Fits (first_row-hashed r d m p) first-Fits;
  right_fits = λ r d m p. subst Fits (twin_row-hashed r d m p) first-Fits;
}

first_intact : verify_chain codec first_log none none 9 ≡ intact
first_intact = (verify_chain-IsChain codec first_log 9).1 first-IsLog.0

twin_intact : verify_chain codec twin_log none none 9 ≡ intact
twin_intact =
    (verify_chain-IsChain codec twin_log 9).1
      (record { detail = true_text; canonical = entry_stable; hash = refl }, ((λ one. refl), tt))

verify_chain_tamper_example :
    map (read_row codec) (first_row ∷ []) ≡ map (read_row codec) (twin_row ∷ [])
verify_chain_tamper_example =
    verify_chain_tamper codec first_log twin_log 9 9 first_intact twin_intact refl refl
      twins-NoCollision

abbrev second_row : AuditRow
second_row = written codec first_log entry 2000000 true_text

both-IsChain : IsChain codec (second_row ∷ first_row ∷ [])
both-IsChain = (
  record { detail = true_text; canonical = entry_stable; hash = refl },
  ((refl, refl), first-IsLog.0),
)

verify_chain_deleted_example :
    verify_chain codec (record { rows = second_row ∷ []; last_value = 2 }) none none 9 ≡ intact
verify_chain_deleted_example =
    verify_chain_deleted codec [] second_row (first_row ∷ []) 2 9
      ((verify_chain-IsChain codec (record { rows = second_row ∷ first_row ∷ []; last_value = 2 })
          9).1
        both-IsChain)
      (omega arith)

abbrev key_a : Bytes
key_a = b'a' ∷ []

abbrev key_b : Bytes
key_b = b'b' ∷ []

abbrev ab : Members
ab = member (b'a' ∷ []) yes (member (b'b' ∷ []) no no_members)

abbrev ba : Members
ba = member (b'b' ∷ []) no (member (b'a' ∷ []) yes no_members)

keys_differ : key_a ≢ key_b
keys_differ h = let q : 97 ≡ 98 = ap sum h in omega (arith, q)
