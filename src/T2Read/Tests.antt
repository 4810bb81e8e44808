-- ===== src/T2Read/Tests.antt =====
-- internal/store/t2_read.go: an authorised read, with a checksum in the place of SHA-256.
use lynceus.Prelude.{true, ◌≡◌, refl, some, List, [], ◌∷◌}
use lynceus.Prelude.Int.{pos}
use lynceus.Prelude.Text.{codes}
use lynceus.Prelude.Result.{Result, ok}
use lynceus.Policy.{PolicySource, server_default}
use lynceus.Policy.Snapshot.{PolicyReader}
use lynceus.Ingest.Rows.{QueryStatRow, unix}
use lynceus.Audit.Canonical.{yes, Codec, canonical_json}
use lynceus.Audit.Log.{
  AuditLog, no_faults, canonical_detail, append_audit_tx, append_audit_returning,
}
use lynceus.T2Read.{T2ReadRequest, Render, read_entry, read_t2_query_stats}
use lynceus.T2Read.Audited.{IsRecorded, read_t2_query_stats_audited}

abbrev conf : PolicyReader
conf = record {
  list_capability_policies = λ s. ok [];
  server_t2_enabled = λ s. ok (true, true);
  effective_capability = λ s d c. ok (some (true, server_default));
}

abbrev pub codec : Codec
codec = record {
  sha256 = λ b. [];
  marshal = λ v. ok [];
  decode = λ b. ok yes;
  quote = λ b. b;
  jsonb_text = λ b. b;
}

abbrev render : Render
render = record { utf8 = codes; rfc3339 = λ t. []; decimal = λ n. [] }

abbrev request : T2ReadRequest
request = record {
  server_id = "s1";
  database_name = "app";
  capability = "query_text_t2";
  actor = "ann";
  since = 0;
  until = 10;
  limit = pos 5;
}

abbrev row : QueryStatRow
row = record {
  server_id = "s1";
  collected_at = unix (pos 7);
  fingerprint = "f1";
  normalized_query = "select $1";
  raw_query = "select 42";
  data_tier = 2;
  calls = pos 1;
  total_time_ms = 0;
  mean_time_ms = 0;
  rows = pos 1;
  shared_blks_hit = pos 0;
  shared_blks_read = pos 0;
}

abbrev rows_read : Result (List QueryStatRow)
rows_read = ok (row ∷ [])

abbrev empty_log : AuditLog
empty_log = record { rows = []; last_value = 0 }

read_ok :
    (read_t2_query_stats conf codec no_faults render 5 (ok (row ∷ [])) request empty_log).0
    ≡ ok (row ∷ [])
unfolding read_t2_query_stats append_audit_returning append_audit_tx canonical_detail canonical_json
    read_entry
read_ok = refl

read_t2_query_stats_audited_example :
    (conf.server_t2_enabled "s1" ≡ ok (true, true))
    × ((source : PolicySource) × (conf.effective_capability "s1" "app" "query_text_t2"
          ≡ ok (some (true, source))))
    × (rows_read ≡ ok (row ∷ []))
    × IsRecorded render request
        (read_t2_query_stats conf codec no_faults render 5 (ok (row ∷ [])) request empty_log).1
        []
read_t2_query_stats_audited_example =
    read_t2_query_stats_audited conf codec no_faults render 5 (ok (row ∷ [])) request empty_log
      (row ∷ []) read_ok
