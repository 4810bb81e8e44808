-- ===== src/Collector/Reader/Privacy.antt =====
-- internal/collector/reader.go (`Read`): what leaves the collector, by the policy that it fetched.
use lynceus.Prelude.{
  String, Bool, true, false, ◌≡◌, ◌≢◌, refl, sym, subst, ◌∙◌, Option, some, List, [], ◌∷◌, ◌++◌,
  All, Permᴰ, Bool-cases, inl, inr, arith,
}
use lynceus.Prelude.Result.{Error, Result, ok, err, wrap}
use lynceus.Caps.{pg_stat_statements, query_text_t2}
use lynceus.Caps.Gate
use lynceus.Policy.{PolicyRow, IsTable}
use lynceus.Policy.Snapshot.{refresh_policy}
use lynceus.Policy.Resolve.{table_reader, refresh, gate_allowed_strict}
use lynceus.Ingest.Wire.{QueryStat, QueryStatRaw}
use lynceus.Collector.Reader.{
  PgQuery, is_normalized, normalize, fingerprint, stat_of, no_stats, Statement, Answer, Stats,
  read_statement, read_rows, read,
}

module _ (pg : PgQuery) where
  -- A statistic made of what pg_query gives for a text that it accepts.
  abbrev pub IsLiteralFree : QueryStat → Type 0
  IsLiteralFree q =
      (text : String) × (pg.normalize_text text ≡ ok q.normalized_query)
      × (pg.fingerprint_text text ≡ ok q.fingerprint)

  -- Tier 1 only: no raw text, and only literal-free statistics.
  abbrev pub IsTier1 : List QueryStat → List QueryStatRaw → Type 0
  IsTier1 qs raws = All IsLiteralFree qs × (raws ≡ [])

  All-snoc :
      (qs : List QueryStat) (q : QueryStat)
      → All IsLiteralFree qs
      → IsLiteralFree q
      → All IsLiteralFree (qs ++ q ∷ [])
  All-snoc [] q h k = (k, tt)
  All-snoc (x ∷ qs) q h k = (h.0, All-snoc qs q h.1 k)

  normalized_text :
      (t : String)
      → is_normalized (normalize pg t).1 ≡ true
      → pg.normalize_text t ≡ ok (normalize pg t).0
  unfolding normalize
  normalized_text t h = ground (arith, h)

  fingerprint_text : (t fp : String) → fingerprint pg t ≡ ok fp → pg.fingerprint_text t ≡ ok fp
  unfolding fingerprint
  fingerprint_text t fp h = ground (arith, h)

  read_statement-IsTier1 :
      (s : Statement) (acc : List QueryStat × List QueryStatRaw)
      → IsTier1 acc.0 acc.1
      → IsTier1 (read_statement pg false s acc).0 (read_statement pg false s acc).1
  unfolding read_statement
  read_statement-IsTier1 s acc h = elim (Bool-cases (is_normalized (normalize pg s.query).1)) [
    | inr y ↦ rw (read_statement, y) h
    | inl y ↦ rw (read_statement, y) (go (fingerprint pg s.query) refl (normalized_text s.query y))
  ]
    where
      go :
          (f : Result String)
          → fingerprint pg s.query ≡ f
          → pg.normalize_text s.query ≡ ok (normalize pg s.query).0
          → (let out : List QueryStat × List QueryStatRaw = elim f [
            | err e ↦ acc
            | ok fp ↦ (acc.0 ++ stat_of s fp (normalize pg s.query).0 ∷ [], acc.1)
          ] in
              IsTier1 out.0 out.1)
      go (err e) q t = h
      go (ok fp) q t = (All-snoc acc.0 _ h.0 (s.query, t, fingerprint_text s.query fp q), h.1)

  read_rows-IsTier1 :
      (e : Option Error) (rs : List (Result Statement)) (acc : List QueryStat × List QueryStatRaw)
      → IsTier1 acc.0 acc.1
      → IsTier1 (read_rows pg false e rs acc).stats (read_rows pg false e rs acc).raws
  unfolding read_rows
  read_rows-IsTier1 e [] acc h = h
  read_rows-IsTier1 e (err x ∷ rs) acc h = (tt, refl)
  read_rows-IsTier1 e (ok s ∷ rs) acc h =
      read_rows-IsTier1 e rs (read_statement pg false s acc) (read_statement-IsTier1 s acc h)

  -- Where the gate does not strictly allow raw text, the reader returns none, and all that it
  -- returns is made of normalised text and fingerprints.
  read-IsTier1 :
      (g : Gate.Gate) (db : String) (a : Answer)
      → Gate.allowed_strict g db query_text_t2 ≡ false
      → IsTier1 (read pg g db a).stats (read pg g db a).raws
  unfolding read
  read-IsTier1 g db a h = elim (Bool-cases (Gate.allowed g db pg_stat_statements)) [
    | inr d ↦ rw (read, d) (tt, refl)
    | inl y ↦ rw (read, y) (go a.rows (Gate.allowed_strict g db query_text_t2) h)
  ]
    where
      go :
          (rows : Result (List (Result Statement))) (ship_raw : Bool)
          → ship_raw ≡ false
          → (let out : Stats = elim rows [
            | err x ↦ no_stats (some (wrap "query pg_stat_statements" x))
            | ok rs ↦ read_rows pg ship_raw a.rows_err rs ([], [])
          ] in
              IsTier1 out.stats out.raws)
      go (err x) ship_raw q = (tt, refl)
      go (ok rs) ship_raw q =
          subst
            (λ b.
              IsTier1 (read_rows pg b a.rows_err rs ([], [])).stats
                (read_rows pg b a.rows_err rs ([], [])).raws)
            (sym q) (read_rows-IsTier1 a.rows_err rs ([], []) (tt, refl))

module _ (order_by : List PolicyRow → List PolicyRow)
    (order_by-perm : (rows : List PolicyRow) → Permᴰ (order_by rows) rows) (rows : List PolicyRow)
    (table : IsTable rows) (t2 : String → Bool × Bool) (server db base : String) (named : db ≢ "")
    (configured : base ≢ "") (g : Gate.Gate) where
  -- Where an api server is configured, and the collector's database has a name, after a refresh from
  -- a table with its constraint and with the server's tier-2 switch off, the reader returns no raw query
  -- text, and every statistic is made of the normalised text and fingerprint that pg_query gives.
  pub read_after_refresh :
      (pg : PgQuery) (a : Answer)
      → (t2 server).0 ≡ false
      → IsTier1 pg
          (read pg
            (refresh_policy base (refresh (table_reader order_by rows t2) server db) g)
            db
            a).stats
          (read pg
            (refresh_policy base (refresh (table_reader order_by rows t2) server db) g)
            db
            a).raws
  read_after_refresh pg a off = read-IsTier1 pg _ db a (
      gate_allowed_strict order_by order_by-perm rows table t2 server db base named configured g
      ∙ rw off refl)
