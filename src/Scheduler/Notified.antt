-- ===== src/Scheduler/Notified.antt =====
-- internal/checks/scheduler.go: what a tick tells the notifier, and what it writes.
use lynceus.Prelude.{
  ◌≡◌, refl, subst, ap, ◌↔◌, ◌⊎◌, inl, inr, String, Bool, true, false, not, ◌&&◌, if◌then◌else◌,
  List, [], ◌∷◌, map, any, Memᴰ, Bool-cases, any-true, any-false, arith, eq_iff, ◌∙◌, sym,
  string_eq,
}
use lynceus.Prelude.Result.{Result, ok, err}
use mathlib.Core.List.Memᴰ
use mathlib.Core.Bool.{false≢true}
use lynceus.Ingest.Rows.{Time}
use lynceus.Checks.{Status, firing, passing, CheckResult, Check, Input, run}
use lynceus.Scheduler.Tick.{
  MuteRow, silences, is_muted, to_row, Event, notified, ChecksResultRow, World, is_firing,
  notify_all, mutes_of, mutes_or_none, and_then, run_server, run_servers, run_once, Outcome,
}

-- A mute of the result's check, for every object or for the result's.
abbrev pub IsMute : MuteRow → CheckResult → Type 0
IsMute m r = (m.check_id ≡ r.check_id) × ((m.object ≡ "") ⊎ (m.object ≡ r.object))

-- The results to tell of: firing, and matched by no mute.
abbrev pub IsLoud : List MuteRow → CheckResult → Type 0
IsLoud mutes r = (r.status ≡ firing) × ((m : MuteRow) → Memᴰ m mutes → ¬ IsMute m r)

silences_iff : (m : MuteRow) (r : CheckResult) → (silences r m ≡ true) ↔ IsMute m r
silences_iff m r =
    ground (arith, eq_iff m.check_id r.check_id, eq_iff m.object "", eq_iff m.object r.object)

-- The mutes that were read, or none where they could not be.
abbrev pub AreMutes : Result (List MuteRow) → List MuteRow → Type 0
AreMutes (ok ms) mutes = mutes ≡ ms
AreMutes (err e) mutes = mutes ≡ []

loud :
    (mutes : List MuteRow) (r : CheckResult)
    → (not (is_muted mutes r) && is_firing r.status) ≡ true
    → IsLoud mutes r
unfolding is_muted
loud mutes r q = (
  fires r.status (ground arith),
  λ m k h.
      false≢true (sym (any-false (silences r) mutes (ground arith) k) ∙ (silences_iff m r).1 h),
)
  where
    fires : (s : Status) → is_firing s ≡ true → s ≡ firing
    fires firing e = refl
    fires passing e = cc

quiet :
    (mutes : List MuteRow) (r : CheckResult)
    → IsLoud mutes r
    → (not (is_muted mutes r) && is_firing r.status) ≡ true
unfolding is_muted
quiet mutes r (f, h) = elim (Bool-cases (any (silences r) mutes)) [
  | inl q ↦ let (m, k, e) = any-true (silences r) mutes q in absurd (h m k ((silences_iff m r).0 e))
  | inr q ↦ rw (q, f) refl
]

notify_all-mem :
    (mutes : List MuteRow) (rs : List CheckResult) {e : Event}
    → Memᴰ e (notify_all mutes rs)
    → (r : CheckResult) × (e ≡ notified r) × Memᴰ r rs × IsLoud mutes r
unfolding notify_all
notify_all-mem mutes [] m = absurd (Memᴰ.not-nil m)
notify_all-mem mutes (r ∷ rs) {e} m =
    elim (Bool-cases (not (is_muted mutes r) && is_firing r.status)) [
      | inl q ↦ elim (Memᴰ.cases_cons (rw (notify_all, q) at m)) [
        | inl h ↦ (r, h, Memᴰ.head refl, loud mutes r q)
        | inr t ↦ let (x, p, k, l) = notify_all-mem mutes rs t in (x, p, Memᴰ.tail k, l)
      ]
      | inr q ↦
          let (x, p, k, l) = notify_all-mem mutes rs (rw (notify_all, q) at m) in
          (x, p, Memᴰ.tail k, l)
    ]

mem-notify_all :
    (mutes : List MuteRow) (rs : List CheckResult) {r : CheckResult}
    → Memᴰ r rs
    → IsLoud mutes r
    → Memᴰ (notified r) (notify_all mutes rs)
unfolding notify_all
mem-notify_all mutes [] m l = absurd (Memᴰ.not-nil m)
mem-notify_all mutes (x ∷ xs) {r} m l = elim (Memᴰ.cases_cons m) [
  | inl h ↦
      let q : (not (is_muted mutes x) && is_firing x.status) ≡ true = rw (← h) (quiet mutes r l) in
      rw (notify_all, q) (Memᴰ.head (ap notified h))
  | inr t ↦ kept (not (is_muted mutes x) && is_firing x.status) (mem-notify_all mutes xs t l)
]
  where
    kept :
        (b : Bool)
        → Memᴰ (notified r) (notify_all mutes xs)
        → Memᴰ (notified r) (if b then notified x ∷ notify_all mutes xs else notify_all mutes xs)
    kept true h = Memᴰ.tail h
    kept false h = h

module _ (w : World) (checks : List Check) (now : Time) where
  -- What a tick is about to tell: a loud result of a server whose input was assembled.
  abbrev pub IsDue : List String → CheckResult → Type 0
  IsDue ss r =
      (s : String) × Memᴰ s ss
      × ((input : Input) × (w.input_of s ≡ ok input)
          × Memᴰ r (run input checks)
          × ((mutes : List MuteRow) × AreMutes (w.mutes s) mutes × IsLoud mutes r))

  mutes_of-AreMutes : (s : String) → AreMutes (w.mutes s) (mutes_of w checks now s)
  mutes_of-AreMutes s = go (w.mutes s)
    where
      go : (r : Result (List MuteRow)) → AreMutes r (mutes_or_none r)
      go (ok ms) = refl
      go (err e) = refl

  mutes_same :
      (s : String) (ms : List MuteRow) → AreMutes (w.mutes s) ms → ms ≡ mutes_of w checks now s
  mutes_same s ms h = go (w.mutes s) h
    where
      go : (r : Result (List MuteRow)) → AreMutes r ms → ms ≡ mutes_or_none r
      go (ok ns) k = k
      go (err e) k = k

  abbrev IsOk : Outcome → Type 0
  IsOk o = o.1 ≡ ok tt

  DueAt : String → CheckResult → Type 0
  DueAt s r =
      (input : Input) × (w.input_of s ≡ ok input)
      × Memᴰ r (run input checks)
      × ((mutes : List MuteRow) × AreMutes (w.mutes s) mutes × IsLoud mutes r)

  IsDue-cases :
      (s : String) (ss : List String) {r : CheckResult} → IsDue (s ∷ ss) r → DueAt s r ⊎ IsDue ss r
  unfolding DueAt
  IsDue-cases s ss {r} (t, m, d) = elim (Memᴰ.cases_cons m) [
    | inl e ↦ inl (subst (λ x. DueAt x r) e d)
    | inr k ↦ inr (t, k, d)
  ]

  run_servers-notified :
      (ss : List String)
      → (run_servers w checks now ss).1 ≡ ok tt
      → (r : CheckResult) → Memᴰ (notified r) (run_servers w checks now ss).0 ↔ IsDue ss r
  unfolding run_servers DueAt
  run_servers-notified [] h r = (λ m. absurd (Memᴰ.not-nil m), λ d. absurd (Memᴰ.not-nil d.1))
  run_servers-notified (s ∷ ss) h r = go (run_servers-notified ss) (w.input_of s) refl h
    where
      later : IsDue ss r → IsDue (s ∷ ss) r
      later (t, m, d) = (t, Memᴰ.tail m, d)

      tell :
          ((run_servers w checks now ss).1 ≡ ok tt
            → (x : CheckResult) → Memᴰ (notified x) (run_servers w checks now ss).0 ↔ IsDue ss x)
          → (input : Input) (rows : List ChecksResultRow) → w.input_of s ≡ ok input
          → (u : Result (Unit {0}))
          → (and_then
              (notify_all (mutes_of w checks now s) (run input checks))
              rows
              (run_servers w checks now ss)
              u).1
            ≡ ok tt
          → Memᴰ
              (notified r)
              (and_then
                (notify_all (mutes_of w checks now s) (run input checks))
                rows
                (run_servers w checks now ss)
                u).0
            ↔ IsDue (s ∷ ss) r
      tell ih input rows q (err e) h = absurd (cc)
      tell ih input rows q (ok u) h =
          let rec = ih h r in
          let sent = notify_all (mutes_of w checks now s) (run input checks) in
          (
            λ m. elim (Memᴰ.append_cases sent m) [
              | inl k ↦
                  let (x, p, i, l) =
                    notify_all-mem (mutes_of w checks now s) (run input checks) k in
                  let same : r ≡ x = ground arith in
                  (
                    s,
                    Memᴰ.head refl,
                    (
                      input,
                      q,
                      rw same i,
                      (mutes_of w checks now s, mutes_of-AreMutes s, rw same l),
                    ),
                  )
              | inr k ↦ elim (Memᴰ.cases_cons k) [
                | inl p ↦ absurd (ground arith)
                | inr t ↦ later (rec.0 t)
              ]
            ],
            λ d. elim (IsDue-cases s ss d) [
              | inl (i, p, m, (ms, a, l)) ↦
                  let same : i ≡ input = ground arith in
                  Memᴰ.append_left _ (
                    mem-notify_all (mutes_of w checks now s) (run input checks)
                      (subst (λ x. Memᴰ r (run x checks)) same m)
                      (subst (λ x. IsLoud x r) (mutes_same s ms a) l))
              | inr t ↦ Memᴰ.append_right sent (Memᴰ.tail (rec.1 t))
            ],
          )

      go :
          ((run_servers w checks now ss).1 ≡ ok tt
            → (x : CheckResult) → Memᴰ (notified x) (run_servers w checks now ss).0 ↔ IsDue ss x)
          → (i : Result Input) → w.input_of s ≡ i
          → (run_server w checks now s i (run_servers w checks now ss)).1 ≡ ok tt
          → Memᴰ (notified r) (run_server w checks now s i (run_servers w checks now ss)).0
            ↔ IsDue (s ∷ ss) r
      go ih (err e) q h =
          let rec = ih h r in
          (
            λ m. later (rec.0 m),
            λ d. elim (IsDue-cases s ss d) [ inl (i, p, m, l) ↦ absurd (cc) | inr t ↦ rec.1 t ],
          )
      go ih (ok input) q h =
          tell ih input _ q
            (w.write (map (to_row now (mutes_of w checks now s)) (run input checks))) h

  -- In a tick that got the lock and the list of servers and ended without an error, the notifier
  -- was told exactly the firing results, of every server whose input could be assembled, that no mute
  -- of the server is for: none of their check that has no object or theirs. A server's mutes count as
  -- none if they could not be read.
  pub run_once-notified :
      (ss : List String) (r : CheckResult)
      → w.lock ≡ ok true
      → w.server_ids ≡ ok ss
      → (run_once w checks now).1 ≡ ok tt
      → Memᴰ (notified r) (run_once w checks now).0 ↔ IsDue ss r
  unfolding run_once
  run_once-notified ss r l i h =
      let same : run_once w checks now ≡ run_servers w checks now ss = rw (run_once, l, i) refl in
      rw same (run_servers-notified ss (rw same at h) r)
