-- ===== src/Policy/Resolve/Shipped.antt =====
-- What the shipped snapshot entries hold (internal/api/capabilities.go), and what the collector
-- reads back of them (internal/collector/policy_refresh.go).
use mathlib.Core.Bool.{false≢true}
use mathlib.Core.List.Memᴰ
use lynceus.Prelude.{
  String, Bool, true, not, ◌++◌, ◌≡◌, ◌≢◌, refl, sym, ◌∙◌, ap, ap₂, Option, none, some, List, [],
  ◌∷◌, arith, eq_iff, filter-mem, mem-filter, find, find-some, find-none, Memᴰ, Permᴰ, ◌==◌,
  string_eq, Option-cases, inl, inr,
}
use lynceus.Prelude.Sort.{perm-mem, perm_sym}
use lynceus.Prelude.Dict.{get}
use lynceus.Caps.{query_text_t2}
use lynceus.Caps.Gate.{key_eq}
use lynceus.Policy
use lynceus.Policy.{PolicyRow, IsTable, or_empty, list_capability_policies, effective_capability}
use lynceus.Policy.Snapshot.{
  PolicySnapshotEntry, to_entry, stored_entries, resolve_entries, overlay,
}
use lynceus.Policy.Resolve.Overlay.{is_hit, or_else, HitsAgree, get-overlay}
use lynceus.Policy.Resolve.Decision.{
  HasKey, Missing, Decides, by_override, by_default, undecided, same_row,
}

or_empty_injective :
    (d e : Option String) → d ≢ some "" → e ≢ some "" → or_empty d ≡ or_empty e → d ≡ e
or_empty_injective none none h k p = refl
or_empty_injective none (some t) h k p = absurd (k (ap some (sym p)))
or_empty_injective (some s) none h k p = absurd (h (ap some p))
or_empty_injective (some s) (some t) h k p = ap some p

some_ne : {s : String} → s ≢ "" → ◌≢◌ {A = Option String} (some s) (some "")
some_ne n e = n (ap or_empty e)

none_ne : ◌≢◌ {A = Option String} none (some "")
none_ne e = cc

absurd_t2 : (c : String) → not (c == query_text_t2) ≡ true → c ≢ query_text_t2
absurd_t2 c h = ground (arith, eq_iff c query_text_t2)

module _ (order_by : List PolicyRow → List PolicyRow)
    (order_by-perm : (rows : List PolicyRow) → Permᴰ (order_by rows) rows) (rows : List PolicyRow)
    (table : IsTable rows) (server : String) where
  abbrev entries : List PolicySnapshotEntry
  entries = stored_entries (list_capability_policies order_by rows server)

  abbrev entry_of : PolicyRow → PolicySnapshotEntry
  entry_of r = to_entry (Policy.scan_row r)

  -- A stored entry comes from a row of the server.
  row_of_entry :
      (e : PolicySnapshotEntry)
      → Memᴰ e entries
      → (r : PolicyRow) × Memᴰ r rows × (r.server_id ≡ server) × (e ≡ entry_of r)
  unfolding list_capability_policies
  row_of_entry e m =
      let a = Memᴰ.of_map to_entry _ m in
      let b = mem-filter _ _ a.1 in
      let d = Memᴰ.of_map Policy.scan_row _ b.0 in
      let f =
        mem-filter (λ (r : PolicyRow). r.server_id == server) rows
          (perm-mem (order_by-perm _) d.1) in
      (d.0, f.0, (eq_iff _ _).0 f.1, sym a.2 ∙ ap to_entry (sym d.2))

  entry_of_row :
      (r : PolicyRow)
      → Memᴰ r rows
      → r.server_id ≡ server
      → r.capability ≢ query_text_t2
      → Memᴰ (entry_of r) entries
  unfolding list_capability_policies Policy.scan_row
  entry_of_row r m s n = Memᴰ.map to_entry (
      filter-mem _ (ground (arith, eq_iff r.capability query_text_t2)) (
        Memᴰ.map Policy.scan_row (
          perm-mem (perm_sym (order_by-perm _))
            (filter-mem (λ (r : PolicyRow). r.server_id == server) ((eq_iff _ _).1 s) m))))

  abbrev t2_entry : Bool → PolicySnapshotEntry
  t2_entry b = record { capability = query_text_t2; database_name = ""; enabled = b }

  module _ (t2 : Bool) (c : String) (ordinary : c ≢ query_text_t2) where
    abbrev shipped : List PolicySnapshotEntry
    shipped = entries ++ t2_entry t2 ∷ []

    hit_row :
        (wanted : Option String) (e : PolicySnapshotEntry)
        → wanted ≢ some ""
        → Memᴰ e shipped
        → is_hit (or_empty wanted) c e ≡ true
        → (r : PolicyRow) × Memᴰ r rows × HasKey server wanted c r × (e.enabled ≡ r.enabled)
    unfolding Policy.scan_row
    hit_row wanted e n m h = elim (Memᴰ.append_cases entries m) [
      | inl k ↦
          let (r, hr, hs, he) = row_of_entry e k in
          (
            r,
            hr,
            record {
              server_key = hs;
              database_key =
                  or_empty_injective r.database_name wanted (table.named r hr) n (
                    ground
                      (arith, eq_iff e.database_name (or_empty wanted), eq_iff e.capability c));
              capability_key =
                  ground (arith, eq_iff e.database_name (or_empty wanted), eq_iff e.capability c);
            },
            ap (λ (x : PolicySnapshotEntry). x.enabled) he,
          )
      | inr k ↦
          let q : e ≡ t2_entry t2 = Memᴰ.eq_of_singleton k in
          absurd (
            ordinary
              (ground (arith, eq_iff e.database_name (or_empty wanted), eq_iff e.capability c)))
    ]

    row_hit :
        (wanted : Option String) (r : PolicyRow)
        → Memᴰ r rows
        → HasKey server wanted c r
        → Memᴰ (entry_of r) shipped × (is_hit (or_empty wanted) c (entry_of r) ≡ true)
    unfolding Policy.scan_row
    row_hit wanted r m k = (
      Memᴰ.append_left _ (entry_of_row r m k.server_key (λ e. ordinary (sym k.capability_key ∙ e))),
      ground (
        arith,
        k.database_key,
        k.capability_key,
        eq_iff (or_empty r.database_name) (or_empty wanted),
        eq_iff r.capability c,
      ),
    )

    hits_agree : (wanted : Option String) → wanted ≢ some "" → HitsAgree (or_empty wanted) c shipped
    hits_agree wanted n a b ma mb ha hb =
        let (r, hr, kr, er) = hit_row wanted a n ma ha in
        let (s, hs, ks, es) = hit_row wanted b n mb hb in
        er ∙ same_row table wanted r s hr hs kr ks ∙ sym es

    get-resolve :
        (db : String)
        → db ≢ ""
        → get (record { db = db; cap = c }) (resolve_entries db shipped)
          ≡ or_else (find (is_hit db c) shipped) (or_else (find (is_hit "" c) shipped) none)
    unfolding resolve_entries get
    get-resolve db n =
        get-overlay db db c shipped (overlay "" db shipped []) (hits_agree (some db) (some_ne n))
        ∙ ap (or_else (find (is_hit db c) shipped))
            (get-overlay "" db c shipped [] (hits_agree none none_ne))

    Missing-of_find :
        (wanted : Option String)
        → find (is_hit (or_empty wanted) c) shipped ≡ none
        → Missing rows server wanted c
    Missing-of_find wanted e r m k =
        let h = row_hit wanted r m k in
        false≢true (sym (find-none (is_hit (or_empty wanted) c) shipped e h.0) ∙ h.1)

    pub gate-Decides :
        (db : String)
        → db ≢ ""
        → Decides rows server db c (get (record { db = db; cap = c }) (resolve_entries db shipped))
    gate-Decides db n = rw (get-resolve db n) (elim (Option-cases (find (is_hit db c) shipped)) [
      | inr (e, q) ↦
          let f = find-some (is_hit db c) shipped q in
          let (r, hr, kr, er) = hit_row (some db) e (some_ne n) f.0 f.1 in
          by_override r hr kr (rw q (ap some er))
      | inl q ↦ elim (Option-cases (find (is_hit "" c) shipped)) [
        | inr (e, d) ↦
            let f = find-some (is_hit "" c) shipped d in
            let (r, hr, kr, er) = hit_row none e none_ne f.0 f.1 in
            by_default r hr kr (Missing-of_find (some db) q) (rw (q, d) (ap some er))
        | inl d ↦ undecided (Missing-of_find (some db) q) (Missing-of_find none d) (rw (q, d))
      ]
    ])

  -- Of the shipped entries only the last one is about raw query text.
  t2_entry_only :
      (t2 : Bool) (e : PolicySnapshotEntry)
      → Memᴰ e (entries ++ t2_entry t2 ∷ [])
      → e.capability ≡ query_text_t2
      → e ≡ t2_entry t2
  t2_entry_only t2 e m h = elim (Memᴰ.append_cases entries m) [
    | inr k ↦ Memᴰ.eq_of_singleton k
    | inl k ↦
        let (p, hp, ep) = Memᴰ.of_map to_entry _ k in
        let f =
          mem-filter (λ (q : Policy.CapabilityPolicy). not (q.capability == query_text_t2))
            (list_capability_policies order_by rows server) hp in
        absurd (absurd_t2 p.capability f.1 (ap (λ (x : PolicySnapshotEntry). x.capability) ep ∙ h))
  ]

  pub get-resolve_t2 :
      (t2 : Bool) (db : String)
      → db ≢ ""
      → get
          (record { db = db; cap = query_text_t2 })
          (resolve_entries db (entries ++ t2_entry t2 ∷ []))
        ≡ some t2
  unfolding resolve_entries get
  get-resolve_t2 t2 db n =
      get-overlay db db query_text_t2 all_entries (overlay "" db all_entries []) (agree db)
      ∙ ap₂ or_else (no_override (find (is_hit db query_text_t2) all_entries) refl) (
          get-overlay "" db query_text_t2 all_entries [] (agree "")
          ∙ the_entry (find (is_hit "" query_text_t2) all_entries) refl)
    where
      all_entries : List PolicySnapshotEntry
      all_entries = entries ++ t2_entry t2 ∷ []

      hit_cap :
          (w : String) (e : PolicySnapshotEntry)
          → is_hit w query_text_t2 e ≡ true
          → (e.database_name ≡ w) × (e.capability ≡ query_text_t2)
      hit_cap w e h = ground (arith, eq_iff e.database_name w, eq_iff e.capability query_text_t2)

      agree : (w : String) → HitsAgree w query_text_t2 all_entries
      agree w a b ma mb ha hb =
          ap (λ (x : PolicySnapshotEntry). x.enabled)
            (t2_entry_only t2 a ma (hit_cap w a ha).1
              ∙ sym (t2_entry_only t2 b mb (hit_cap w b hb).1))

      no_override :
          (o : Option PolicySnapshotEntry)
          → find (is_hit db query_text_t2) all_entries ≡ o
          → o ≡ none
      no_override none q = refl
      no_override (some e) q =
          let f = find-some (is_hit db query_text_t2) all_entries q in
          let k = hit_cap db e f.1 in
          absurd (
            n (
              sym k.0
              ∙ ap (λ (x : PolicySnapshotEntry). x.database_name) (t2_entry_only t2 e f.0 k.1)))

      the_entry :
          (o : Option PolicySnapshotEntry)
          → find (is_hit "" query_text_t2) all_entries ≡ o
          → or_else o none ≡ some t2
      the_entry none q = absurd (
          false≢true (
            sym (
              find-none (is_hit "" query_text_t2) all_entries q (
                Memᴰ.append_right entries
                  (let here : Memᴰ (t2_entry t2) (t2_entry t2 ∷ []) = Memᴰ.head refl in here)))
            ∙ refl))
      the_entry (some e) q =
          let f = find-some (is_hit "" query_text_t2) all_entries q in
          ap (λ (x : PolicySnapshotEntry). some x.enabled)
            (t2_entry_only t2 e f.0 (hit_cap "" e f.1).1)
