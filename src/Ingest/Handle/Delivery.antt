-- ===== src/Ingest/Handle/Delivery.antt =====
-- internal/ingest/server.go (`handle`): no frame is lost between the store and the queue.
use mathlib.Core.Bool.{false≢true}
use lynceus.Prelude.{
  String, Bool, true, false, ◌≡◌, ◌≢◌, ◌⊎◌, refl, sym, ap, subst, ◌∙◌, inl, inr, Option, none, [],
  ◌∷◌, ◌++◌, Bool-cases,
}
use lynceus.Prelude.Result.{Error, Result, ok, err}
use lynceus.Ingest.Wire.{Snapshot}
use lynceus.Ingest.Persist.{Outside, Persisted, persist_snapshot}
use lynceus.Ingest.Persist.Order.{
  planned, writes_of, Followed, all_done, stopped_at, persist_snapshot-Followed,
}
use lynceus.Ingest.Handle.{
  Frame, ParkReason, DlqEntry, Close, normal, internal_error, try_again_later, invalid_payload,
  unmarshal, rate_limited, write_failed, RateLimit, Request, ServerState, authorized, limit_frame,
  store_frame, limiter_for, park_dlq, handle,
}

abbrev is_normal : Close → Bool
is_normal normal = true
is_normal _ = false

not_normal : (c : Close) → is_normal c ≡ false → c ≢ normal
not_normal c f q = false≢true (sym f ∙ ap is_normal q)

-- A frame's end: every write of its snapshot was made and the connection ends normally, or the frame
-- is the last entry of the dead-letter queue and it does not.
abbrev pub IsDelivered :
    {Body Limiter : Type 0}
    → Outside Body
    → (Frame → Result (Snapshot Body))
    → Frame
    → ServerState Body Limiter
    → Close × ServerState Body Limiter
    → Type 0
IsDelivered {Body = Body} out unmarshal_frame frame s (c, t) =
    ((snap : Snapshot Body) × (unmarshal_frame frame ≡ ok snap)
      × (c ≡ normal)
      × (t.writes ≡ s.writes ++ writes_of (planned out snap))
      × (t.dlq ≡ s.dlq))
    ⊎ ((entry : DlqEntry) × (entry.raw ≡ frame) × (t.dlq ≡ s.dlq ++ entry ∷ []) × (c ≢ normal))

module _ {Body Limiter : Type 0} (out : Outside Body) (rl : RateLimit Limiter)
    (park : DlqEntry → Option Error) (unmarshal_frame : Frame → Result (Snapshot Body))
    (parks : (e : DlqEntry) → park e ≡ none) (s : ServerState Body Limiter) where
  parked :
      (server : String) (reason : ParkReason) (frame : Frame)
      → park_dlq park server reason frame s.dlq
        ≡ s.dlq ++ (record { server_id = server; reason = reason; raw = frame }) ∷ []
  unfolding park_dlq
  parked server reason frame =
      rw (park_dlq, parks (record { server_id = server; reason = reason; raw = frame })) refl

  store_frame-IsDelivered :
      (snap : Snapshot Body) (frame : Frame) (limiters : _)
      → unmarshal_frame frame ≡ ok snap
      → IsDelivered out unmarshal_frame frame s (
          store_frame out rl park unmarshal_frame snap frame limiters s (persist_snapshot out snap))
  store_frame-IsDelivered snap frame limiters u =
      go (persist_snapshot out snap) (persist_snapshot-Followed out snap)
    where
      end : Persisted Body → Close × ServerState Body Limiter
      end p = store_frame out rl park unmarshal_frame snap frame limiters s p

      go :
          (p : Persisted Body)
          → Followed out.answer (planned out snap) p
          → IsDelivered out unmarshal_frame frame s (end p)
      go p (all_done e) =
          subst (λ q. IsDelivered out unmarshal_frame frame s (end q)) (sym e)
            (inl (snap, u, refl, refl, refl))
      go p (stopped_at before after l w x e q k) =
          subst (λ q. IsDelivered out unmarshal_frame frame s (end q)) (sym k)
            (inr (
              _,
              refl,
              parked snap.server_id (write_failed l x) frame,
              not_normal internal_error refl,
            ))

  limit_frame-IsDelivered :
      (snap : Snapshot Body) (frame : Frame)
      → unmarshal_frame frame ≡ ok snap
      → IsDelivered out unmarshal_frame frame s
          (limit_frame out rl park unmarshal_frame snap frame s)
  limit_frame-IsDelivered snap frame u =
      elim (Bool-cases (rl.allow (limiter_for rl s.limiters snap.server_id)).0) [
        | inl y ↦ rw (limit_frame, y) (store_frame-IsDelivered snap frame _ u)
        | inr n ↦
            rw (limit_frame, n)
              (inr (
                _,
                refl,
                parked snap.server_id rate_limited frame,
                not_normal try_again_later refl,
              ))
      ]

  -- An authorized frame that arrives is either stored whole, or parked in the dead-letter queue
  -- once, as it came, as long as the queue takes what it is given.
  pub handle-IsDelivered :
      (token : String) (r : Request) (frame : Frame)
      → authorized token r ≡ true
      → r.accept ≡ none
      → r.read ≡ ok frame
      → IsDelivered out unmarshal_frame frame s (handle out rl park unmarshal_frame token r s)
  unfolding handle
  handle-IsDelivered token r frame h a d = rw (handle, h, a, d) (go (unmarshal_frame frame) refl)
    where
      go :
          (res : Result (Snapshot Body))
          → unmarshal_frame frame ≡ res
          → IsDelivered out unmarshal_frame frame s (elim res [
            | err e ↦ (
              invalid_payload,
              record {
                limiters = s.limiters;
                writes = s.writes;
                dlq = park_dlq park "" (unmarshal e) frame s.dlq;
              },
            )
            | ok snap ↦ limit_frame out rl park unmarshal_frame snap frame s
          ])
      go (err e) u = inr (_, refl, parked "" (unmarshal e) frame, not_normal invalid_payload refl)
      go (ok snap) u = limit_frame-IsDelivered snap frame u
