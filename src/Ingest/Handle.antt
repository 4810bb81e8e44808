-- ===== src/Ingest/Handle.antt =====
-- internal/ingest/server.go (`handle`, `limiterFor`, `parkDLQ`): one connection, which brings one
-- frame. The handler's answers and the writes to the store are its result.
pub mod Delivery
use Prim.Native.String.{◌++◌ as text_append}
use lynceus.Prelude.{
  ℕ, String, Bool, true, false, not, ◌&&◌, Option, none, some, List, [], ◌∷◌, ◌++◌, ◌==◌, string_eq,
  if◌then◌else◌,
}
use lynceus.Prelude.Dict.{Dict, get, put}
use lynceus.Prelude.Result.{Error, Result, ok, err}
use lynceus.Ingest.Wire.{Snapshot}
use lynceus.Ingest.Persist.{Outside, Write, Persisted, persist_snapshot}

abbrev pub Frame : Type 0
Frame = List ℕ

-- Why a frame is parked: the text is a label and the error's own.
pub data ParkReason : Type 0 where
  unmarshal : Error → ParkReason
  rate_limited : ParkReason
  write_failed : String → Error → ParkReason

pub record DlqEntry : Type 0 where
  pub server_id : String
  pub reason : ParkReason
  pub raw : Frame

-- How the connection ends.
pub data Close : Type 0 where
  unauthorized not_accepted not_read invalid_payload try_again_later internal_error normal : Close

-- golang.org/x/time/rate: a new limiter, and what `Allow` answers and leaves.
pub record RateLimit (Limiter : Type 0) : Type 0 where
  pub new_limiter : Limiter
  pub allow : Limiter → Bool × Limiter

-- What arrives: the Authorization header, the websocket upgrade's error, the frame.
pub record Request : Type 0 where
  pub authorization : String
  pub accept : Option Error
  pub read : Result Frame

pub record ServerState (Body Limiter : Type 0) : Type 0 where
  pub limiters : Dict String Limiter
  pub writes : List (Write Body)
  pub dlq : List DlqEntry

unfoldable pub limiter_for :
    {Limiter : Type 0} → RateLimit Limiter → Dict String Limiter → String → Limiter
limiter_for rl limiters server = elim (get server limiters) [ some l ↦ l | none ↦ rl.new_limiter ]

-- An error of the queue is logged, and the frame is lost.
unfoldable pub park_dlq :
    (DlqEntry → Option Error) → String → ParkReason → Frame → List DlqEntry → List DlqEntry
park_dlq park server reason raw dlq =
    let entry : DlqEntry = record { server_id = server; reason = reason; raw = raw } in
    elim (park entry) [ none ↦ dlq ++ entry ∷ [] | some e ↦ dlq ]

-- The bearer token must match, unless none is configured.
abbrev pub authorized : String → Request → Bool
authorized token r = if token == "" then true else r.authorization == text_append "Bearer " token

module _ {Body Limiter : Type 0} (out : Outside Body) (rl : RateLimit Limiter)
    (park : DlqEntry → Option Error) (unmarshal_frame : Frame → Result (Snapshot Body)) where
  -- The end of `handle`: the rows are written, or the frame is parked.
  abbrev pub store_frame :
      Snapshot Body
      → Frame
      → Dict String Limiter
      → ServerState Body Limiter
      → Persisted Body
      → Close × ServerState Body Limiter
  store_frame snap frame limiters s p = elim p.failed [
    | none ↦ (normal, record { limiters = limiters; writes = s.writes ++ p.done; dlq = s.dlq })
    | some f ↦ (
      internal_error,
      record {
        limiters = limiters;
        writes = s.writes ++ p.done;
        dlq = park_dlq park snap.server_id (write_failed f.0 f.1) frame s.dlq;
      },
    )
  ]

  -- A decoded snapshot against its server's limiter.
  abbrev pub limit_frame :
      Snapshot Body → Frame → ServerState Body Limiter → Close × ServerState Body Limiter
  limit_frame snap frame s =
      let taken = rl.allow (limiter_for rl s.limiters snap.server_id) in
      let limiters = put snap.server_id taken.1 s.limiters in
      if not taken.0
      then (
        try_again_later,
        record {
          limiters = limiters;
          writes = s.writes;
          dlq = park_dlq park snap.server_id rate_limited frame s.dlq;
        },
      )
      else store_frame snap frame limiters s (persist_snapshot out snap)

  unfoldable pub handle :
      String → Request → ServerState Body Limiter → Close × ServerState Body Limiter
  handle token r s = if not (authorized token r) then (unauthorized, s) else elim r.accept [
    | some e ↦ (not_accepted, s)
    | none ↦ elim r.read [
      | err e ↦ (not_read, s)
      | ok frame ↦ elim (unmarshal_frame frame) [
        | err e ↦ (
          invalid_payload,
          record {
            limiters = s.limiters;
            writes = s.writes;
            dlq = park_dlq park "" (unmarshal e) frame s.dlq;
          },
        )
        | ok snap ↦ limit_frame snap frame s
      ]
    ]
  ]
