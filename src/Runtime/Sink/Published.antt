-- ===== src/Runtime/Sink/Published.antt =====
-- The bridge over `KuksaSink`, as `run` makes it: from a message to the databroker.
use aos_vehicle_platform.Prelude.{ℕ, String, ◌≡◌, ap₂, true, false, some, List, ok}
use aos_vehicle_platform.Python.{Library}
use aos_vehicle_platform.Bridge.Signal.{SignalSpec}
use aos_vehicle_platform.Bridge.Snapshot.{Snapshot, Values, cleared}
use aos_vehicle_platform.Bridge.Snapshot.Complete.{CoversAt, parse_snapshot-complete}
use aos_vehicle_platform.Bridge.State.{Bridge, mark_unavailable, handle_message}
use aos_vehicle_platform.Bridge.State.Frames.{
  handle_message-IsPublished, handle_message-parsed, mark_unavailable-cleared,
}
use aos_vehicle_platform.Runtime.Sink.{Databroker, KuksaSink, kuksa_sink, publish}
use aos_vehicle_platform.Runtime.Sink.Sent.{IsSent, publish-IsSent}

module _ (D : Databroker) where
  IsSent-of_publish :
      (signals : List SignalSpec) (values : Values) (s s' : KuksaSink D)
      → (publish D signals values s).0 ≡ ok tt
      → (publish D signals values s).1 ≡ s'
      → IsSent D signals values s s'
  IsSent-of_publish signals values s s' done next =
      publish-IsSent D signals values s s' (ap₂ (λ a b. (a, b)) done next)

  -- The values were withdrawn: every signal was set to no value.
  pub mark_unavailable-IsSent :
      (b : Bridge (KuksaSink D))
      → (mark_unavailable (kuksa_sink D b.signals) b).0 ≡ ok true
      → IsSent D b.signals
          (cleared b.signals)
          b.sink
          (mark_unavailable (kuksa_sink D b.signals) b).1.sink
  mark_unavailable-IsSent b h =
      let (done, next) = mark_unavailable-cleared (kuksa_sink D b.signals) b h in
      IsSent-of_publish b.signals (cleared b.signals) b.sink _ done next

  -- A new complete frame that the bridge took over reached the databroker. It was set with a value for
  -- each of the bridge's signals, all of the frame's source timestamp, in the order of the signals,
  -- within two seconds and when that time had passed on the guest's clock.
  pub handle_message-IsSent :
      (py : Library) (now : ℕ) (raw id : String) (r : Snapshot) (b : Bridge (KuksaSink D))
      → b.require_complete_frames ≡ true
      → (handle_message (kuksa_sink D b.signals) py now raw id b).0 ≡ ok r
      → r.complete ≡ true
      → r.repeated ≡ false
      → (t : ℕ) × (r.source_timestamp ≡ some t)
        × CoversAt b.signals r.values t
        × IsSent D b.signals r.values b.sink
            (handle_message (kuksa_sink D b.signals) py now raw id b).1.sink
  handle_message-IsSent py now raw id r b strict h full new =
      let K = kuksa_sink D b.signals in
      let (_, _, published) = handle_message-IsPublished K py now raw id r b strict h full new in
      let parsed = handle_message-parsed K py now raw id r b strict h full new in
      let (t, stamped, covers) = parse_snapshot-complete py raw id b.signals r parsed full in
      (t, stamped, covers, IsSent-of_publish b.signals r.values b.sink _ published.0 published.1)
