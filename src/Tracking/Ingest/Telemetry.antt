-- ===== src/Tracking/Ingest/Telemetry.antt =====
-- ingestor.go, `processTelemetry`: what a message leaves in the state and among the positions.
use farbo_rastreamento.Prelude.{ℕ, ◌≡◌}
use farbo_rastreamento.Protocols.Floats.{FloatOps}
use farbo_rastreamento.Protocols.Message.{TrackerMessage}
use farbo_rastreamento.Tracking.State.{State, update}
use farbo_rastreamento.Tracking.Events.{Field, Surroundings}
use farbo_rastreamento.Tracking.Ingest.{apply_message}

-- Nothing but the trace differs.
Quiet : {F : Type 0} → Field F → Field F → Type 0
Quiet w w' = (w'.states ≡ w.states) × (w'.positions ≡ w.positions)

module _ {F : Type 0} ⦃fl : FloatOps F⦄ (env : Surroundings F) where
  -- The state, and what has been told of it and of an alarm.
  abbrev moved_by : ℕ → TrackerMessage F → Field F → Field F
  moved_by device msg w = record w {
    states = update env.now device (apply_message env.now msg) w.states;
  }
