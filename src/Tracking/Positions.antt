-- ===== src/Tracking/Positions.antt =====
-- position.go and snapshot.go: the stored positions, newest first, and the snapshot of the last one
-- that the safety rule of the commands reads.
pub mod Freshness
use farbo_rastreamento.Prelude.{
  ℕ, Bool, true, false, ◌&&◌, Option, none, some, List, [], ◌∷◌, ltb, ◌==◌, if◌then◌else◌,
}
use farbo_rastreamento.Prelude.Words.{Bytes}
use farbo_rastreamento.Protocols.Calendar.{Time}
use farbo_rastreamento.Protocols.Floats.{FloatOps}
use farbo_rastreamento.Commands.Service.{Snapshot}

pub data Source : Type 0 where
  gps heartbeat lbs : Source

pub record Position (F : Type 0) : Type 0 where
  pub device_id : ℕ
  pub gps_timestamp : Time
  pub received_at : Time
  pub latitude : F
  pub longitude : F
  pub speed_kmh : F
  pub heading : Option F
  pub altitude : Option F
  pub gps_valid : Option Bool
  pub satellites : Option ℕ
  pub hdop : Option F
  pub acc : Option Bool
  pub battery_voltage : Option F
  pub battery_percent : Option ℕ
  pub gsm_level : Option ℕ
  pub relay_on : Option Bool
  pub protocol : Bytes
  pub source : Source
  pub raw_payload : Bytes

abbrev pub is_gps : Source → Bool
is_gps gps = true
is_gps _ = false

module _ {F : Type 0} where
  -- `Insert`: the database sets the time of arrival.
  unfoldable pub insert : Time → Position F → List (Position F) → List (Position F)
  insert now p ps = record p { received_at = now } ∷ ps

  -- The later of two positions by the clock of the tracker; the first one has the greater number.
  later : Position F → Option (Position F) → Option (Position F)
  later p none = some p
  later p (some q) = if ltb p.gps_timestamp q.gps_timestamp then some q else some p

  -- `LatestWithLocation`.
  unfoldable pub latest_with_location : ℕ → List (Position F) → Option (Position F)
  unfolding later
  latest_with_location device [] = none
  latest_with_location device (p ∷ ps) =
      let rest = latest_with_location device ps in
      if p.device_id == device && is_gps p.source then later p rest else rest

module _ {F : Type 0} ⦃fl : FloatOps F⦄ where
  -- `Snapshot` of the provider, when the database answers.
  snapshot_from : Option (Position F) → Snapshot F
  snapshot_from none = record { has_position = false; speed_kmh = fl.of_nat 0; timestamp = 0 }
  snapshot_from (some p) = record {
    has_position = true;
    speed_kmh = p.speed_kmh;
    timestamp = p.received_at;
  }

  unfoldable pub snapshot_of : ℕ → List (Position F) → Snapshot F
  unfolding snapshot_from latest_with_location
  snapshot_of device ps = snapshot_from (latest_with_location device ps)
