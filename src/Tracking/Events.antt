-- ===== src/Tracking/Events.antt =====
-- events.go and ingestor.go: the events, and where the ingestor leaves what it records. The cache
-- of vehicles, the geofences, the clock and the failure of the insert are in `Surroundings`; the
-- effects stand in the trace of `Field`, the newest first. Metrics and the log are left out.
use farbo_rastreamento.Prelude.{
  ℕ, Bool, true, false, not, ◌||◌, Option, none, some, List, [], ◌∷◌, ◌==◌, if◌then◌else◌,
}
use farbo_rastreamento.Prelude.Words.{Bytes}
use farbo_rastreamento.Protocols.Calendar.{Time}
use farbo_rastreamento.Protocols.Message.{TrackerMessage, AlarmLabel}
use farbo_rastreamento.Devices.{Status}
use farbo_rastreamento.Tracking.State.{State, States}
use farbo_rastreamento.Tracking.Positions.{Position}

-- The types of events that the ingestor records.
pub data EventType : Type 0 where
  ignition_on ignition_off overspeed overspeed_end geofence_enter geofence_exit : EventType
  vibration power_loss low_battery sos gps_lost gps_recovered gsm_lost gsm_recovered : EventType
  device_alarm device_connected device_disconnected device_stale : EventType

-- The metadata of an event, less the texts that only repeat the message.
pub data Details (F : Type 0) : Type 0 where
  plain : Details F
  gsm_level : ℕ → Details F
  -- Whether the label has no type of its own.
  alarm : AlarmLabel → Bool → Details F
  limit : F → Option ℕ → Details F
  fence : ℕ → Option ℕ → Details F
  -- The protocol of a connection, and the state before a sweep.
  connection : Bytes → Details F
  previous : Status → Details F

pub record Event (F : Type 0) : Type 0 where
  pub device_id : ℕ
  pub typ : EventType
  pub timestamp : Time
  -- Latitude, longitude and speed.
  pub place : Option (F × F × F)
  pub details : Details F

pub data Note (F : Type 0) : Type 0 where
  recorded : Event F → Note F
  published_relay : Option ℕ → ℕ → Bool → Note F
  published_state : Option ℕ → State F → Note F
  published_position : Option ℕ → Position F → Note F
  -- The new state of a device, and the one before, if the sweep has changed it.
  published_status : Option ℕ → ℕ → Status → Option Status → Note F

pub record Field (F : Type 0) : Type 0 where
  pub states : States F
  pub positions : List (Position F)
  pub trace : List (Note F)

pub record Vehicle (F : Type 0) : Type 0 where
  pub id : ℕ
  pub speed_limit_kmh : Option F

pub record Surroundings (F : Type 0) : Type 0 where
  pub now : Time
  pub vehicle_for : ℕ → Option (Vehicle F)
  -- `Inside` of the geofences.
  pub inside : F → F → List ℕ
  pub insert_fails : Bool
  pub default_limit : F
  pub hysteresis : F

abbrev pub tell : {F : Type 0} → Note F → Field F → Field F
tell n w = record w { trace = n ∷ w.trace }

abbrev pub vehicle_id : {F : Type 0} → Option (Vehicle F) → Option ℕ
vehicle_id none = none
vehicle_id (some v) = some v.id

-- `changedBool`.
unfoldable pub changed_bool : Option Bool → Option Bool → Bool
changed_bool before none = false
changed_bool none (some a) = true
changed_bool (some true) (some a) = not a
changed_bool (some false) (some a) = a

unfoldable pub contains : ℕ → List ℕ → Bool
contains id [] = false
contains id (x ∷ xs) = x == id || contains id xs

-- `IsZero`, and the clock of the server in its place.
abbrev pub or_now : Time → Time → Time
or_now now at = if at == 0 then now else at

-- The type of the event of an alarm.
unfoldable pub alarm_type : AlarmLabel → EventType
alarm_type AlarmLabel.sos = sos
alarm_type AlarmLabel.power_loss = power_loss
alarm_type AlarmLabel.low_battery = low_battery
alarm_type AlarmLabel.vibration = vibration
alarm_type AlarmLabel.overspeed = overspeed
alarm_type AlarmLabel.ignition_on = ignition_on
alarm_type AlarmLabel.ignition_off = ignition_off
alarm_type _ = device_alarm

abbrev is_unmapped : EventType → Bool
is_unmapped device_alarm = true
is_unmapped _ = false

module _ {F : Type 0} where
  -- `recordEvent`.
  unfoldable pub record_event :
      Surroundings F → ℕ → EventType → Time → TrackerMessage F → Details F → Field F → Field F
  record_event env device typ at msg details w =
      tell
        (recorded (record {
          device_id = device;
          typ = typ;
          timestamp = or_now env.now at;
          place =
              if msg.has_location then some (msg.latitude, msg.longitude, msg.speed_kmh) else none;
          details = details;
        }))
        w

  unfoldable pub record_alarm :
      Surroundings F → ℕ → TrackerMessage F → AlarmLabel → Field F → Field F
  unfolding record_event alarm_type
  record_alarm env device msg label w =
      record_event env device (alarm_type label) msg.timestamp msg
        (alarm label (is_unmapped (alarm_type label))) w
