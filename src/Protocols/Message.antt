-- ===== src/Protocols/Message.antt =====
-- tracker.go: the normalised telemetry, and the canonical commands.
use farbo_rastreamento.Prelude.{ℕ, Bool, false, Option, none, List, []}
use farbo_rastreamento.Prelude.Words.{Bytes}
use farbo_rastreamento.Protocols.Calendar.{Time}
use farbo_rastreamento.Protocols.Floats.{FloatOps}

pub data MessageKind : Type 0 where
  login position heartbeat status alarm command_ack other : MessageKind

-- The labels of `Alarm`; `raw_alarm` is `ALARM_0xNN`, and the empty text is `none`.
pub data AlarmLabel : Type 0 where
  sos power_loss vibration geofence_enter geofence_exit overspeed displacement : AlarmLabel
  gps_lost gps_recovered low_battery ignition_on ignition_off : AlarmLabel
  raw_alarm : ℕ → AlarmLabel

-- What the adapters put in `Attributes`, the newest first; the texts of errors are left out.
pub data Attribute (F : Type 0) : Type 0 where
  packet_type : ℕ → Attribute F
  charging : Bool → Attribute F
  armed : Bool → Attribute F
  unhandled : Bool → Attribute F
  binary_form : Attribute F
  text_form : Attribute F
  frame_bytes : ℕ → Attribute F
  status_word : ℕ → Attribute F
  status_word_unparsed : Bytes → Attribute F
  -- The field as it came, in knots.
  speed_raw : F → Attribute F
  trailing : Bytes → Attribute F
  header : Bytes → Attribute F
  message_type : Bytes → Attribute F
  unrecognized : Attribute F
  short_packet : Attribute F
  timestamp_fallback : Attribute F
  -- The positioning by antennas.
  lbs_positioning : Attribute F
  unmapped_type : Bytes → Attribute F
  -- A captured payload: its readable form and its size.
  captured : Bytes → ℕ → Attribute F

pub record TrackerMessage (F : Type 0) : Type 0 where
  pub imei : Bytes
  pub timestamp : Time
  pub latitude : F
  pub longitude : F
  pub speed_kmh : F
  pub heading : F
  pub altitude : Option F
  pub gps_valid : Bool
  pub satellites : Option ℕ
  pub acc : Option Bool
  pub battery_voltage : Option F
  pub gsm_level : Option ℕ
  pub raw_payload : Bytes
  pub kind : MessageKind
  pub protocol : Bytes
  pub ack : Bytes
  pub has_location : Bool
  pub alarm_label : Option AlarmLabel
  pub correlation_key : ℕ
  pub response : Bytes
  pub relay_on : Option Bool
  pub battery_percent : Option ℕ
  pub hdop : Option F
  pub attributes : List (Attribute F)

-- The zero value of the struct, `TrackerMessage{}`, but for its kind, which is always set.
unfoldable pub empty_message : {F : Type 0} → ⦃fl : FloatOps F⦄ → TrackerMessage F
empty_message ⦃fl⦄ = record {
  imei = [];
  timestamp = 0;
  latitude = fl.of_nat 0;
  longitude = fl.of_nat 0;
  speed_kmh = fl.of_nat 0;
  heading = fl.of_nat 0;
  altitude = none;
  gps_valid = false;
  satellites = none;
  acc = none;
  battery_voltage = none;
  gsm_level = none;
  raw_payload = [];
  kind = other;
  protocol = [];
  ack = [];
  has_location = false;
  alarm_label = none;
  correlation_key = 0;
  response = [];
  relay_on = none;
  battery_percent = none;
  hdop = none;
  attributes = [];
}

pub data CommandType : Type 0 where
  engine_cut engine_resume request_position request_status set_interval : CommandType
  set_heartbeat set_server reboot custom : CommandType

-- `Command`, the request that an adapter encodes. A missing parameter reads as the empty text.
pub record Command : Type 0 where
  pub typ : CommandType
  pub unique_id : Bytes
  pub correlation_key : ℕ
  pub password : Bytes
  pub params : Bytes → Bytes
  pub raw : Bytes
