-- ===== src/Commands/Service.antt =====
-- service.go: the request of a command, its dispatch, the answer of the tracker and the sweep.
-- What the service calls outside this package is in `Env`: the registry of protocols, the last
-- known position, the socket, the random source, the clock and the database's failures. What it
-- does to the outside is the trace of `World`, the newest effect first. The loggers are left out.
pub mod Values
use farbo_rastreamento.Prelude.{
  ℕ, ◌%◌, ◌^◌, ◌/◌, Bool, Option, none, some, List, [], ◌∷◌, ◌==◌, if◌then◌else◌, Result,
}
use farbo_rastreamento.Prelude.Words.{Bytes, u32_at}
use farbo_rastreamento.Protocols.Text.{is_printable, hex_digit_upper}
use farbo_rastreamento.Protocols.Calendar.{Time}
use farbo_rastreamento.Protocols.Message.{CommandType, engine_cut, engine_resume, custom, Command}
use farbo_rastreamento.Commands.Store.{Status, Reason, Row, Table, StoreError, Statement}

pub record Snapshot (F : Type 0) : Type 0 where
  pub has_position : Bool
  pub speed_kmh : F
  pub timestamp : Time

-- What the service uses of a `devices.Device`.
pub record Device : Type 0 where
  pub id : ℕ
  pub imei : Bytes
  pub protocol : Bytes
  pub password : Bytes
  pub overrides : CommandType → Bytes

-- `typ` is none for a text that is no command type.
pub record Request : Type 0 where
  pub device : Device
  pub vehicle : Option ℕ
  pub typ : Option CommandType
  pub params : Bytes → Bytes
  pub raw_override : Bytes
  pub user : Option ℕ
  pub ip : Bytes

-- The readings of the clock, by the place where the code takes them.
pub data Moment : Type 0 where
  at_check at_create at_dispatch at_sent at_answer at_event at_sweep : Moment

-- How a write to the socket fails.
pub data SendFailure : Type 0 where
  disconnected : SendFailure
  broken : Bytes → SendFailure

-- An adapter of the registry: its name and its `EncodeCommand`, with the text of its error.
pub record Adapter : Type 0 where
  pub name : Bytes
  pub encode : Command → Result Bytes Bytes

pub record Env (F : Type 0) : Type 0 where
  pub by_name : Bytes → Option Adapter
  pub snapshot : ℕ → Option (Snapshot F)
  pub deliver : Bytes → Bytes → Option SendFailure
  pub random : Option Bytes
  pub unix_nano : ℕ
  pub clock : Moment → Time
  pub is_down : Statement → Bool
  pub max_speed : F
  pub max_age : Time
  pub ack_timeout : Time

-- The events of the engine relay, by the stage that they report.
pub data Stage : Type 0 where
  requested dispatched answered : Stage

pub data EventKind : Type 0 where
  cut resume : Stage → EventKind

pub data Topic : Type 0 where
  command_sent command_acknowledged command_failed : Topic

-- The entries of the audit: the action with the metadata that only it has.
pub data Action : Type 0 where
  command_requested : Bytes → Bytes → Action
  command_sent_out : Action
  command_rejected : Reason → Action
  command_result : Bytes → Bool → Action
  command_expired : Action

pub record Entry : Type 0 where
  pub user : Option ℕ
  pub action : Action
  pub vehicle : Option ℕ
  pub device : ℕ
  pub result : Status
  pub ip : Bytes
  pub command : CommandType
  pub command_id : ℕ

pub record EngineEvent : Type 0 where
  pub device : ℕ
  pub kind : EventKind
  pub timestamp : Time
  pub command : CommandType
  pub command_id : ℕ
  pub status : Status

pub data Effect : Type 0 where
  -- A payload that the socket of an IMEI took.
  transmitted : Bytes → Bytes → Effect
  audited : Entry → Effect
  recorded : EngineEvent → Effect
  published : Topic → Option ℕ → Row → Effect
  counted_sent : CommandType → Effect
  counted_failed : CommandType → Status → Effect
  -- From when, and until when, the tracker took to answer.
  timed : CommandType → Time → Time → Effect

pub record World : Type 0 where
  pub table : Table
  pub trace : List Effect

pub data ServiceError : Type 0 where
  unknown_command no_protocol : ServiceError
  not_encoded : Bytes → Bytes → ServiceError
  store_failed : StoreError → ServiceError
  refused : Reason → ServiceError

abbrev pub note : Effect → World → World
note e w = record w { trace = e ∷ w.trace }

-- `newCorrelationKey`.
unfoldable pub new_correlation_key : Option Bytes → ℕ → ℕ
new_correlation_key none nano = nano % 2 ^ 32
new_correlation_key (some buf) nano = if u32_at buf == 0 then 1 else u32_at buf

-- `printable`: the bytes that are not printable as `\xNN`.
unfoldable pub printable : Bytes → Bytes
printable [] = []
printable (b ∷ bs) =
    if is_printable b
    then b ∷ printable bs
    else b'\\' ∷ b'x' ∷ hex_digit_upper (b / 16) ∷ hex_digit_upper (b % 16) ∷ printable bs

unfoldable pub raw_for : CommandType → Request → Bytes
raw_for custom req = req.raw_override
raw_for typ req = req.device.overrides typ

-- `requestedEvent`, `sentEvent` and `ackEvent`.
unfoldable pub engine_event : Stage → CommandType → Option EventKind
engine_event stage engine_cut = some (cut stage)
engine_event stage engine_resume = some (resume stage)
engine_event stage _ = none

unfoldable pub record_engine_event : Time → Row → Option EventKind → World → World
record_engine_event now r none w = w
record_engine_event now r (some kind) w =
    note
      (recorded (record {
        device = r.device;
        kind = kind;
        timestamp = now;
        command = r.command;
        command_id = r.id;
        status = r.status;
      }))
      w

abbrev pub entry_of : Request → Action → Status → Row → Entry
entry_of req action result r = record {
  user = req.user;
  action = action;
  vehicle = req.vehicle;
  device = req.device.id;
  result = result;
  ip = req.ip;
  command = r.command;
  command_id = r.id;
}

-- A row as the service fills it before `Create`.
abbrev pub new_row : Request → CommandType → Bytes → Status → ℕ → Reason → Row
new_row req typ payload status key why = record {
  id = 0;
  device = req.device.id;
  command = typ;
  payload = payload;
  status = status;
  correlation_key = key;
  requested_by = req.user;
  requested_at = 0;
  sent_at = none;
  acknowledged_at = none;
  timeout_at = none;
  response = [];
  error = why;
}

abbrev pub Answer : Type 0
Answer = Result ServiceError Row × World

abbrev pub with_table : Table → World → World
with_table t w = record w { table = t }
