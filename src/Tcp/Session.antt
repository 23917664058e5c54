-- ===== src/Tcp/Session.antt =====
-- session.go: the read loop of one connection. What a session calls (the ingestor, the socket, the
-- connection manager) is the record `Effects`, over a state `W` of the world; metrics and the log
-- are left out.
pub mod Progress
pub mod Feed
pub mod Stream
use farbo_rastreamento.Prelude.{
  ℕ, zero, suc, ◌≤◌, Bool, true, false, not, ◌&&◌, Option, none, some, List, [], ◌∷◌, ◌++◌, ltb,
  leb, ◌==◌, if◌then◌else◌, length, take, drop, min, Result, ok, err,
}
use farbo_rastreamento.Prelude.Words.{Bytes}
use farbo_rastreamento.Protocols.Framing.{Framed, FramingError, incomplete_frame}
use farbo_rastreamento.Protocols.Text.{is_empty}
use farbo_rastreamento.Protocols.Message.{TrackerMessage}

-- `TrackerProtocol`, as far as a session uses it. `E` is the type of the errors of `Parse`.
pub record TrackerProtocol (E F : Type 0) : Type 0 where
  pub name : Bytes
  pub detect : Bytes → Bool
  pub next_frame : Bytes → Framed
  pub parse : Bytes → Result E (List (TrackerMessage F))

-- `ProtocolRegistry.Detect`: the first adapter that recognises the bytes.
unfoldable pub detect_first :
    {E F : Type 0} → List (TrackerProtocol E F) → Bytes → Option (TrackerProtocol E F)
detect_first [] bs = none
detect_first (p ∷ ps) bs = if p.detect bs then some p else detect_first ps bs

-- The identity that `Identify` writes; no device is `none`.
pub record Identity : Type 0 where
  pub imei : Bytes
  pub device_id : Option ℕ

-- nil, an error that wraps `ErrRejectSession`, another error.
pub data Outcome : Type 0 where
  accepted rejected failed : Outcome

pub data Reason (E : Type 0) : Type 0 where
  oversized unknown_protocol : Reason E
  framing : FramingError → Reason E
  parsing : E → Reason E

pub record Effects (E F W : Type 0) : Type 0 where
  pub handle_message : W → Identity → TrackerMessage F → W × Identity × Outcome
  pub handle_invalid : W → Identity → Bytes → Bytes → Reason E → W
  pub send : W → Bytes → W × Bool
  pub register : W → Identity → W

-- What dispatching changes.
pub record Core (W : Type 0) : Type 0 where
  pub world : W
  pub identity : Identity
  pub registered : Bool

pub record Session (E F W : Type 0) : Type 0 where
  pub core : Core W
  pub protocol : Option (TrackerProtocol E F)
  pub buf : Bytes

abbrev pub read_chunk : ℕ
read_chunk = 2048

abbrev max_capture : ℕ
max_capture = 2048

abbrev detect_min_bytes : ℕ
detect_min_bytes = 8

-- `truncate`.
abbrev truncate : Bytes → Bytes
truncate bs = if leb (length bs) max_capture then bs else take max_capture bs

-- What one answer of `NextFrame` asks for: stop and keep the session or not, or go on behind the
-- consumed bytes.
pub data Next (W : Type 0) : Type 0 where
  stop : Core W → Bool → Next W
  go_on : Core W → ℕ → Next W

module _ {E F W : Type 0} (fx : Effects E F W) where
  invalid : Core W → Bytes → Bytes → Reason E → Core W
  invalid c payload name why = record c {
    world = fx.handle_invalid c.world c.identity (truncate payload) name why;
  }

  -- The first message that identifies the device publishes the session.
  publish : Core W → Core W
  publish c =
      if not c.registered && not (is_empty c.identity.imei)
      then record c { world = fx.register c.world c.identity; registered = true }
      else c

  after_handling : Core W → W × Identity × Outcome → Core W × Bool
  unfolding publish
  after_handling c (w, who, accepted) = (publish (record c { world = w; identity = who }), true)
  after_handling c (w, who, rejected) = (record c { world = w; identity = who }, false)
  after_handling c (w, who, failed) = (record c { world = w; identity = who }, true)

  handle : Core W → TrackerMessage F → Core W × Bool
  unfolding after_handling
  handle c msg = after_handling c (fx.handle_message c.world c.identity msg)

  after_ack : Core W → TrackerMessage F → W × Bool → Core W × Bool
  unfolding handle
  after_ack c msg (w, true) = handle (record c { world = w }) msg
  after_ack c msg (w, false) = (record c { world = w }, false)

  -- One round of the loop over the messages: the answer goes out first.
  dispatch_message : TrackerProtocol E F → Core W → TrackerMessage F → Core W × Bool
  unfolding after_ack
  dispatch_message p c msg =
      let named = record msg {
        protocol = if is_empty msg.protocol then p.name else msg.protocol;
        imei = if is_empty msg.imei then c.identity.imei else msg.imei;
      } in
      if is_empty msg.ack then handle c named else after_ack c named (fx.send c.world msg.ack)

  dispatch_messages : TrackerProtocol E F → Core W → List (TrackerMessage F) → Core W × Bool
  unfolding dispatch_message
  dispatch_messages p c [] = (c, true)
  dispatch_messages p c (m ∷ ms) =
      let (c', alive) = dispatch_message p c m in
      elim alive [ true ↦ dispatch_messages p c' ms | false ↦ (c', false) ]

  -- `dispatch`; a frame that cannot be parsed does not end the session.
  unfoldable pub dispatch : TrackerProtocol E F → Core W → Bytes → Core W × Bool
  unfolding dispatch_messages invalid
  dispatch p c frame = elim (p.parse frame) [
    | ok msgs ↦ dispatch_messages p c msgs
    | err e ↦ (invalid c frame p.name (parsing e), true)
  ]

  take_frame : TrackerProtocol E F → Core W → ℕ → Option Bytes → Next W
  take_frame p c n none = go_on c n
  take_frame p c n (some frame) =
      let (c', alive) = dispatch p c frame in if alive then go_on c' n else stop c' false

  answer : TrackerProtocol E F → Core W → Bytes → ℕ → Option Bytes → Option FramingError → Next W
  unfolding take_frame invalid
  answer p c buf n frame (some incomplete_frame) = stop c true
  answer p c buf n frame (some e) =
      let told = invalid c (take (min n (length buf)) buf) p.name (framing e) in
      if n == 0 then stop told false else go_on told n
  answer p c buf n frame none = if n == 0 then stop c true else take_frame p c n frame

  -- One round of the loop of `process`.
  unfoldable pub round : TrackerProtocol E F → Core W → Bytes → Next W
  unfolding answer
  round p c buf = let r = p.next_frame buf in answer p c buf r.consumed r.frame r.error

  -- The loop of `process`. `none` is no answer of the code: the fuel ran out.
  unfoldable pub process_frames :
      ℕ → TrackerProtocol E F → Core W → Bytes → Option (Core W × Bytes × Bool)
  process_frames fuel p c [] = some (c, [], true)
  process_frames zero p c (b ∷ bs) = none
  process_frames (suc fuel) p c (b ∷ bs) = elim (round p c (b ∷ bs)) [
    | stop c' alive ↦ some (c', b ∷ bs, alive)
    | go_on c' n ↦ process_frames fuel p c' (drop n (b ∷ bs))
  ]

  -- The result of the loop, put back in the session.
  resume :
      Session E F W
      → TrackerProtocol E F
      → Option (Core W × Bytes × Bool)
      → Option (Session E F W × Bool)
  resume s p none = none
  resume s p (some (c, buf, alive)) =
      some (record s { core = c; protocol = some p; buf = buf }, alive)

  abbrev loop_from : Session E F W → TrackerProtocol E F → Option (Session E F W × Bool)
  loop_from s p = resume s p (process_frames (length s.buf) p s.core s.buf)

  abbrev protocol_name : Option (TrackerProtocol E F) → Bytes
  protocol_name none = []
  protocol_name (some p) = p.name

  -- `detect`, when no protocol has been chosen yet, and the loop if it finds one.
  detected : Session E F W → Option (TrackerProtocol E F) → Option (Session E F W × Bool)
  unfolding invalid resume
  detected s (some p) = loop_from s p
  detected s none =
      if ltb (length s.buf) detect_min_bytes
      then some (s, true)
      else some (record s { core = invalid s.core s.buf [] unknown_protocol; buf = [] }, false)

  identified :
      List (TrackerProtocol E F)
      → Session E F W
      → Option (TrackerProtocol E F)
      → Option (Session E F W × Bool)
  unfolding detected
  identified registry s (some p) = loop_from s p
  identified registry s none = detected s (detect_first registry s.buf)

  unfoldable pub process :
      ℕ → List (TrackerProtocol E F) → Session E F W → Option (Session E F W × Bool)
  unfolding invalid identified
  process max_packet_size registry s =
      if ltb max_packet_size (length s.buf)
      then some
          (record s { core = invalid s.core s.buf (protocol_name s.protocol) oversized }, false)
      else identified registry s s.protocol

  run_on :
      Option (Session E F W × Bool)
      → (Session E F W → Option (Session E F W × Bool))
      → Option (Session E F W × Bool)
  run_on none rest = none
  run_on (some (s, true)) rest = rest s
  run_on (some (s, false)) rest = some (s, false)

  -- `run`, over the chunks that the socket delivers.
  unfoldable pub run :
      ℕ → List (TrackerProtocol E F) → Session E F W → List Bytes → Option (Session E F W × Bool)
  unfolding run_on
  run max_packet_size registry s [] = some (s, true)
  run max_packet_size registry s (chunk ∷ chunks) =
      run_on (process max_packet_size registry (record s { buf = s.buf ++ chunk }))
        (λ s'. run max_packet_size registry s' chunks)
